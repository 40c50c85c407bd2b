-- ===== src/Tax/Tests.antt =====
-- A run of the tax engine, and the theorem about it at a concrete rate.
use hotelia.Prelude.{◌+◌, ◌*◌, ◌≤◌, ◌≡◌, refl, codes, [], ◌∷◌, true}
use hotelia.Tax.Engine.{whole, RateNormalizationInput, normalize_rate, normalize_rate-adds_up}

-- A gross price of 118.00 with 16 % and 2 %.
abbrev quote_ : RateNormalizationInput
quote_ = record {
  amount = whole 11800;
  currency = codes "KES";
  is_gross = true;
  tax_rules =
      record { id = codes "vat"; name = codes "VAT"; rate = 1600 }
      ∷ record { id = codes "levy"; name = codes "Levy"; rate = 200 }
      ∷ [];
}

quote_net : (normalize_rate quote_).net_amount ≡ 10000
unfolding normalize_rate
quote_net = refl

normalize_rate-adds_up_example :
    (2 * (normalize_rate quote_).gross_amount
      ≤ 2 * ((normalize_rate quote_).net_amount + (normalize_rate quote_).tax_amount) + 2 + 1)
    × (2 * ((normalize_rate quote_).net_amount + (normalize_rate quote_).tax_amount)
        ≤ 2 * (normalize_rate quote_).gross_amount + 2 + 1)
normalize_rate-adds_up_example = normalize_rate-adds_up quote_
