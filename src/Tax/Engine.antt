-- ===== src/Tax/Engine.antt =====
-- `TaxEngine.normalizeRate` and `taxesToGross` (packages/shared/src/tax/index.ts). The amount that
-- comes in is any fraction of a cent that is not negative, the results are whole cents, and rates are
-- in ten-thousandths. The arithmetic is exact; `Number.EPSILON`, which makes up for binary
-- fractions, has no part in it.
use hotelia.Prelude.{
  ℕ, ◌+◌, ◌*◌, ◌/◌, ◌≤◌, ◌≡◌, List, [], ◌∷◌, Bool, false, arith, if◌then◌else◌, Text, codes, length,
}

pub record TaxRule : Type 0 where
  pub id : Text
  pub name : Text
  pub rate : ℕ

pub record TaxLine : Type 0 where
  pub rule_id : Text
  pub name : Text
  pub rate : ℕ
  pub amount : ℕ

pub record NormalizedRate : Type 0 where
  pub net_amount : ℕ
  pub gross_amount : ℕ
  pub tax_amount : ℕ
  pub tax_items : List TaxLine
  pub was_inclusive : Bool
  pub currency : Text

-- An amount of `units / (per + 1)` cents.
pub record Amount : Type 0 where
  pub units : ℕ
  pub per : ℕ

-- The divisor of an amount.
abbrev pub parts : Amount → ℕ
parts a = a.per + 1

abbrev pub whole : ℕ → Amount
whole n = record { units = n; per = 0 }

pub record RateNormalizationInput : Type 0 where
  pub amount : Amount
  pub currency : Text
  pub is_gross : Bool
  pub tax_rules : List TaxRule

-- `round2` of the quotient n / d: the nearest cent, halves up.
unfoldable pub round2 : ℕ → ℕ → ℕ
round2 n d = (2 * n + d) / (2 * d)

-- `taxRules.reduce((acc, r) => acc + r.rate, 0)`
unfoldable pub total_rate : List TaxRule → ℕ
total_rate [] = 0
total_rate (r ∷ rs) = r.rate + total_rate rs

abbrev pub tax_line : ℕ → TaxRule → TaxLine
tax_line net r = record {
  rule_id = r.id;
  name = r.name;
  rate = r.rate;
  amount = round2 (net * r.rate) 10000;
}

unfoldable pub tax_lines : ℕ → List TaxRule → List TaxLine
tax_lines net [] = []
tax_lines net (r ∷ rs) = tax_line net r ∷ tax_lines net rs

-- `taxItems.reduce((a, t) => a + t.amount, 0)`; a sum of cents needs no rounding.
unfoldable pub tax_total : List TaxLine → ℕ
tax_total [] = 0
tax_total (t ∷ ts) = t.amount + tax_total ts

unfoldable pub net_of : RateNormalizationInput → ℕ
unfolding round2 total_rate
net_of input =
    let a = input.amount in
    if input.is_gross
    then round2 (a.units * 10000) (parts a * (10000 + total_rate input.tax_rules))
    else round2 a.units (parts a)

unfoldable pub normalize_rate : RateNormalizationInput → NormalizedRate
unfolding net_of round2 total_rate tax_lines tax_total
normalize_rate input =
    let net = net_of input in
    let items = tax_lines net input.tax_rules in
    record {
      net_amount = net;
      gross_amount = round2 (net * (10000 + total_rate input.tax_rules)) 10000;
      tax_amount = tax_total items;
      tax_items = items;
      was_inclusive = input.is_gross;
      currency = input.currency;
    }

unfoldable pub taxes_to_gross : ℕ → List TaxRule → ℕ × List TaxLine
unfolding normalize_rate
taxes_to_gross net rules =
    let n = normalize_rate (record {
      amount = whole net;
      currency = codes "USD";
      is_gross = false;
      tax_rules = rules;
    }) in
    (n.gross_amount, n.tax_items)

round2-nearest :
    (n : ℕ) → (20000 * round2 n 10000 ≤ 2 * n + 10000) × (2 * n ≤ 20000 * round2 n 10000 + 10000)
unfolding round2
round2-nearest n = omega arith

mul_rate : (net r t : ℕ) → net * (r + t) ≡ net * r + net * t
mul_rate net r t = grind arith

tax_lines-bounds :
    (net : ℕ) (rs : List TaxRule)
    → (20000 * tax_total (tax_lines net rs) ≤ 2 * (net * total_rate rs) + 10000 * length rs)
      × (2 * (net * total_rate rs) ≤ 20000 * tax_total (tax_lines net rs) + 10000 * length rs)
unfolding tax_total tax_lines total_rate
tax_lines-bounds net [] = omega arith
tax_lines-bounds net (r ∷ rs) = omega (
  arith,
  tax_lines-bounds net rs,
  round2-nearest (net * r.rate),
  mul_rate net r.rate (total_rate rs),
)

-- The gross amount and the sum of the net amount and the taxes differ by at most half a cent for
-- each tax rule and one half more, whether the source was net or gross.
pub normalize_rate-adds_up :
    (input : RateNormalizationInput)
    → (2 * (normalize_rate input).gross_amount
        ≤ 2 * ((normalize_rate input).net_amount + (normalize_rate input).tax_amount)
          + length input.tax_rules
          + 1)
      × (2 * ((normalize_rate input).net_amount + (normalize_rate input).tax_amount)
          ≤ 2 * (normalize_rate input).gross_amount + length input.tax_rules + 1)
unfolding normalize_rate
normalize_rate-adds_up input = omega (
  arith,
  tax_lines-bounds (net_of input) input.tax_rules,
  round2-nearest (net_of input * (10000 + total_rate input.tax_rules)),
  mul_rate (net_of input) 10000 (total_rate input.tax_rules),
)
