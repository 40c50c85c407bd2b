-- ===== src/Channels/Prices.antt =====
-- What becomes of a quoted price (packages/channels/src with packages/shared/src/tax/index.ts).
use native.Mathlib.Nat.{mul-div-le, lt-mul-div-succ, mul-le-mul_left}
use hotelia.Prelude.{
  ℕ, ◌+◌, ◌*◌, ◌/◌, ◌≤◌, ◌<◌, ◌≡◌, refl, subst, Text, List, [], ◌∷◌, Option, none, some, true,
  false, In, inl, inr, arith, if◌then◌else◌,
}
use hotelia.Tax.Engine.{
  NormalizedRate, Amount, parts, round2, total_rate, net_of, normalize_rate, taxes_to_gross,
}
use hotelia.Channels.Adapter.{
  ChannelPayload, ChannelBooking, Settled, rejected, resolved, ChannelAdapter, vat_profile,
  rate_for, priced, booking_com, expedia, airbnb,
}

abbrev pub Ota : Type 0
Ota = ChannelAdapter ChannelPayload

abbrev pub otas : List Ota
otas = booking_com ∷ expedia ∷ airbnb ∷ []

-- The amount that a channel quotes in its convention.
abbrev pub quoted : Ota → ChannelPayload → Option Amount
quoted a p = if a.tax_profile.quoting_gross then p.gross_amount else p.net_amount

-- The price in the same convention, as it would be quoted again from the stored net amount.
abbrev pub requoted : Ota → NormalizedRate → ℕ
requoted a r =
    if a.tax_profile.quoting_gross
    then (taxes_to_gross r.net_amount a.tax_profile.tax_rules).0
    else r.net_amount

-- A price of so many cents differs from an amount by at most e hundredths of a cent.
abbrev pub IsWithin : ℕ → Amount → ℕ → Type 0
IsWithin e a cents =
    (100 * (parts a * cents) ≤ 100 * a.units + e * parts a)
    × (100 * a.units ≤ 100 * (parts a * cents) + e * parts a)

-- How far a price moves in hundredths of a cent: half a cent, and where it is gross, also the
-- taxed half cent of the net amount.
abbrev pub tolerance : Ota → ℕ
tolerance a = if a.tax_profile.quoting_gross then 105 else 50

-- Without an amount the payload is rejected; with one it is a booking whose price, quoted again, is
-- within the tolerance of the amount.
abbrev pub PriceKept : Ota → Option Amount → Settled ChannelBooking → Type 0
PriceKept a none s = (message : Text) × (s ≡ rejected message)
PriceKept a (some amount) s =
    (b : ChannelBooking) × (s ≡ resolved b) × IsWithin (tolerance a) amount (requoted a b.rate)

twice : (d r : ℕ) → 2 * d * r ≡ 2 * (d * r)
twice d r = grind arith

twice_next : (d r : ℕ) → 2 * d * (r + 1) ≡ 2 * (d * r) + 2 * d
twice_next d r = grind arith

-- `round2` of n / d is at most half a cent off.
round2-half :
    (n d : ℕ) → 0 < d → (2 * (d * round2 n d) ≤ 2 * n + d) × (2 * n ≤ 2 * (d * round2 n d) + d)
unfolding round2
round2-half n d h = omega (
  arith,
  mul-div-le (2 * n + d) (2 * d),
  lt-mul-div-succ (2 * n + d) {b = 2 * d} (omega (arith, h)),
  twice d ((2 * n + d) / (2 * d)),
  twice_next d ((2 * n + d) / (2 * d)),
)

-- A gross amount u / q that is taxed at a tenth: x is its net amount and r the gross amount of x.
there_and_back :
    (u q x r : ℕ)
    → (2 * (q * 11000 * x) ≤ 2 * (u * 10000) + q * 11000)
      × (2 * (u * 10000) ≤ 2 * (q * 11000 * x) + q * 11000)
    → (2 * (10000 * r) ≤ 2 * (x * 11000) + 10000) × (2 * (x * 11000) ≤ 2 * (10000 * r) + 10000)
    → (100 * (q * r) ≤ 100 * u + 105 * q) × (100 * u ≤ 100 * (q * r) + 105 * q)
there_and_back u q x r a b =
    let low = mul-le-mul_left q b.0 in
    let high = mul-le-mul_left q b.1 in
    let c : q * 11000 * x ≡ 11000 * (q * x) = grind arith in
    let d : q * (2 * (10000 * r)) ≡ 20000 * (q * r) = grind arith in
    let e : q * (2 * (10000 * r) + 10000) ≡ 20000 * (q * r) + 10000 * q = grind arith in
    let f : q * (2 * (x * 11000)) ≡ 22000 * (q * x) = grind arith in
    let g : q * (2 * (x * 11000) + 10000) ≡ 22000 * (q * x) + 10000 * q = grind arith in
    omega (arith, low, high, a, c, d, e, f, g)

round2-whole : (n : ℕ) → round2 n 1 ≡ n
unfolding round2
round2-whole n = omega arith

gross-IsWithin :
    (a : Amount)
    → IsWithin 105 a (requoted booking_com (rate_for true (vat_profile true).tax_rules a))
unfolding booking_com taxes_to_gross normalize_rate net_of total_rate
gross-IsWithin a =
    let n = a.units * 10000 in
    let d = parts a * 11000 in
    let x = round2 n d in
    rw (round2-whole x) (
      there_and_back a.units (parts a) x (round2 (x * 11000) 10000) (round2-half n d (omega arith))
        (round2-half (x * 11000) 10000 (omega arith)))

net-IsWithin : (a : Amount) → IsWithin 50 a (round2 a.units (parts a))
net-IsWithin a = omega (arith, round2-half a.units (parts a) (omega arith))

booking_com-PriceKept :
    (message confirmation : Text) (p : ChannelPayload) (o : Option Amount)
    → PriceKept booking_com o (priced message confirmation true (vat_profile true).tax_rules o p)
unfolding booking_com
booking_com-PriceKept message confirmation p none = (message, refl)
booking_com-PriceKept message confirmation p (some amount) = (_, refl, gross-IsWithin amount)

-- A channel that quotes net amounts.
net-PriceKept :
    (a : Ota) (message confirmation : Text) (p : ChannelPayload) (o : Option Amount)
    → a.tax_profile.quoting_gross ≡ false
    → PriceKept a o (priced message confirmation false a.tax_profile.tax_rules o p)
unfolding normalize_rate net_of
net-PriceKept a message confirmation p none e = (message, refl)
net-PriceKept a message confirmation p (some amount) e = (_, refl, rw e (net-IsWithin amount))

-- Each of the three channels rejects a payload without the amount of its convention, gross for
-- Booking.com and net for the others, and of any other whose amount is not negative, fractions of a
-- cent included, it makes a booking whose price, quoted again from the stored net amount, is off the
-- amount that came by at most half a cent where it is net, and by at most 1.05 cents where it is
-- gross.
pub ota-PriceKept :
    (a : Ota) (fresh : Text) (p : ChannelPayload)
    → In a otas
    → PriceKept a (quoted a p) (a.receive_booking fresh p)
unfolding booking_com expedia airbnb
ota-PriceKept a fresh p (inl e) =
    subst (λ a. PriceKept a (quoted a p) (a.receive_booking fresh p)) e
      (booking_com-PriceKept _ _ p p.gross_amount)
ota-PriceKept a fresh p (inr (inl e)) =
    subst (λ a. PriceKept a (quoted a p) (a.receive_booking fresh p)) e
      (net-PriceKept expedia _ _ p p.net_amount refl)
ota-PriceKept a fresh p (inr (inr (inl e))) =
    subst (λ a. PriceKept a (quoted a p) (a.receive_booking fresh p)) e
      (net-PriceKept airbnb _ _ p p.net_amount refl)
ota-PriceKept a fresh p (inr (inr (inr m))) = absurd m
