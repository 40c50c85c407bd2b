-- ===== src/Broker/Rate.antt =====
-- How many requests of one address the limiter lets pass (`RateLimiter` of
-- apps/console/src/main/server.ts).
use hotelia.Prelude.{
  ℕ, suc, ◌+◌, ◌*◌, ◌-◌, ◌≤◌, ◌≡◌, refl, ap, Text, List, [], ◌∷◌, Bool, true, false, arith, ltb,
  if◌then◌else◌, same_text, same_text_iff,
}
use hotelia.Prelude.Int.{pos, ◌+ℤ◌, ◌-ℤ◌, ltb_ℤ}
use hotelia.Broker.Limiter.{Bucket, Buckets, refilled, find_bucket, set_bucket, take_token, allows}

-- The number of requests that pass, of those that one address sends at these times.
unfoldable pub passed : Text → List ℕ → Buckets → ℕ
passed ip [] l = 0
passed ip (t ∷ ts) l =
    let (ok, l') = allows ip t l in let rest = passed ip ts l' in if ok then suc rest else rest

-- The times are in order, between the two.
abbrev pub IsOrdered : ℕ → ℕ → List ℕ → Type 0
IsOrdered u v [] = u ≤ v
IsOrdered u v (t ∷ ts) = (u ≤ t) × IsOrdered t v ts

abbrev bucket : ℕ → ℕ → Bucket
bucket n u = record { tokens = pos n; last_refill = u }

-- The tokens after the time from `u` to `t`, up to the burst.
abbrev grown : ℕ → ℕ → ℕ → ℕ
grown n u t = if ltb 8000 (n + 8 * t - 8 * u) then 8000 else n + 8 * t - 8 * u

refilled-grown : (n u t : ℕ) → u ≤ t → refilled t (bucket n u) ≡ pos (grown n u t)
unfolding refilled ◌+ℤ◌ ◌-ℤ◌
refilled-grown n u t o = ground (arith, o)

same_text_refl : (s : Text) → same_text s s ≡ true
same_text_refl s = (same_text_iff s s).1 refl

minus_thousand : (n : ℕ) → ltb n 1000 ≡ false → pos n -ℤ pos 1000 ≡ pos (n - 1000)
unfolding ◌-ℤ◌
minus_thousand n h = ground (arith, h)

abbrev answer_of : Text → ℕ → ℕ → Bool × Buckets
answer_of ip g t =
    if ltb g 1000 then (false, (ip, bucket g t) ∷ []) else (true, (ip, bucket (g - 1000) t) ∷ [])

abbrev answer_at : Text → ℕ → ℕ → Bool × Buckets
answer_at ip g t =
    if ltb_ℤ (pos g) (pos 1000)
    then (false, (ip, bucket g t) ∷ [])
    else (true, (ip, take_token (pos g) t) ∷ [])

served : (ip : Text) (g t : ℕ) → answer_at ip g t ≡ answer_of ip g t
served ip g t = ground (arith, minus_thousand g)

allows-bucket :
    (ip : Text) (n u t : ℕ)
    → u ≤ t
    → allows ip t ((ip, bucket n u) ∷ []) ≡ answer_of ip (grown n u t) t
unfolding allows find_bucket set_bucket
allows-bucket ip n u t o =
    rw (same_text_refl ip) (rw (refilled-grown n u t o) (served ip (grown n u t) t))

passed-bound :
    (ip : Text) (n u v : ℕ) (ts : List ℕ)
    → IsOrdered u v ts
    → 1000 * passed ip ts ((ip, bucket n u) ∷ []) + 8 * u ≤ n + 8 * v
unfolding passed
passed-bound ip n u v [] s = omega (arith, s)
passed-bound ip n u v (t ∷ ts) s = ground (
  arith,
  s,
  allows-bucket ip n u t s.0,
  passed-bound ip (grown n u t) t v ts s.1,
  passed-bound ip (grown n u t - 1000) t v ts s.1,
)

allows-new : (ip : Text) (t : ℕ) → allows ip t [] ≡ allows ip t ((ip, bucket 8000 t) ∷ [])
unfolding allows find_bucket set_bucket
allows-new ip t = rw (same_text_refl ip) refl

passed-new :
    (ip : Text) (t : ℕ) (ts : List ℕ)
    → passed ip (t ∷ ts) [] ≡ passed ip (t ∷ ts) ((ip, bucket 8000 t) ∷ [])
unfolding passed
passed-new ip t ts =
    ap (λ r. if r.0 then suc (passed ip ts r.1) else passed ip ts r.1) (allows-new ip t)

-- Of the requests that one address sends at times in order from `u` to `v`, in milliseconds, at
-- most 8, and 8 more for each second, pass a limiter that has no bucket.
pub passed_within_rate :
    (ip : Text) (u v : ℕ) (ts : List ℕ)
    → IsOrdered u v ts
    → 1000 * passed ip ts [] ≤ 8000 + 8 * (v - u)
unfolding passed
passed_within_rate ip u v [] s = omega (arith, s)
passed_within_rate ip u v (t ∷ ts) s =
    rw (passed-new ip t ts) (omega (arith, s, passed-bound ip 8000 t v (t ∷ ts) (omega arith, s.1)))
