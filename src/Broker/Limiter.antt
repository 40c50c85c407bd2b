-- ===== src/Broker/Limiter.antt =====
-- The rate limiter of `POST /packet` (`RateLimiter` of apps/console/src/main/server.ts). Tokens are
-- counted in thousandths, which are exact for a clock in milliseconds.
use hotelia.Prelude.{
  ℕ, ◌*◌, Text, List, [], ◌∷◌, Option, none, some, Bool, true, false, ltb, if◌then◌else◌, same_text,
  length, or_else,
}
use hotelia.Prelude.Int.{ℤ, pos, ◌+ℤ◌, ◌-ℤ◌, ltb_ℤ}

pub record Bucket : Type 0 where
  pub tokens : ℤ
  pub last_refill : ℕ

abbrev pub Buckets : Type 0
Buckets = List (Text × Bucket)

abbrev pub rps : ℕ
rps = 8

abbrev min_ℤ : ℤ → ℤ → ℤ
min_ℤ a b = if ltb_ℤ b a then b else a

-- The tokens of a bucket at the time `now`.
unfoldable pub refilled : ℕ → Bucket → ℤ
refilled now b = min_ℤ (pos (1000 * rps)) (b.tokens +ℤ pos (rps * now) -ℤ pos (rps * b.last_refill))

unfoldable pub find_bucket : Text → Buckets → Option Bucket
find_bucket ip [] = none
find_bucket ip ((i, b) ∷ l) = if same_text i ip then some b else find_bucket ip l

unfoldable pub set_bucket : Text → Bucket → Buckets → Buckets
set_bucket ip b [] = (ip, b) ∷ []
set_bucket ip b ((i, c) ∷ l) = if same_text i ip then (i, b) ∷ l else (i, c) ∷ set_bucket ip b l

abbrev pub new_bucket : ℕ → Bucket
new_bucket now = record { tokens = pos (1000 * rps); last_refill = now }

abbrev pub take_token : ℤ → ℕ → Bucket
take_token n now = record { tokens = n -ℤ pos 1000; last_refill = now }

-- `if (this.buckets.size > 2000) this.buckets.clear()`
abbrev cleared : Buckets → Buckets
cleared l = if ltb 2000 (length l) then [] else l

unfoldable pub allows : Text → ℕ → Buckets → Bool × Buckets
unfolding refilled find_bucket set_bucket
allows ip now l =
    let n = refilled now (or_else (find_bucket ip l) (new_bucket now)) in
    if ltb_ℤ n (pos 1000)
    then (false, set_bucket ip (record { tokens = n; last_refill = now }) l)
    else (true, cleared (set_bucket ip (take_token n now) l))
