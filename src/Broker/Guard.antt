-- ===== src/Broker/Guard.antt =====
-- Who may speak to the broker: the CORS allow-list, the bearer token and the file that keeps it
-- (apps/console/src/main/server.ts). `digest` stands for SHA-256.
use hotelia.Prelude.{
  ◌≡◌, ◌≢◌, ◌↔◌, refl, Text, codes, List, [], ◌∷◌, Option, none, some, Bool, true, false, ◌&&◌, not,
  inl, inr, arith, if◌then◌else◌, same_text, starts_with, trim, or_else, Bool-cases, same_text_iff,
}
use hotelia.Events.Registry.{includes}

abbrev pub allowed_origins : List Text
allowed_origins =
    codes "http://localhost:3000"
    ∷ codes "http://localhost:3001"
    ∷ codes "http://localhost:3002"
    ∷ codes "http://localhost:3010"
    ∷ codes "http://127.0.0.1:3001"
    ∷ codes "http://127.0.0.1:3002"
    ∷ codes "http://127.0.0.1:3010"
    ∷ codes "http://[::1]:3001"
    ∷ codes "http://[::1]:3002"
    ∷ []

abbrev pub is_empty : Text → Bool
is_empty [] = true
is_empty (c ∷ s) = false

pub is_empty_iff : (t : Text) → (is_empty t ≡ true) ↔ (t ≡ [])
is_empty_iff [] = ground arith
is_empty_iff (c ∷ s) = ground arith

not_empty_of : (t : Text) → t ≢ [] → is_empty t ≡ false
not_empty_of t n = ground (arith, n, is_empty_iff t)

-- The origin that `Access-Control-Allow-Origin` names, if the header is set.
abbrev pub allow_origin : Option Text → Option Text
allow_origin none = none
allow_origin (some o) = if not (is_empty o) && includes o allowed_origins then some o else none

-- What the middleware does with a request: it answers a preflight, and passes on all else.
pub data Cors : Type 0 where
  preflight next : Option Text → Cors

unfoldable pub cors_allowlist : Text → Option Text → Cors
unfolding includes
cors_allowlist method origin =
    if same_text method (codes "OPTIONS")
    then preflight (allow_origin origin)
    else next (allow_origin origin)

-- `header.slice(7)`
abbrev pub drop_seven : Text → Text
drop_seven (a ∷ b ∷ c ∷ d ∷ e ∷ f ∷ g ∷ s) = s
drop_seven _ = []

abbrev pub header_token : Option Text → Text
header_token none = []
header_token (some h) = if starts_with (codes "Bearer ") h then drop_seven h else []

-- `headerToken || queryToken`
unfoldable pub provided : Option Text → Option Text → Text
unfolding starts_with
provided authorization query =
    let t = header_token authorization in if is_empty t then or_else query [] else t

-- `requireToken`: true where the request is passed on.
unfoldable pub require_token : (Text → Text) → Text → Option Text → Option Text → Bool
unfolding provided
require_token digest token authorization query =
    let t = provided authorization query in not (is_empty t) && same_text (digest t) (digest token)

-- A text that the file has, after `trim`; no file gives the empty text.
abbrev read_token : Option Text → Text
read_token none = []
read_token (some t) = trim t

-- `getServerToken`: the token and the file afterwards.
unfoldable pub get_server_token : Text → Option Text → Text × Option Text
get_server_token fresh file =
    if is_empty (read_token file) then (fresh, some fresh) else (read_token file, file)

-- With no collision of digests, a request is passed on exactly if it provides a text that is not
-- empty and is the token.
require_token_iff :
    (digest : Text → Text) (token : Text) (authorization query : Option Text)
    → ((t : Text) → digest t ≡ digest token → t ≡ token)
    → (require_token digest token authorization query ≡ true)
      ↔ ((provided authorization query ≡ token) × (token ≢ []))
unfolding require_token
require_token_iff digest token authorization query inj = ground (
  arith,
  inj (provided authorization query),
  is_empty_iff (provided authorization query),
  same_text_iff (digest (provided authorization query)) (digest token),
)

-- A token that was generated is what every later call gives, if it is not empty and has no white
-- space at its ends.
get_server_token_again :
    (fresh later : Text) (file : Option Text)
    → trim fresh ≡ fresh
    → fresh ≢ []
    → (get_server_token later (get_server_token fresh file).1).0 ≡ (get_server_token fresh file).0
unfolding get_server_token
get_server_token_again fresh later file e n = elim (Bool-cases (is_empty (read_token file))) [
  | inl a ↦ rw a (rw e (rw (not_empty_of fresh n) refl))
  | inr a ↦ rw a (rw a refl)
]
