-- ===== src/Console/Database.antt =====
-- The lazy database client of the main process (apps/console/src/main/db.ts). Loading the workspace
-- package is a parameter: `none` if it loads, or the message of what it raises. The two addresses
-- are those of the process environment; an empty one counts as absent.
use hotelia.Prelude.{
  ap, sym, ◌∙◌, ◌≡◌, ◌≢◌, ◌⊎◌, inl, inr, refl, Bool-cases, Text, codes, [], ◌∷◌, ◌++◌, Option, none,
  some, Bool, true, false, ◌||◌, if◌then◌else◌, is_some,
}
use hotelia.Ipc.Wrap.{Ran, threw}

pub record Db : Type 0 where
  pub hotelia_db_url : Option Text
  pub database_url : Option Text
  pub client : Bool
  pub load_error : Option Text

-- Truth of `process.env.X`
abbrev pub is_set : Option Text → Bool
is_set none = false
is_set (some []) = false
is_set (some (c ∷ t)) = true

-- What `process.loadEnvFile` makes of a candidate: `none` if it raises, or the two variables that
-- the file defines. A variable that is there already, also an empty one, keeps its value.
abbrev EnvFile : Type 0
EnvFile = Option (Option Text × Option Text)

abbrev kept : Option Text → Option Text → Option Text
kept none o = o
kept (some t) o = some t

abbrev with_file : Option Text × Option Text → Db → Db
with_file (h, d) s = record s {
  hotelia_db_url = kept s.hotelia_db_url h;
  database_url = kept s.database_url d;
}

-- `loadDbEnv`: the file in HOTELIA_CONSOLE_ROOT if that is set, then the one of the repository.
unfoldable pub load_db_env : Option EnvFile → EnvFile → Db → Db
load_db_env root repository s =
    if is_set s.hotelia_db_url || is_set s.database_url then s else elim root [
      | some (some f) ↦ with_file f s
      | _ ↦ elim repository [ some f ↦ with_file f s | none ↦ s ]
    ]

-- The message of `DbUnavailableError`
abbrev pub unavailable : Text → Text
unavailable m = codes "DATABASE_UNAVAILABLE: " ++ m

abbrev unset_message : Text
unset_message =
    codes
      "DATABASE_URL is not set — provide HOTELIA_DB_URL / DATABASE_URL, or a root .env (see loadDbEnv)."

-- What `getDb` throws, if it does, and the state after it. The preflight throws inside of the `try`,
-- so its message is kept with the prefix.
abbrev load_client : Option Text → Db → Option Text × Db
load_client (some m) s = (some (unavailable m), record s { load_error = some m })
load_client none s =
    if is_set s.hotelia_db_url || is_set s.database_url
    then (none, record s { client = true })
    else (
      some (unavailable unset_message),
      record s { load_error = some (unavailable unset_message) },
    )

abbrev known_client : Option Text → Bool → Db → Option Text × Db
known_client load true s = (none, s)
known_client load false s = load_client load s

abbrev text_set : Option Text → Option Text
text_set none = none
text_set (some []) = none
text_set (some (c ∷ t)) = some (c ∷ t)

abbrev use_client : Option Text → Option Text → Bool → Db → Option Text × Db
use_client load (some m) c s = (some (unavailable m), s)
use_client load none c s = known_client load c s

-- `getDb`
unfoldable pub get_db : Option Text → Db → Option Text × Db
get_db load s = use_client load (text_set s.load_error) s.client s

-- `isDbAvailable`
unfoldable pub is_db_available : Db → Bool
is_db_available s = if is_some s.load_error then false else true

-- A handler that begins with `getDb`, after what that gives.
abbrev pub behind : {A S : Type 0} → (S → Ran A × S) → S → Option Text × Db → Ran A × S × Db
behind run h (some m, s) = (threw m, h, s)
behind run h (none, s) = ((run h).0, (run h).1, s)

abbrev pub with_db : {A S : Type 0} → Option Text → (S → Ran A × S) → Db → S → Ran A × S × Db
with_db load run s h = behind run h (get_db load s)

-- Before the first use of the database.
abbrev pub IsFresh : Db → Type 0
IsFresh s = (s.client ≡ false) × (s.load_error ≡ none)

-- What the memory keeps of a failure: the error is set, so every later call throws.
abbrev Failed : Option Text × Db → Type 0
Failed (e, s) = (m : Text) × (text_set s.load_error ≡ some m) × (e ≢ none)

load_client-Failed :
    (load : Option Text) (s : Db)
    → load ≢ some []
    → ((load_client load s).0 ≡ none) ⊎ Failed (load_client load s)
load_client-Failed none s n = elim (Bool-cases (is_set s.hotelia_db_url || is_set s.database_url)) [
  | inl h ↦ inl (rw h refl)
  | inr h ↦ inr (rw h (unavailable unset_message, refl, λ x. cc))
]
load_client-Failed (some []) s n = absurd (n refl)
load_client-Failed (some (c ∷ m)) s n = inr (c ∷ m, refl, λ x. cc)

first_use : (load : Option Text) (s : Db) → IsFresh s → get_db load s ≡ load_client load s
unfolding get_db
first_use load s (c, e) =
    ap (λ o. use_client load (text_set o) s.client s) e ∙ ap (λ b. use_client load none b s) c

throws_again :
    (load : Option Text) (s : Db) (m : Text)
    → text_set s.load_error ≡ some m
    → (get_db load s).0 ≢ none
unfolding get_db
throws_again load s m e k = cc (sym (ap (λ o. (use_client load o s.client s).0) e) ∙ k)

-- Once a first `getDb` has thrown, it throws ever after, whatever the variables and the package
-- become, unless what was raised has an empty message.
get_db_stays :
    (load load' : Option Text) (s : Db) (h d : Option Text)
    → IsFresh s
    → load ≢ some []
    → (get_db load s).0 ≢ none
    → (get_db load' (record (get_db load s).1 { hotelia_db_url = h; database_url = d })).0 ≢ none
get_db_stays load load' s h d f n t = elim (load_client-Failed load s n) [
  | inl k ↦ absurd (t (ap (λ p. p.0) (first_use load s f) ∙ k))
  | inr (m, k, l) ↦
      throws_again load' (record (get_db load s).1 { hotelia_db_url = h; database_url = d }) m
        (ap (λ p. text_set p.1.load_error) (first_use load s f) ∙ k)
]
