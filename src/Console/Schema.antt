-- ===== src/Console/Schema.antt =====
-- The schemas of the IPC calls (packages/shared/src/validators/index.ts) on the inputs that the
-- renderer sends (apps/console/src/renderer/types.ts). zod is a parameter: which texts are UUIDs,
-- and its wording of the issues. On the wire an identifier is a text and an amount any number, with
-- `none` for NaN, counted in ten-thousandths. The length of a text is that of its code points.
use hotelia.Prelude.{
  refl, ℕ, ◌≡◌, Text, List, [], ◌∷◌, ◌++◌, Option, none, some, Bool, true, false, ◌&&◌, ◌||◌, leb,
  ltb, ◌==◌, if◌then◌else◌, length,
}
use hotelia.Prelude.Int.{ℤ, pos, negsuc}
use hotelia.Ipc.Wrap.{Issue, Parsed, invalid, valid}
use hotelia.Payments.Row.{PaymentMethod}

-- Which check of zod an input fails.
pub data Rule : Type 0 where
  too_small too_big wrong_length : ℕ → Rule
  not_uuid no_match not_a_number not_positive : Rule

pub record Zod : Type 0 where
  pub uuid : Text → Option ℕ
  pub wording : Rule → Text

pub record PaymentRecordWire : Type 0 where
  pub method : PaymentMethod
  pub amount : Option ℤ
  pub currency : Text
  pub guest_name : Text
  pub room_number : Text
  pub reference : Option Text
  pub folio_id : Option Text
  pub reservation_id : Option Text
  pub idempotency_key : Text
  pub operator_id : Option Text

pub record PaymentConfirmationWire : Type 0 where
  pub receipt : Text
  pub amount : Option ℤ
  pub currency : Text
  pub method : PaymentMethod
  pub reference : Option Text
  pub phone_tail : Option Text
  pub idempotency_key : Text

pub record PaymentMatchWire : Type 0 where
  pub confirmation_id : Text
  pub intent_id : Text
  pub operator_id : Option Text

pub record PaymentMatchInput : Type 0 where
  pub confirmation_id : ℕ
  pub intent_id : ℕ
  pub operator_id : Option ℕ

pub record PosVerifyWire : Type 0 where
  pub property_id : Text
  pub room_number : Text
  pub last_name : Text

pub record PosChargeWire : Type 0 where
  pub property_id : Text
  pub room_number : Text
  pub last_name : Text
  pub description : Text
  pub amount : Option ℤ
  pub item_name : Option Text
  pub operator_id : Option Text

-- The fields of an object are parsed one after the other, and their issues are collected.
infixl 5 ◌<*>◌
abbrev pub ◌<*>◌ : {A B : Type 0} → Parsed (A → B) → Parsed A → Parsed B
valid f <*> valid a = valid (f a)
valid f <*> invalid l = invalid l
invalid l <*> valid a = invalid l
invalid l <*> invalid m = invalid (l ++ m)

abbrev issue_if : Bool → Text → Text → List Issue
issue_if true field message = record { path = field ∷ []; message = message } ∷ []
issue_if false field message = []

abbrev accept : {A : Type 0} → List Issue → A → Parsed A
accept [] a = valid a
accept (i ∷ l) a = invalid (i ∷ l)

-- `.optional()`
abbrev pub optional : {A B : Type 0} → (A → Parsed B) → Option A → Parsed (Option B)
optional parse none = valid none
optional parse (some a) = elim (parse a) [ invalid l ↦ invalid l | valid b ↦ valid (some b) ]

abbrev pub is_alnum : ℕ → Bool
is_alnum c = leb b'a' c && leb c b'z' || leb b'A' c && leb c b'Z' || leb b'0' c && leb c b'9'

all_codes : (ℕ → Bool) → Text → Bool
all_codes p [] = true
all_codes p (c ∷ t) = p c && all_codes p t

abbrev pub is_dashed : ℕ → Bool
is_dashed c = is_alnum c || c == b'-'

-- `^[...]+$` with the characters of `p`
unfoldable pub matches : (ℕ → Bool) → Text → Bool
unfolding all_codes
matches p [] = false
matches p (c ∷ t) = all_codes p (c ∷ t)

module _ (z : Zod) where
  -- `z.string().uuid()`
  abbrev pub uuid_field : Text → Text → Parsed ℕ
  uuid_field field t = elim (z.uuid t) [
    | none ↦ invalid (record { path = field ∷ []; message = z.wording not_uuid } ∷ [])
    | some i ↦ valid i
  ]

  -- `.min(lo).max(hi)`
  abbrev range_issues : Text → ℕ → ℕ → Text → List Issue
  range_issues field lo hi t =
      issue_if (ltb (length t) lo) field (z.wording (too_small lo))
      ++ issue_if (ltb hi (length t)) field (z.wording (too_big hi))

  abbrev pub text_field : Text → ℕ → ℕ → Text → Parsed Text
  text_field field lo hi t = accept (range_issues field lo hi t) t

  -- `.min(lo)`
  abbrev pub least_field : Text → ℕ → Text → Parsed Text
  least_field field lo t = accept (issue_if (ltb (length t) lo) field (z.wording (too_small lo))) t

  -- `.regex(...)`, the last of the checks
  abbrev pub matching_field : Text → ℕ → ℕ → (ℕ → Bool) → Text → Parsed Text
  matching_field field lo hi p t =
      accept
        (range_issues field lo hi t
          ++ issue_if (if matches p t then false else true) field (z.wording no_match))
        t

  -- `z.string().length(n)`
  abbrev pub exact_field : Text → ℕ → Text → Parsed Text
  exact_field field n t =
      accept (issue_if (if length t == n then false else true) field (z.wording (wrong_length n))) t

  -- `z.number().positive().max(hi)`
  abbrev pub amount_field : Text → ℕ → Option ℤ → Parsed ℕ
  amount_field field hi none =
      invalid (record { path = field ∷ []; message = z.wording not_a_number } ∷ [])
  amount_field field hi (some (negsuc n)) =
      invalid (record { path = field ∷ []; message = z.wording not_positive } ∷ [])
  amount_field field hi (some (pos n)) =
      accept
        (issue_if (n == 0) field (z.wording not_positive)
          ++ issue_if (ltb hi n) field (z.wording (too_big hi)))
        n

-- One field with an issue makes the whole object invalid.
pub field_rejected :
    {A B : Type 0} (p : Parsed (A → B)) {q : Parsed A} (k : List Issue)
    → q ≡ invalid k
    → (l : List Issue) × ((p <*> q) ≡ invalid l)
field_rejected (valid f) k e = (k, rw e refl)
field_rejected (invalid l) k e = (l ++ k, rw e refl)

pub rest_rejected :
    {A B : Type 0} {p : Parsed (A → B)} (q : Parsed A)
    → (l : List Issue) × (p ≡ invalid l)
    → (l : List Issue) × ((p <*> q) ≡ invalid l)
rest_rejected (valid a) (l, e) = (l, rw e refl)
rest_rejected (invalid k) (l, e) = (l ++ k, rw e refl)
