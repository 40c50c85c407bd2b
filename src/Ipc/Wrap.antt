-- ===== src/Ipc/Wrap.antt =====
-- The envelope of a call (apps/console/src/main/ipcWrap.ts) and its reading by the renderer
-- (`unwrap` of apps/console/src/renderer/offline/sync-client.ts). The schema is a parameter, and so
-- is the handler, which may change a state. A handler that returns no value gives `none`.
use hotelia.Prelude.{
  ◌≡◌, refl, ap, Text, codes, List, [], ◌∷◌, ◌++◌, Option, none, some, Bool, true, false, map, take,
  or_else,
}

pub record CommandResult (A : Type 0) : Type 0 where
  pub success : Bool
  pub payload : Option A
  pub error : Option Text

abbrev pub ok : {A : Type 0} → Option A → CommandResult A
ok a = record { success = true; payload = a; error = none }

abbrev pub fail : {A : Type 0} → Text → CommandResult A
fail e = record { success = false; payload = none; error = some e }

pub record Issue : Type 0 where
  pub path : List Text
  pub message : Text

-- `schema.safeParse`
pub data Parsed (I : Type 0) : Type 0 where
  invalid : List Issue → Parsed I
  valid : I → Parsed I

-- How a handler ends; an error that is no `Error` comes with its text.
pub data Ran (A : Type 0) : Type 0 where
  threw : Text → Ran A
  returned : Option A → Ran A

abbrev join_with : Text → List Text → Text
join_with s [] = []
join_with s (t ∷ []) = t
join_with s (t ∷ u ∷ l) = t ++ s ++ join_with s (u ∷ l)

-- `a || b`
abbrev text_or : Text → Text → Text
text_or [] b = b
text_or (c ∷ s) b = c ∷ s

abbrev issue_text : Issue → Text
issue_text i = text_or (join_with (codes ".") i.path) (codes "(root)") ++ codes ": " ++ i.message

unfoldable pub failure_of : List Issue → Text
failure_of l =
    codes "VALIDATION_FAILED: "
    ++ text_or (join_with (codes "; ") (map issue_text (take 3 l))) (codes "malformed payload")

abbrev pub answer_of : {A : Type 0} → Ran A → CommandResult A
answer_of (threw e) = fail (text_or e (codes "UNKNOWN_HANDLER_ERROR"))
answer_of (returned a) = ok a

abbrev pub wrapped : {I A S : Type 0} → (I → S → Ran A × S) → S → Parsed I → CommandResult A × S
wrapped run s (invalid l) = (fail (failure_of l), s)
wrapped run s (valid i) = (answer_of (run i s).0, (run i s).1)

-- `wrapIpc`: the envelope, and the state after the call.
unfoldable pub wrap_ipc :
    {R I A S : Type 0} → (R → Parsed I) → (I → S → Ran A × S) → R → S → CommandResult A × S
wrap_ipc parse run raw s = wrapped run s (parse raw)

abbrev when_ready : {A : Type 0} → Bool → Option A → Text → Ran A
when_ready true (some a) e = returned (some a)
when_ready _ _ e = threw e

-- `unwrap`
unfoldable pub unwrap : {A : Type 0} → CommandResult A → Ran A
unwrap r = when_ready r.success r.payload (or_else r.error (codes "IPC call failed"))

-- What a call should give: the value that the handler returned, or the reason why there is none.
abbrev delivered : {A : Type 0} → Ran A → Ran A
delivered (threw e) = threw (text_or e (codes "UNKNOWN_HANDLER_ERROR"))
delivered (returned none) = threw (codes "IPC call failed")
delivered (returned (some a)) = returned (some a)

unwrap-answer_of : {A : Type 0} (r : Ran A) → unwrap (answer_of r) ≡ delivered r
unfolding unwrap
unwrap-answer_of (threw e) = refl
unwrap-answer_of (returned none) = refl
unwrap-answer_of (returned (some a)) = refl

-- A call without the envelope: an invalid payload reaches no handler and changes nothing.
abbrev call : {I A S : Type 0} → (I → S → Ran A × S) → S → Parsed I → Ran A × S
call run s (invalid l) = (threw (failure_of l), s)
call run s (valid i) = (delivered (run i s).0, (run i s).1)

unwrap-wrapped :
    {I A S : Type 0} (run : I → S → Ran A × S) (s : S) (p : Parsed I)
    → (unwrap (wrapped run s p).0, (wrapped run s p).1) ≡ call run s p
unfolding unwrap
unwrap-wrapped run s (invalid l) = refl
unwrap-wrapped run s (valid i) = ap (λ r. (r, (run i s).1)) (unwrap-answer_of (run i s).0)

-- Through the envelope the renderer gets the value that the handler returned for a valid payload,
-- or an error; an invalid payload reaches no handler and changes nothing, and a handler that
-- returns no value is read as an error.
unwrap-wrap_ipc :
    {R I A S : Type 0} (parse : R → Parsed I) (run : I → S → Ran A × S) (raw : R) (s : S)
    → (unwrap (wrap_ipc parse run raw s).0, (wrap_ipc parse run raw s).1) ≡ call run s (parse raw)
unfolding wrap_ipc
unwrap-wrap_ipc parse run raw s = unwrap-wrapped run s (parse raw)
