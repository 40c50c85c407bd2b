-- ===== src/Console/Reconciliation/Manual.antt =====
-- What becomes of a match by hand (apps/console/src/renderer/views/Reconciliation.tsx, with the
-- schema of packages/shared/src/validators/index.ts).
use hotelia.Prelude.{ℕ, ◌≢◌, ◌+◌, ◌≡◌, refl, Text, codes, List, [], ◌∷◌, Option, none, some, false}
use hotelia.Prelude.Table.{find}
use hotelia.Ipc.Wrap.{Issue, invalid, valid, failure_of, wrap_ipc, unwrap}
use hotelia.Payments.Row.{PaymentLedgerRow}
use hotelia.Console.Schema.{optional, not_uuid, ◌<*>◌, uuid_field, field_rejected, Zod}
use hotelia.Console.Inputs.{match_input, parse_match}
use hotelia.Console.Main.{World, Main, handle}
use hotelia.Console.Bridge.{main_bridge}
use hotelia.Console.View.{success, Notice, error, notice, error_text}
use hotelia.Console.Reconciliation.{
  Reconciliation, match_wire, match_intent, click_match, clicked, is_proposal,
}

manual_rejected :
    (z : Zod) (c i : Text)
    → z.uuid (codes "manual") ≡ none
    → (l : List Issue) × (parse_match z (match_wire c i) ≡ invalid l)
unfolding parse_match
manual_rejected z c i h =
    field_rejected
      (valid match_input
        <*> uuid_field z (codes "confirmationId") c
        <*> uuid_field z (codes "intentId") i)
      (record { path = codes "operatorId" ∷ []; message = z.wording not_uuid } ∷ [])
      (rw (optional, uuid_field, h) refl)

-- The view after a match that failed with the error e.
abbrev after_failure : Text → Reconciliation → Reconciliation
after_failure e v = record v {
  busy = false;
  toasts = notice error (codes "Match failed") (error_text e) ∷ v.toasts;
}

match_intent-fails :
    (w : World) (c i : Text) (v : Reconciliation) (m : Main)
    → w.zod.uuid (codes "manual") ≡ none
    → (e : Text) × (match_intent (some (main_bridge w)) c i v m
        ≡ (after_failure e v, record m { calls = m.calls + 1 }))
unfolding match_intent handle wrap_ipc unwrap
match_intent-fails w c i v m h =
    let (l, k) = manual_rejected w.zod c i h in (failure_of l, rw k refl)

-- What a click may change: nothing but the toasts, by one that is no success, the flag `busy`, and
-- the number of calls.
pub record IsFruitless (v : Reconciliation) (m : Main) (r : Reconciliation × Main) : Type 0 where
  pub main : r.1 ≡ record m { calls = r.1.calls }
  pub view : r.0 ≡ record v { busy = r.0.busy; toasts = r.0.toasts }
  pub toast : (t : Notice) × (r.0.toasts ≡ t ∷ v.toasts) × (t.kind ≢ success)

-- If the text manual is no UUID, a click on the button Match never matches anything: it leaves the
-- state of the main process but for the number of calls, and the ledger on display and the forms, as
-- they are, and gives one more toast, which reports no success.
pub click_match_fails :
    (w : World) (print : ℕ → Text) (row : PaymentLedgerRow) (v : Reconciliation) (m : Main)
    → w.zod.uuid (codes "manual") ≡ none
    → IsFruitless v m (click_match (some (main_bridge w)) print row v m)
unfolding click_match match_intent
click_match_fails w print row v m h = by_proposal (find (is_proposal row) v.ledger)
  where
    by_proposal :
        (o : Option PaymentLedgerRow)
        → IsFruitless v m (clicked (some (main_bridge w)) print row v m o)
    by_proposal none = record { main = refl; view = refl; toast = (_, refl, λ x. cc) }
    by_proposal (some r) =
        let (e, k) = match_intent-fails w (print row.id) (print r.id) v m h in
        rw k (record { main = refl; view = refl; toast = (_, refl, λ x. cc) })
