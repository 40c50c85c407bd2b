-- ===== src/Console/Terminal.antt =====
-- The view `Pos` (apps/console/src/renderer/views/Pos.tsx): a charge to a room, posted through the
-- bridge or queued. `parse_number` stands for `Number`, in ten-thousandths with `none` for NaN. The
-- fingerprint, the agent and the time of the audit, and the UUID that serves as key, are arguments.
-- The text of the toast of a posted charge is left out.
pub mod Offline
pub mod Posted
use hotelia.Prelude.{
  ℕ, Text, codes, List, [], ◌∷◌, ◌++◌, Option, none, some, Bool, true, false, ◌&&◌, ◌||◌, not,
  if◌then◌else◌, trim,
}
use hotelia.Prelude.Int.{ℤ}
use hotelia.Offline.Action.{Payload, pos_order}
use hotelia.Payments.Row.{PaymentMethod, cash, mpesa_till, mpesa_paybill, card}
use hotelia.Pms.Barrier.{
  PosVerification, PosChargeResult, VerifyReason, no_active_stay, lastname_mismatch, verified,
}
use hotelia.Console.Schema.{PosVerifyWire, PosChargeWire}
use hotelia.Console.Bridge.{ConsoleBridge}
use hotelia.Console.Store.{ConsoleConfig}
use hotelia.Console.View.{
  success, error, Notice, notice, Task, ◌>>=◌, ◌>>◌, done, set, invoke, try_catch, error_text,
  enqueue_critical,
}

-- What the view takes from the configuration, which is absent until the shell has it.
pub record PosConfig : Type 0 where
  pub property_id : Option Text
  pub db_available : Bool

abbrev pub pos_config : Option ConsoleConfig → PosConfig
pos_config none = record { property_id = none; db_available = false }
pos_config (some c) = record { property_id = c.property_id; db_available = c.db_available }

pub record Terminal : Type 0 where
  pub room : Text
  pub last_name : Text
  pub item : Text
  pub amount : Text
  pub payment_method : PaymentMethod
  pub verification : Option PosVerification
  pub charge : Option PosChargeResult
  pub busy : Bool
  pub toasts : List Notice

pub record Audit : Type 0 where
  pub device_fingerprint : Text
  pub user_agent : Text
  pub ts : Text

abbrev method_name : PaymentMethod → Text
method_name cash = codes "CASH"
method_name mpesa_till = codes "MPESA_TILL"
method_name mpesa_paybill = codes "MPESA_PAYBILL"
method_name card = codes "CARD"

abbrev reason_name : VerifyReason → Text
reason_name no_active_stay = codes "NO_ACTIVE_STAY"
reason_name lastname_mismatch = codes "LASTNAME_MISMATCH"
reason_name verified = codes "VERIFIED"

abbrev pub push : Notice → Terminal → Terminal
push n v = record v { toasts = n ∷ v.toasts }

abbrev pub set_busy : Bool → Terminal → Terminal
set_busy b v = record v { busy = b }

abbrev pub begin : Terminal → Terminal
begin v = record v { busy = true; verification = none; charge = none }

abbrev pub set_verification : PosVerification → Terminal → Terminal
set_verification r v = record v { verification = some r }

abbrev pub set_charge : PosChargeResult → Terminal → Terminal
set_charge r v = record v { charge = some r }

abbrev pub verify_wire : Text → Terminal → PosVerifyWire
verify_wire p v = record { property_id = p; room_number = v.room; last_name = v.last_name }

abbrev pub charge_wire : (Text → Option ℤ) → Text → Terminal → PosChargeWire
charge_wire parse_number p v = record {
  property_id = p;
  room_number = v.room;
  last_name = v.last_name;
  description = v.item ++ codes " (" ++ v.room ++ codes ")";
  amount = parse_number v.amount;
  item_name = some v.item;
  operator_id = none;
}

-- The payload of the queued action
abbrev pub order_payload : Audit → Terminal → Payload
order_payload a v =
    (codes "item", v.item)
    ∷ (codes "amount", v.amount)
    ∷ (codes "paymentMethod", method_name v.payment_method)
    ∷ (codes "folioType", codes "PERSONAL")
    ∷ (codes "roomNumber", v.room)
    ∷ (codes "verifiedBy", codes "GUEST_LASTNAME_ROOM")
    ∷ (codes "lastName", v.last_name)
    ∷ (codes "ipAddress", codes "10.0.0.24")
    ∷ (codes "deviceFingerprint", a.device_fingerprint)
    ∷ (codes "userAgent", a.user_agent)
    ∷ (codes "ts", a.ts)
    ∷ []

abbrev pub refusal : PosVerification → Terminal → Notice
refusal r v = notice error (codes "Verification failed") (
    reason_name r.reason
    ++ codes ": room "
    ++ v.room
    ++ codes " has no verified "
    ++ v.last_name
    ++ codes " stay.")

abbrev pub posted : Notice
posted = record { kind = success; title = codes "Charge posted"; detail = none }

abbrev pub queued : Notice
queued = record { kind = success; title = codes "Queued offline"; detail = none }

module _ {S : Type 0} (bridge : Option (ConsoleBridge S)) where
  abbrev pub post_charge : PosChargeWire → Task Terminal S (Unit {0})
  post_charge wire = do
    res ← invoke bridge (λ b. b.post_charge wire)
    set (set_charge res)
    set (push posted)

  -- Behind the verification
  abbrev pub post_verified :
      (Text → Option ℤ) → Text → Terminal → PosVerification → Task Terminal S (Unit {0})
  post_verified parse_number p form r =
      if r.verified
      then post_charge (charge_wire parse_number p form)
      else set (push (refusal r form))

  abbrev pub post_online : (Text → Option ℤ) → Text → Terminal → Task Terminal S (Unit {0})
  post_online parse_number p form = do
    r ← invoke bridge (λ b. b.verify (verify_wire p form))
    set (set_verification r)
    post_verified parse_number p form r

  abbrev pub queue_order : Audit → Text → Terminal → Task Terminal S (Unit {0})
  queue_order a key form = do
    q ← enqueue_critical bridge pos_order (order_payload a form) key
    set (push queued)

  -- `if (dbAvailable && propertyId)`
  abbrev pub post_or_queue :
      (Text → Option ℤ) → Audit → Text → Terminal → Bool → Option Text → Task Terminal S (Unit {0})
  post_or_queue parse_number a key form true (some (x ∷ p)) = post_online parse_number (x ∷ p) form
  post_or_queue parse_number a key form true (some []) = queue_order a key form
  post_or_queue parse_number a key form true none = queue_order a key form
  post_or_queue parse_number a key form false p = queue_order a key form

  abbrev pub pos_failed : Text → Terminal → Terminal
  pos_failed e = push (notice error (codes "POS error") (error_text e))

  -- By the last name without its spaces
  abbrev pub with_name :
      (Text → Option ℤ) → PosConfig → Audit → Text → Terminal → S → Text → Terminal × S
  with_name parse_number c a key v s [] = (
    push
        (notice error (codes "Room validation required")
          (codes "Enter the guest Last Name (barrier GUEST_LASTNAME_ROOM)."))
        v,
    s,
  )
  with_name parse_number c a key v s (x ∷ t) =
      try_catch (post_or_queue parse_number a key v c.db_available c.property_id) pos_failed
        (set_busy false) (begin v) s

  -- `verifyAndPost`
  unfoldable pub verify_and_post :
      (Text → Option ℤ) → PosConfig → Audit → Text → Terminal → S → Terminal × S
  unfolding trim
  verify_and_post parse_number c a key v s = with_name parse_number c a key v s (trim v.last_name)
