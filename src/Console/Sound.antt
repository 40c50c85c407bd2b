-- ===== src/Console/Sound.antt =====
-- What every call of the bridge keeps (apps/console/src/main/index.ts): the queue, the payment
-- ledger and the books stay well formed.
use hotelia.Prelude.{ℕ, or_else, ◌≡◌, refl, inl, inr, Bool-cases, Text, Option, none, some}
use hotelia.Prelude.Int.{pos}
use hotelia.Prelude.Table.{find}
use hotelia.Ipc.Wrap.{Parsed, invalid, valid, Ran, wrap_ipc, wrapped}
use hotelia.Offline.Store.{Actions}
use hotelia.Offline.Store.Reach.{IsSound, Step-IsSound, inserts}
use hotelia.Offline.Sync.{enqueue, emit_changed}
use hotelia.Hardware.Channel.{EncodeRequest, EncodeResult}
use hotelia.Hardware.Bridge.{
  Bridge, Wire, LockDevice, encode, encode_device, is_device, has_adapter, lock_input, persist_in,
}
use hotelia.Hardware.Bridge.Encode.{Outcome, live, queued, encode_on-Outcome}
use hotelia.Payments.Insert.{IsKeyed}
use hotelia.Payments.Reach.{Step-IsKeyed, intents, confirms, matches}
use hotelia.Folios.Balance.{IsBalanced, owed}
use hotelia.Pms.Row.{Hotel}
use hotelia.Pms.Barrier.{PosChargeInput, PosOutcome, barred, charged}
use hotelia.Pms.Charge.{pos_post_charge}
use hotelia.Pms.Effects.{post_charge-IsBalanced}
use hotelia.Console.Database.{Db, get_db, behind}
use hotelia.Console.Main.{
  World, Main, Call, sync_enqueue, sync_status, sync_recent, lock_list, lock_encode, lock_link,
  pms_board, housekeeping, pos_verify, pos_charge, conf_get, payments_intent, payments_confirmation,
  payments_match, payments_list, payments_summary, lent, on_hotel, charge_answer, no_args,
  board_query, tasks_query, verify_query, charge_query, run_enqueue, run_encode, run_link,
  run_board, run_tasks, run_verify, run_charge, run_intent, run_confirmation, run_match, served,
  handle,
}

pub record IsWell (m : Main) : Type 0 where
  pub actions : IsSound m.engine.actions
  pub ledger : IsKeyed m.ledger
  pub books : IsBalanced m.hotel.books

-- The identifier for a new folio stands in no item and in no transfer.
abbrev pub FreshFolio : World → Main → Type 0
FreshFolio w m = owed (w.fresh_folio m.calls) m.hotel.books ≡ pos 0

-- The envelope keeps what the handler keeps.
wrap_ipc-keeps :
    {R I A S : Type 0} (P : S → Type 0) (parse : R → Parsed I) (run : I → S → Ran A × S) (raw : R)
    (s : S)
    → ((i : I) → P (run i s).1)
    → P s
    → P (wrap_ipc parse run raw s).1
unfolding wrap_ipc
wrap_ipc-keeps {I = I} P parse run raw s keep p = by_parse (parse raw)
  where
    by_parse : (q : Parsed I) → P (wrapped run s q).1
    by_parse (invalid l) = p
    by_parse (valid i) = keep i

abbrev IsStored : Option Actions → Type 0
IsStored none = Unit
IsStored (some t) = IsSound t

persist_in-IsStored :
    (i : ℕ) (req : EncodeRequest) (now : ℕ) (o : Option Actions)
    → IsStored o
    → IsStored (persist_in i req now o).1
persist_in-IsStored i req now none s = tt
persist_in-IsStored i req now (some t) s = Step-IsSound (inserts i (lock_input req) now) s

encode_device-IsStored :
    (w : Wire) (req : EncodeRequest) (s : Bridge) (o : Option LockDevice)
    → IsStored s.store
    → IsStored (encode_device w req s o).1.store
encode_device-IsStored w req s none h = h
encode_device-IsStored w req s (some d) h = elim (Bool-cases (has_adapter d.channel s)) [
  | inl e ↦ rw e (by_outcome (encode_on-Outcome w d.channel req s))
  | inr e ↦ rw e h
]
  where
    by_outcome :
        {r : EncodeResult × Bridge}
        → Outcome (λ now. persist_in (w.fresh_id s.attempts) req now s.store) s r
        → IsStored r.1.store
    by_outcome (live r s' e f) = rw f h
    by_outcome (queued now r s' e f g) =
        rw g (persist_in-IsStored (w.fresh_id s.attempts) req now s.store h)

or_else-IsSound :
    (o : Option Actions) (t : Actions) → IsStored o → IsSound t → IsSound (or_else o t)
or_else-IsSound none t s h = h
or_else-IsSound (some u) t s h = s

encode-IsSound :
    (w : World) (req : EncodeRequest) (m : Main)
    → IsSound m.engine.actions
    → IsSound (run_encode w req m).1.engine.actions
unfolding encode
encode-IsSound w req m h =
    or_else-IsSound (encode w.wire req (lent m)).1.store m.engine.actions
      (encode_device-IsStored w.wire req (lent m) (find (is_device req.device_id) m.locks.devices)
        h)
      h

behind-IsBalanced :
    {A : Type 0} (run : Hotel → Ran A × Hotel) (h : Hotel) (p : Option Text × Db)
    → IsBalanced h.books
    → IsBalanced (run h).1.books
    → IsBalanced (behind run h p).1.books
behind-IsBalanced run h (some m, s) same changed = same
behind-IsBalanced run h (none, s) same changed = changed

charge-IsBalanced :
    (w : World) (i : PosChargeInput) (m : Main)
    → FreshFolio w m
    → IsBalanced m.hotel.books
    → IsBalanced (charge_query w m.calls i m.hotel).1.books
charge-IsBalanced w i m f b =
    by_outcome
      (pos_post_charge w.lower (w.fresh m.calls) (w.fresh_folio m.calls) (w.today m.calls) i
        m.hotel)
      refl
  where
    by_outcome :
        (o : PosOutcome)
        → pos_post_charge w.lower
            (w.fresh m.calls)
            (w.fresh_folio m.calls)
            (w.today m.calls)
            i
            m.hotel
          ≡ o
        → IsBalanced (charge_answer i m.hotel o).1.books
    by_outcome (barred x) e = b
    by_outcome (charged r h) e =
        post_charge-IsBalanced w.lower (w.fresh m.calls) (w.fresh_folio m.calls) (w.today m.calls) i
          m.hotel h r e f b

module _ (w : World) (m : Main) (f : FreshFolio w m) (g : IsWell m) where
  hotel-IsWell :
      {A : Type 0} (run : Hotel → Ran A × Hotel)
      → IsBalanced (run m.hotel).1.books
      → IsWell (on_hotel w run m).1
  hotel-IsWell run changed = record {
    actions = g.actions;
    ledger = g.ledger;
    books = behind-IsBalanced run m.hotel (get_db w.load m.db) g.books changed;
  }

  served-IsWell : (c : Call) → IsWell (served w c m).1
  unfolding enqueue emit_changed
  served-IsWell (sync_enqueue i) =
      wrap_ipc-keeps IsWell _ (run_enqueue w) i m
        (λ j. record {
          actions = Step-IsSound (inserts (w.fresh m.calls) j (w.now m.calls)) g.actions;
          ledger = g.ledger;
          books = g.books;
        })
        g
  served-IsWell (lock_encode i) =
      wrap_ipc-keeps IsWell _ (run_encode w) i m
        (λ j. record {
          actions = encode-IsSound w j m g.actions;
          ledger = g.ledger;
          books = g.books;
        })
        g
  served-IsWell (lock_link i) =
      wrap_ipc-keeps IsWell _ (run_link w) i m
        (λ e. record { actions = g.actions; ledger = g.ledger; books = g.books }) g
  served-IsWell (pms_board p) =
      wrap_ipc-keeps IsWell _ (run_board w) p m
        (λ q. hotel-IsWell (board_query w m.calls q) g.books) g
  served-IsWell (housekeeping p) =
      wrap_ipc-keeps IsWell _ (run_tasks w) p m
        (λ q. hotel-IsWell (tasks_query w m.calls q) g.books) g
  served-IsWell (pos_verify i) =
      wrap_ipc-keeps IsWell _ (run_verify w) i m (λ q. hotel-IsWell (verify_query w q) g.books) g
  served-IsWell (pos_charge i) =
      wrap_ipc-keeps IsWell _ (run_charge w) i m
        (λ q. hotel-IsWell (charge_query w m.calls q) (charge-IsBalanced w q m f g.books)) g
  served-IsWell (payments_intent i) =
      wrap_ipc-keeps IsWell _ (run_intent w) i m
        (λ j. record {
          actions = g.actions;
          ledger = Step-IsKeyed (intents (w.fresh m.calls) j (w.now m.calls)) g.ledger;
          books = g.books;
        })
        g
  served-IsWell (payments_confirmation i) =
      wrap_ipc-keeps IsWell _ (run_confirmation w) i m
        (λ j. record {
          actions = g.actions;
          ledger = Step-IsKeyed (confirms (w.fresh m.calls) j (w.now m.calls)) g.ledger;
          books = g.books;
        })
        g
  served-IsWell (payments_match i) =
      wrap_ipc-keeps IsWell _ (run_match w) i m
        (λ j. record {
          actions = g.actions;
          ledger =
              Step-IsKeyed (matches j.confirmation_id j.intent_id j.operator_id (w.now m.calls))
                g.ledger;
          books = g.books;
        })
        g
  served-IsWell sync_status = wrap_ipc-keeps IsWell no_args _ tt m (λ u. g) g
  served-IsWell sync_recent = wrap_ipc-keeps IsWell no_args _ tt m (λ u. g) g
  served-IsWell lock_list = wrap_ipc-keeps IsWell no_args _ tt m (λ u. g) g
  served-IsWell conf_get = wrap_ipc-keeps IsWell no_args _ tt m (λ u. g) g
  served-IsWell payments_list = wrap_ipc-keeps IsWell no_args _ tt m (λ u. g) g
  served-IsWell payments_summary = wrap_ipc-keeps IsWell no_args _ tt m (λ u. g) g

  -- Every call keeps the console well formed, if a charge gets a fresh identifier for a new folio.
  pub handle-IsWell : (c : Call) → IsWell (handle w c m).1
  unfolding handle
  handle-IsWell c =
      let k = served-IsWell c in record { actions = k.actions; ledger = k.ledger; books = k.books }
