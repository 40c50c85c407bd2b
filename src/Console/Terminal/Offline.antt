-- ===== src/Console/Terminal/Offline.antt =====
-- A charge on a console whose database cannot be used (apps/console/src/renderer/views/Pos.tsx with
-- apps/console/src/main/db.ts and the configuration of apps/console/src/renderer/App.tsx).
use hotelia.Prelude.{ℕ, ◌+◌, ◌≡◌, ◌≢◌, refl, Text, trim, [], ◌∷◌, Option, none, some, true, false}
use hotelia.Prelude.Int.{ℤ}
use hotelia.Ipc.Wrap.{Parsed, invalid, valid, wrap_ipc, wrapped, unwrap, answer_of}
use hotelia.Pms.Barrier.{PosVerifyInput, PosVerification}
use hotelia.Console.Schema.{PosVerifyWire}
use hotelia.Console.Inputs.{parse_verify}
use hotelia.Console.Database.{Db, IsFresh, get_db, behind, is_db_available}
use hotelia.Console.Main.{World, Main, pos_verify, verify_query, run_verify, handle}
use hotelia.Console.Bridge.{main_bridge}
use hotelia.Console.Store.{AppStore, set_state, mount}
use hotelia.Console.View.{
  settled, after, set, ◌>>◌, success, Notice, Awaited, rejected, resolved, awaited,
}
use hotelia.Console.Terminal.{
  set_busy, set_verification, begin, pos_failed, post_verified, pos_config, Terminal, Audit,
  verify_wire, with_name, verify_and_post,
}

-- Nothing was sold: queue, hotel and ledger are as before, and the new toast reports no success.
pub record IsLost (v : Terminal) (m : Main) (r : Terminal × Main) : Type 0 where
  pub actions : r.1.engine ≡ m.engine
  pub hotel : r.1.hotel ≡ m.hotel
  pub ledger : r.1.ledger ≡ m.ledger
  pub toast : (t : Notice) × (r.0.toasts ≡ t ∷ v.toasts) × (t.kind ≢ success)

-- A call that has thrown and changed no table.
pub record Refused {A : Type 0} (m : Main) (o : Awaited A) (n : Main) : Type 0 where
  pub actions : n.engine ≡ m.engine
  pub hotel : n.hotel ≡ m.hotel
  pub ledger : n.ledger ≡ m.ledger
  pub error : (e : Text) × (o ≡ rejected e)

module _ (w : World) (m : Main) (broken : (get_db w.load m.db).0 ≢ none) where
  pos_verify-Refused :
      (wire : PosVerifyWire)
      → Refused m
          (awaited (unwrap (handle w (pos_verify wire) m).0))
          (handle w (pos_verify wire) m).1
  unfolding handle wrap_ipc unwrap
  pos_verify-Refused wire = by_parse (parse_verify w.zod wire)
    where
      by_db :
          (i : PosVerifyInput) (p : Option Text × Db)
          → p.0 ≢ none
          → Refused m
              (awaited (unwrap (answer_of (behind (verify_query w i) m.hotel p).0)))
              (record m {
                hotel = (behind (verify_query w i) m.hotel p).1;
                db = (behind (verify_query w i) m.hotel p).2;
                calls = m.calls + 1;
              })
      by_db i (some e, s) b = record {
        actions = refl;
        hotel = refl;
        ledger = refl;
        error = (_, refl);
      }
      by_db i (none, s) b = absurd (b refl)

      by_parse :
          (p : Parsed PosVerifyInput)
          → Refused m
              (awaited (unwrap (wrapped (run_verify w) m p).0))
              (record (wrapped (run_verify w) m p).1 { calls = m.calls + 1 })
      by_parse (invalid l) = record {
        actions = refl;
        hotel = refl;
        ledger = refl;
        error = (_, refl);
      }
      by_parse (valid i) = by_db i (get_db w.load m.db) broken

  -- With a configuration that says that the database is there.
  verify_and_post-IsLost :
      (parse_number : Text → Option ℤ) (a : Audit) (key : Text) (v : Terminal) (x : ℕ) (p : Text)
      → IsLost v m (
          verify_and_post
            (some (main_bridge w))
            parse_number
            (record { property_id = some (x ∷ p); db_available = true })
            a
            key
            v
            m)
  unfolding verify_and_post
  verify_and_post-IsLost parse_number a key v x p = by_name (trim v.last_name)
    where
      by_call :
          (o : Awaited PosVerification) (n : Main)
          → Refused m o n
          → IsLost v m (
              settled (pos_failed (some (main_bridge w))) (set_busy false) (
                after
                  (λ ver.
                    set (set_verification ver)
                    >> post_verified (some (main_bridge w)) parse_number (x ∷ p) v ver)
                  (o, begin v, n)))
      by_call (rejected e) n k = record {
        actions = k.actions;
        hotel = k.hotel;
        ledger = k.ledger;
        toast = (_, refl, λ y. cc);
      }
      by_call (resolved r) n k = absurd (cc k.error.1)

      by_name :
          (t : Text)
          → IsLost v m (
              with_name
                (some (main_bridge w))
                parse_number
                (record { property_id = some (x ∷ p); db_available = true })
                a
                key
                v
                m
                t)
      by_name [] = record {
        actions = refl;
        hotel = refl;
        ledger = refl;
        toast = (_, refl, λ y. cc);
      }
      by_name (y ∷ t) = by_call _ _ (pos_verify-Refused (verify_wire (x ∷ p) v))

-- What the shell makes of a main process that has not used its database yet.
mounted :
    (w : World) (s : AppStore) (m : Main) (x : ℕ) (p : Text)
    → IsFresh m.db
    → m.settings.property_id ≡ some (x ∷ p)
    → (pos_config (mount (some (main_bridge w)) s m).0.state.config
        ≡ record { property_id = some (x ∷ p); db_available = true })
      × ((mount (some (main_bridge w)) s m).1 ≡ record m { calls = m.calls + 1 + 1 })
unfolding mount set_state handle wrap_ipc unwrap is_db_available
mounted w s m x p f e = (rw (e, f.1) refl, refl)

-- On a console that has not used its database yet, with a property set, and whose `getDb` will throw:
-- the shell takes over that the database is there, so a charge at the point of sale is neither posted
-- nor queued; queue, hotel and ledger stay as they are, and the toast reports no success.
pub mount-IsLost :
    (w : World) (parse_number : Text → Option ℤ) (a : Audit) (key : Text) (v : Terminal)
    (s : AppStore) (m : Main) (x : ℕ) (p : Text)
    → IsFresh m.db
    → (get_db w.load m.db).0 ≢ none
    → m.settings.property_id ≡ some (x ∷ p)
    → let (store, n) = mount (some (main_bridge w)) s m in
      IsLost v m (
        verify_and_post
          (some (main_bridge w))
          parse_number
          (pos_config store.state.config)
          a
          key
          v
          n)
mount-IsLost w parse_number a key v s m x p f b e =
    let (c, n) = mounted w s m x p f e in
    let k =
      verify_and_post-IsLost w (record m { calls = m.calls + 1 + 1 }) b parse_number a key v x p in
    rw (c, n) (record { actions = k.actions; hotel = k.hotel; ledger = k.ledger; toast = k.toast })
