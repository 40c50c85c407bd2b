-- ===== src/Console/Terminal/Posted.antt =====
-- What the point of sale shows as posted (apps/console/src/renderer/views/Pos.tsx, with the handlers
-- of apps/console/src/main/index.ts).
use hotelia.Prelude.{
  ◌≡◌, refl, sym, ap, ◌∙◌, Text, trim, [], ◌∷◌, Option, none, some, Bool, true, false, some_eq,
  if◌then◌else◌,
}
use hotelia.Prelude.Int.{ℤ}
use hotelia.Ipc.Wrap.{Parsed, invalid, valid, wrap_ipc, wrapped, unwrap, answer_of}
use hotelia.Offline.Action.{OfflineActionRecord}
use hotelia.Pms.Row.{Hotel}
use hotelia.Pms.Barrier.{
  PosVerifyInput, PosChargeInput, PosChargeResult, PosVerification, PosOutcome, barred, charged,
}
use hotelia.Pms.Charge.{pos_post_charge}
use hotelia.Pms.Guarded.{Guarded, post_charge-Guarded}
use hotelia.Console.Schema.{PosVerifyWire, PosChargeWire}
use hotelia.Console.Inputs.{parse_charge, parse_verify}
use hotelia.Console.Database.{Db, get_db, behind}
use hotelia.Console.Main.{
  World, Main, pos_verify, pos_charge, charge_answer, verify_query, charge_query, run_charge,
  run_verify, handle,
}
use hotelia.Console.Bridge.{main_bridge}
use hotelia.Console.View.{settled, after, set, ◌>>◌, Awaited, rejected, resolved, awaited}
use hotelia.Console.Terminal.{
  set_charge, set_busy, set_verification, posted, queued, push, refusal, begin, verify_wire,
  pos_failed, post_verified, post_charge, PosConfig, Terminal, Audit, charge_wire, with_name,
  post_or_queue, verify_and_post,
}

-- What the renderer gets of a handler on the hotel, and the hotel after it.
abbrev ChargeGives : World → PosChargeWire → Main → PosChargeResult → Hotel → Type 0
ChargeGives w wire m r h' =
    (i : PosChargeInput) × (parse_charge w.zod wire ≡ valid i) × Guarded w.lower i m.hotel h' r

resolved_eq : {A : Type 0} {a b : A} → resolved a ≡ resolved b → a ≡ b
resolved_eq e = cc e

module _ (w : World) (wire : PosChargeWire) (m : Main) (r : PosChargeResult) where
  outcome_gives :
      (i : PosChargeInput) (o : PosOutcome)
      → parse_charge w.zod wire ≡ valid i
      → pos_post_charge w.lower
          (w.fresh m.calls)
          (w.fresh_folio m.calls)
          (w.today m.calls)
          i
          m.hotel
        ≡ o
      → awaited (unwrap (answer_of (charge_answer i m.hotel o).0)) ≡ resolved r
      → ChargeGives w wire m r (charge_answer i m.hotel o).1
  unfolding unwrap
  outcome_gives i (barred b) p e h = absurd (cc h)
  outcome_gives i (charged s h') p e h = (
    i,
    p,
    post_charge-Guarded w.lower _ _ _ i m.hotel h' r (e ∙ ap (λ x. charged x h') (resolved_eq h)),
  )

  behind_gives :
      (i : PosChargeInput) (p : Option Text × Db)
      → parse_charge w.zod wire ≡ valid i
      → awaited (unwrap (answer_of (behind (charge_query w m.calls i) m.hotel p).0)) ≡ resolved r
      → ChargeGives w wire m r (behind (charge_query w m.calls i) m.hotel p).1
  unfolding unwrap
  behind_gives i (some e, s) p h = absurd (cc h)
  behind_gives i (none, s) p h = outcome_gives i _ p refl h

  charge_call :
      awaited (unwrap (handle w (pos_charge wire) m).0) ≡ resolved r
      → ChargeGives w wire m r (handle w (pos_charge wire) m).1.hotel
  unfolding handle wrap_ipc unwrap
  charge_call h = by_parse (parse_charge w.zod wire) refl h
    where
      by_parse :
          (p : Parsed PosChargeInput)
          → parse_charge w.zod wire ≡ p
          → awaited (unwrap (wrapped (run_charge w) m p).0) ≡ resolved r
          → ChargeGives w wire m r (wrapped (run_charge w) m p).1.hotel
      by_parse (invalid l) e k = absurd (cc k)
      by_parse (valid i) e k = behind_gives i (get_db w.load m.db) e k

-- A check of a guest changes nothing in the hotel.
verify_keeps :
    (w : World) (wire : PosVerifyWire) (m : Main) → (handle w (pos_verify wire) m).1.hotel ≡ m.hotel
unfolding handle wrap_ipc
verify_keeps w wire m = by_parse (parse_verify w.zod wire)
  where
    by_db :
        (i : PosVerifyInput) (p : Option Text × Db)
        → (behind (verify_query w i) m.hotel p).1 ≡ m.hotel
    by_db i (some e, s) = refl
    by_db i (none, s) = refl

    by_parse : (p : Parsed PosVerifyInput) → (wrapped (run_verify w) m p).1.hotel ≡ m.hotel
    by_parse (invalid l) = refl
    by_parse (valid i) = by_db i (get_db w.load m.db)

module _ (w : World) (parse_number : Text → Option ℤ) (a : Audit) (key : Text) (v : Terminal)
    (m : Main) (r : PosChargeResult) where
  -- The charge r was posted for this form.
  abbrev pub Posted : Main → Type 0
  Posted n =
      (p : Text) × (i : PosChargeInput) × (parse_charge w.zod (charge_wire parse_number p v)
        ≡ valid i)
      × Guarded w.lower i m.hotel n.hotel r

  abbrev FromPosting : Awaited (Unit {0}) × Terminal × Main → Type 0
  FromPosting q = q.1.charge ≡ some r → Posted q.2

  charge_posted :
      (p : Text) (u : Terminal) (n : Main) (o : Awaited PosChargeResult)
      → u.charge ≡ none
      → n.hotel ≡ m.hotel
      → awaited (unwrap (handle w (pos_charge (charge_wire parse_number p v)) n).0) ≡ o
      → FromPosting (
          after
            (λ res. set (set_charge res) >> set (push posted))
            (o, u, (handle w (pos_charge (charge_wire parse_number p v)) n).1))
  charge_posted p u n (rejected e) c same h k = absurd (cc (sym c ∙ k))
  charge_posted p u n (resolved s) c same h k =
      let (i, parsed, g) =
        charge_call w (charge_wire parse_number p v) n r (h ∙ ap resolved (some_eq k)) in
      (p, i, parsed, rw (← same) g)

  check_posted :
      (p : Text) (u : Terminal) (n : Main) (o : Awaited PosVerification)
      → u.charge ≡ none
      → n.hotel ≡ m.hotel
      → FromPosting (
          after
            (λ ver.
              set (set_verification ver)
              >> post_verified (some (main_bridge w)) parse_number p v ver)
            (o, u, n))
  check_posted p u n (rejected e) c same k = absurd (cc (sym c ∙ k))
  check_posted p u n (resolved ver) c same k = by_verified ver.verified k
    where
      by_verified :
          (b : Bool)
          → FromPosting (
              (if b
                  then post_charge (some (main_bridge w)) (charge_wire parse_number p v)
                  else set (push (refusal ver v)))
                (set_verification ver u)
                n)
      by_verified false j = absurd (cc (sym c ∙ j))
      by_verified true j = charge_posted p (set_verification ver u) n _ c same refl j

  queue_posted :
      (u : Terminal) (n : Main) (o : Awaited OfflineActionRecord)
      → u.charge ≡ none
      → FromPosting (after (λ q. set (push queued)) (o, u, n))
  queue_posted u n (rejected e) c k = absurd (cc (sym c ∙ k))
  queue_posted u n (resolved q) c k = absurd (cc (sym c ∙ k))

  task_posted :
      (b : Bool) (p : Option Text)
      → FromPosting (post_or_queue (some (main_bridge w)) parse_number a key v b p (begin v) m)
  task_posted true (some (x ∷ p)) =
      check_posted (x ∷ p) (begin v) _ _ refl (verify_keeps w (verify_wire (x ∷ p) v) m)
  task_posted true (some []) = queue_posted (begin v) _ _ refl
  task_posted true none = queue_posted (begin v) _ _ refl
  task_posted false p = queue_posted (begin v) _ _ refl

  settled-Posted :
      (q : Awaited (Unit {0}) × Terminal × Main)
      → FromPosting q
      → (settled (pos_failed (some (main_bridge w))) (set_busy false) q).0.charge ≡ some r
      → Posted (settled (pos_failed (some (main_bridge w))) (set_busy false) q).1
  settled-Posted (rejected e, u, n) f k = f k
  settled-Posted (resolved x, u, n) f k = f k

  -- A charge that the terminal shows after `verifyAndPost`, with none on display before, was posted
  -- for what the form said, behind the barrier: for a stay of the property that is checked in, in
  -- the room and under the last name of the form, with one item and one audit entry.
  pub verify_and_post-Posted :
      (c : PosConfig)
      → v.charge ≡ none
      → let (u, n) = verify_and_post (some (main_bridge w)) parse_number c a key v m in
        u.charge ≡ some r → Posted n
  unfolding verify_and_post
  verify_and_post-Posted c none_before = by_name (trim v.last_name)
    where
      by_name :
          (t : Text)
          → (with_name (some (main_bridge w)) parse_number c a key v m t).0.charge ≡ some r
          → Posted (with_name (some (main_bridge w)) parse_number c a key v m t).1
      by_name [] k = absurd (cc (sym none_before ∙ k))
      by_name (x ∷ t) k =
          settled-Posted
            (post_or_queue (some (main_bridge w)) parse_number a key v c.db_available c.property_id
              (begin v) m)
            (task_posted c.db_available c.property_id) k
