-- ===== src/Payments/Insert.antt =====
-- What an insertion into `mpesa_ledger` keeps: identifiers, idempotency keys and receipts stay
-- unique (apps/console/src/main/offline/store.ts).
use hotelia.Prelude.{
  ℕ, ◌≡◌, refl, ◌∙◌, inl, inr, Text, [], ◌∷◌, ◌++◌, Option, none, some, Bool, false, ◌||◌, ◌&&◌,
  All, All-append, All-map, arith, Bool-cases, is_some, ==_iff, same_text_iff, same_text,
}
use hotelia.Prelude.Table.{
  find, update, find-none, Absent, Unique, Unique-append, Unique-update, All-update,
}
use hotelia.Payments.Row.{LedgerRow}
use hotelia.Payments.Ledger.{
  Rows, has_id, has_key, receipt_clash, same_receipt, insert_or_ignore, is_confirmation,
}

abbrev pub AbsentId : ℕ → Rows → Type 0
AbsentId = Absent (λ (r : LedgerRow). r.id)

abbrev pub UniqueIds : Rows → Type 0
UniqueIds = Unique (λ (r : LedgerRow). r.id)

abbrev pub AbsentKey : Text → Rows → Type 0
AbsentKey = Absent (λ (r : LedgerRow). r.idempotency_key)

abbrev pub UniqueKeys : Rows → Type 0
UniqueKeys = Unique (λ (r : LedgerRow). r.idempotency_key)

-- No two confirmations have one receipt.
abbrev pub UniqueReceipts : Rows → Type 0
UniqueReceipts [] = Unit
UniqueReceipts (r ∷ t) = All (λ s. receipt_clash r s ≡ false) t × UniqueReceipts t

-- The insertion is dropped, or all three columns are new.
pub data Inserted (r : LedgerRow) (t : Rows) : Rows → Type 0 where
  dropped : Inserted r t t
  added :
      AbsentId r.id t
      → AbsentKey r.idempotency_key t
      → All (λ s. receipt_clash r s ≡ false) t
      → Inserted r t (t ++ r ∷ [])

absent_id : (i : ℕ) (t : Rows) → All (λ r. has_id i r ≡ false) t → AbsentId i t
absent_id i [] h = tt
absent_id i (r ∷ t) h = ((λ e. cc (h.0, (==_iff r.id i).1 e)), absent_id i t h.1)

absent_key : (k : Text) (t : Rows) → All (λ r. has_key k r ≡ false) t → AbsentKey k t
absent_key k [] h = tt
absent_key k (r ∷ t) h =
    ((λ e. cc (h.0, (same_text_iff r.idempotency_key k).1 e)), absent_key k t h.1)

is_some-false {ℓ} : {A : Type ℓ} (o : Option A) → is_some o ≡ false → o ≡ none
is_some-false none h = refl
is_some-false (some a) h = cc

or_false : (a b : Bool) → (a || b) ≡ false → (a ≡ false) × (b ≡ false)
or_false a b h = ground arith

pub insert_or_ignore-Inserted : (r : LedgerRow) (t : Rows) → Inserted r t (insert_or_ignore r t)
unfolding insert_or_ignore
insert_or_ignore-Inserted r t =
    elim (Bool-cases (
      is_some (find (has_id r.id) t)
      || is_some (find (has_key r.idempotency_key) t)
      || is_some (find (receipt_clash r) t))) [
        | inl e ↦ rw e dropped
        | inr e ↦
            let f = or_false _ _ e in
            let g = or_false _ _ f.0 in
            rw e (
              added (absent_id r.id t (find-none (has_id r.id) t (is_some-false _ g.0)))
                (absent_key r.idempotency_key t
                  (find-none (has_key r.idempotency_key) t (is_some-false _ g.1)))
                (find-none (receipt_clash r) t (is_some-false _ f.1)))
      ]

same_text_comm : (s t : Text) → same_text s t ≡ same_text t s
same_text_comm s t = ground (arith, same_text_iff s t, same_text_iff t s)

receipt_clash_comm : (a b : LedgerRow) → receipt_clash a b ≡ false → receipt_clash b a ≡ false
receipt_clash_comm a b h = clash_comm (is_confirmation a) (is_confirmation b) a.receipt b.receipt h
  where
    clash_comm :
        (c d : Bool) (r s : Option Text)
        → (c && d && same_receipt s r) ≡ false
        → (d && c && same_receipt r s) ≡ false
    clash_comm c d none none e = ground arith
    clash_comm c d none (some s) e = ground arith
    clash_comm c d (some r) none e = ground arith
    clash_comm c d (some r) (some s) e = ground (arith, same_text_comm r s)

UniqueReceipts-append :
    (r : LedgerRow) (t : Rows)
    → UniqueReceipts t
    → All (λ s. receipt_clash r s ≡ false) t
    → UniqueReceipts (t ++ r ∷ [])
UniqueReceipts-append r [] u h = (tt, tt)
UniqueReceipts-append r (s ∷ t) u h = (
  All-append (λ x. receipt_clash s x ≡ false) t (r ∷ []) u.0 (receipt_clash_comm r s h.0, tt),
  UniqueReceipts-append r t u.1 h.1,
)

pub record IsKeyed (t : Rows) : Type 0 where
  pub ids : UniqueIds t
  pub keys : UniqueKeys t
  pub receipts : UniqueReceipts t

pub Inserted-IsKeyed : {r : LedgerRow} {t u : Rows} → Inserted r t u → IsKeyed t → IsKeyed u
Inserted-IsKeyed dropped s = s
Inserted-IsKeyed {r} {t} (added i k c) s = record {
  ids = Unique-append (λ a. a.id) r t s.ids i;
  keys = Unique-append (λ a. a.idempotency_key) r t s.keys k;
  receipts = UniqueReceipts-append r t s.receipts c;
}

module _ (p : LedgerRow → Bool) (f : LedgerRow → LedgerRow)
    (same_id : (r : LedgerRow) → (f r).id ≡ r.id)
    (same_key : (r : LedgerRow) → (f r).idempotency_key ≡ r.idempotency_key)
    (same_clash : (r s : LedgerRow) → receipt_clash (f r) s ≡ receipt_clash r s)
    (same_clash' : (r s : LedgerRow) → receipt_clash r (f s) ≡ receipt_clash r s) where
  UniqueReceipts-update : (t : Rows) → UniqueReceipts t → UniqueReceipts (update p f t)
  UniqueReceipts-update [] u = tt
  UniqueReceipts-update (r ∷ t) u = elim (Bool-cases (p r)) [
    | inl e ↦ rw e (
      All-update (λ s. receipt_clash (f r) s ≡ false) p f (λ s _ h. same_clash' (f r) s ∙ h) t
          (All-map (λ s. receipt_clash r s ≡ false) (λ s. receipt_clash (f r) s ≡ false)
            (λ s h. same_clash r s ∙ h) t u.0),
      UniqueReceipts-update t u.1,
    )
    | inr e ↦ rw e (
      All-update (λ s. receipt_clash r s ≡ false) p f (λ s _ h. same_clash' r s ∙ h) t u.0,
      UniqueReceipts-update t u.1,
    )
  ]

  -- An update that leaves the three columns and the kind alone keeps them unique.
  pub update-IsKeyed : (t : Rows) → IsKeyed t → IsKeyed (update p f t)
  update-IsKeyed t s = record {
    ids = Unique-update (λ a. a.id) p f same_id t s.ids;
    keys = Unique-update (λ a. a.idempotency_key) p f same_key t s.keys;
    receipts = UniqueReceipts-update t s.receipts;
  }
