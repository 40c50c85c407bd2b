-- ===== src/Offline/Store/Insert.antt =====
-- `insert` is idempotent on the idempotency key (apps/console/src/main/offline/store.ts).
use hotelia.Prelude.{
  ℕ, ◌≡◌, inl, inr, Text, [], ◌∷◌, ◌++◌, Option, none, some, false, All, In, arith, Option-cases,
  ==_iff, same_text_iff,
}
use hotelia.Prelude.Table.{
  find, find-append_none, find-none, find-true, find-In, Absent, Unique, Unique-append,
}
use hotelia.Offline.Action.{OfflineActionRecord, SyncEnqueueInput}
use hotelia.Offline.Store.{Actions, has_id, has_key, new_row, insert}
use hotelia.Offline.Store.Claims.{AbsentId, UniqueIds}

abbrev pub AbsentKey : Text → Actions → Type 0
AbsentKey = Absent (λ (a : OfflineActionRecord). a.idempotency_key)

abbrev pub UniqueKeys : Actions → Type 0
UniqueKeys = Unique (λ (a : OfflineActionRecord). a.idempotency_key)

-- The three ways in which `insert` can go.
pub data Inserts (i : ℕ) (input : SyncEnqueueInput) (now : ℕ) (t : Actions)
    : Option OfflineActionRecord × Actions → Type 0 where
  -- The key is known: its row comes back, and the table stays as it is.
  known :
      (a : OfflineActionRecord)
      → In a t
      → a.idempotency_key ≡ input.idempotency_key
      → Inserts i input now t (some a, t)
  -- Key and identifier are new: a PENDING row is appended and comes back.
  added :
      AbsentId i t
      → AbsentKey input.idempotency_key t
      → Inserts i input now t (some (new_row i input now), t ++ new_row i input now ∷ [])
  -- The key is new, but the identifier is taken: nothing is written, and the call raises.
  clash :
      AbsentKey input.idempotency_key t
      → (a : OfflineActionRecord) → In a t
      → a.id ≡ i
      → Inserts i input now t (none, t)

pub insert_known :
    (i : ℕ) (input : SyncEnqueueInput) (now : ℕ) (t : Actions) (a : OfflineActionRecord)
    → find (has_key input.idempotency_key) t ≡ some a
    → insert i input now t ≡ (some a, t)
unfolding insert
insert_known i input now t a e = ground arith

insert_clash :
    (i : ℕ) (input : SyncEnqueueInput) (now : ℕ) (t : Actions) (a : OfflineActionRecord)
    → find (has_key input.idempotency_key) t ≡ none
    → find (has_id i) t ≡ some a
    → insert i input now t ≡ (none, t)
unfolding insert
insert_clash i input now t a e f = ground arith

pub insert_new :
    (i : ℕ) (input : SyncEnqueueInput) (now : ℕ) (t : Actions)
    → find (has_key input.idempotency_key) t ≡ none
    → find (has_id i) t ≡ none
    → insert i input now t ≡ (some (new_row i input now), t ++ new_row i input now ∷ [])
unfolding insert
insert_new i input now t e f = ground (
  arith,
  find-append_none (has_key input.idempotency_key) t (new_row i input now ∷ []),
  same_text_iff input.idempotency_key input.idempotency_key,
)

absent_key : (k : Text) (t : Actions) → All (λ a. has_key k a ≡ false) t → AbsentKey k t
absent_key k [] h = tt
absent_key k (a ∷ t) h =
    ((λ e. cc (h.0, (same_text_iff a.idempotency_key k).1 e)), absent_key k t h.1)

absent_id : (i : ℕ) (t : Actions) → All (λ a. has_id i a ≡ false) t → AbsentId i t
absent_id i [] h = tt
absent_id i (a ∷ t) h = ((λ e. cc (h.0, (==_iff a.id i).1 e)), absent_id i t h.1)

pub insert-Inserts :
    (i : ℕ) (input : SyncEnqueueInput) (now : ℕ) (t : Actions)
    → Inserts i input now t (insert i input now t)
insert-Inserts i input now t = elim (Option-cases (find (has_key input.idempotency_key) t)) [
  | inr (a, e) ↦ rw (insert_known i input now t a e) (
      known a (find-In (has_key input.idempotency_key) t a e) (
        (same_text_iff a.idempotency_key input.idempotency_key).0
          (find-true (has_key input.idempotency_key) t a e)))
  | inl e ↦
      let k : AbsentKey input.idempotency_key t =
        absent_key input.idempotency_key t (find-none (has_key input.idempotency_key) t e) in
      elim (Option-cases (find (has_id i) t)) [
        | inr (a, f) ↦
            rw (insert_clash i input now t a e f) (
              clash k a (find-In (has_id i) t a f) ((==_iff a.id i).0 (find-true (has_id i) t a f)))
        | inl f ↦
            rw (insert_new i input now t e f) (added (absent_id i t (find-none (has_id i) t f)) k)
      ]
]

-- A row that was read back under a key is what every later insert under that key returns, and
-- such an insert changes nothing.
insert_again :
    (i j : ℕ) (input later : SyncEnqueueInput) (now then_ : ℕ) (t : Actions)
    {a : OfflineActionRecord} {u : Actions}
    → insert i input now t ≡ (some a, u)
    → later.idempotency_key ≡ input.idempotency_key
    → insert j later then_ u ≡ (some a, u)
unfolding insert
insert_again i j input later now then_ t {a} {u} e k =
    insert_known j later then_ u a (rw k (cc (e)))

pub Inserts-UniqueIds :
    {i : ℕ} {input : SyncEnqueueInput} {now : ℕ} {t : Actions}
    {r : Option OfflineActionRecord × Actions}
    → Inserts i input now t r
    → UniqueIds t
    → UniqueIds r.1
Inserts-UniqueIds (known a m e) u = u
Inserts-UniqueIds {i} {input} {now} {t} (added h k) u =
    Unique-append (λ a. a.id) (new_row i input now) t u h
Inserts-UniqueIds (clash k a m e) u = u

pub Inserts-UniqueKeys :
    {i : ℕ} {input : SyncEnqueueInput} {now : ℕ} {t : Actions}
    {r : Option OfflineActionRecord × Actions}
    → Inserts i input now t r
    → UniqueKeys t
    → UniqueKeys r.1
Inserts-UniqueKeys (known a m e) u = u
Inserts-UniqueKeys {i} {input} {now} {t} (added h k) u =
    Unique-append (λ a. a.idempotency_key) (new_row i input now) t u k
Inserts-UniqueKeys (clash k a m e) u = u
