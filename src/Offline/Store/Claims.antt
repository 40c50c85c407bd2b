-- ===== src/Offline/Store/Claims.antt =====
-- Which row `claimNext` takes, and what claiming does to the table
-- (apps/console/src/main/offline/store.ts).
use hotelia.Prelude.{
  ℕ, ◌≡◌, refl, sym, ap, inl, inr, [], ◌∷◌, ◌++◌, Option, none, some, true, false, Bool-cases,
  Option-cases, All, In, arith, subst, ◌∙◌,
}
use hotelia.Prelude.Table.{Absent, Unique, find, update}
use hotelia.Prelude.Table.Split.{Split, Split-In, update-at, find-at}
use hotelia.Offline.Action.{OfflineActionRecord}
use hotelia.Offline.Store.{
  Actions, claimable, lex_before, comes_before, rank, earlier, next_claim, claimed_row, claim_next,
  has_id,
}

abbrev pub UniqueIds : Actions → Type 0
UniqueIds = Unique (λ a. a.id)

abbrev pub AbsentId : ℕ → Actions → Type 0
AbsentId = Absent (λ (a : OfflineActionRecord). a.id)

lex_before_trans :
    (r m s n u v : ℕ)
    → lex_before r m s n ≡ false
    → lex_before s n u v ≡ false
    → lex_before r m u v ≡ false
lex_before_trans r m s n u v h k = ground arith

lex_before_asym : (r m s n : ℕ) → lex_before r m s n ≡ true → lex_before s n r m ≡ false
lex_before_asym r m s n h = ground arith

lex_before_irrefl : (r m : ℕ) → lex_before r m r m ≡ false
lex_before_irrefl r m = ground arith

-- No claimable row of the table comes strictly before the row.
abbrev pub IsFirst : OfflineActionRecord → Actions → Type 0
IsFirst a = All (λ b. claimable b ≡ true → comes_before b a ≡ false)

IsFirst-trans :
    (a b : OfflineActionRecord) (t : Actions) → comes_before b a ≡ false → IsFirst b t → IsFirst a t
IsFirst-trans a b [] h f = tt
IsFirst-trans a b (c ∷ t) h f = (
  (λ p.
      lex_before_trans (rank c.status) c.created_at (rank b.status) b.created_at (rank a.status)
        a.created_at (f.0 p) h),
  IsFirst-trans a b t h f.1,
)

IsFirst-none :
    (a : OfflineActionRecord) (t : Actions) → All (λ b. claimable b ≡ false) t → IsFirst a t
IsFirst-none a [] h = tt
IsFirst-none a (c ∷ t) h = ((λ p. absurd (ground (arith, h.0))), IsFirst-none a t h.1)

pub next_claim-none : (t : Actions) → next_claim t ≡ none → All (λ a. claimable a ≡ false) t
unfolding next_claim
next_claim-none [] h = tt
next_claim-none (a ∷ t) h = elim (Bool-cases (claimable a)) [
  | inl e ↦ absurd (cc (rw e at h))
  | inr e ↦ (e, next_claim-none t (rw e at h))
]

pub record IsNext (t : Actions) (a : OfflineActionRecord) : Type 0 where
  pub held : In a t
  pub open_claim : claimable a ≡ true
  pub first : IsFirst a t

earlier-IsNext :
    (a : OfflineActionRecord) (t : Actions) (r : Option OfflineActionRecord)
    → claimable a ≡ true
    → (r ≡ none → All (λ b. claimable b ≡ false) t)
    → ((b : OfflineActionRecord) → r ≡ some b → IsNext t b)
    → IsNext (a ∷ t) (earlier a r)
earlier-IsNext a t none c n s = record {
  held = inl refl;
  open_claim = c;
  first = ((λ p. lex_before_irrefl (rank a.status) a.created_at), IsFirst-none a t (n refl));
}
earlier-IsNext a t (some b) c n s = elim (Bool-cases (comes_before b a)) [
  | inl e ↦ rw e (record {
    held = inr (s b refl).held;
    open_claim = (s b refl).open_claim;
    first = (
      (λ p. lex_before_asym (rank b.status) b.created_at (rank a.status) a.created_at e),
      (s b refl).first,
    );
  })
  | inr e ↦ rw e (record {
    held = inl refl;
    open_claim = c;
    first = (
      (λ p. lex_before_irrefl (rank a.status) a.created_at),
      IsFirst-trans a b t e (s b refl).first,
    );
  })
]

pub next_claim-IsNext : (t : Actions) (a : OfflineActionRecord) → next_claim t ≡ some a → IsNext t a
unfolding next_claim
next_claim-IsNext [] a h = cc
next_claim-IsNext (x ∷ t) a h = elim (Bool-cases (claimable x)) [
  | inl e ↦
      let q : some (earlier x (next_claim t)) ≡ some a = rw e at h in
      subst (IsNext (x ∷ t)) (cc q)
        (earlier-IsNext x t (next_claim t) e (next_claim-none t) (next_claim-IsNext t))
  | inr e ↦
      let n : IsNext t a = next_claim-IsNext t a (rw e at h) in
      record {
        held = inr n.held;
        open_claim = n.open_claim;
        first = ((λ p. absurd (cc (e, p))), n.first);
      }
]

-- What one call of `claimNext` does: nothing where no row may be claimed, and otherwise one row,
-- that nothing claimable comes before, turns to PROCESSING and is returned.
pub data Claims (now : ℕ) (t : Actions) : Option OfflineActionRecord × Actions → Type 0 where
  idle : All (λ a. claimable a ≡ false) t → Claims now t (none, t)
  took :
      (a : OfflineActionRecord) (xs ys : Actions)
      → t ≡ xs ++ a ∷ ys
      → AbsentId a.id xs
      → AbsentId a.id ys
      → claimable a ≡ true
      → IsFirst a t
      → Claims now t (some (claimed_row now a), xs ++ claimed_row now a ∷ ys)

abbrev claiming : ℕ → ℕ → Actions → Option OfflineActionRecord × Actions
claiming now i t = let t' = update (has_id i) (claimed_row now) t in (find (has_id i) t', t')

claiming-at :
    (now : ℕ) (a : OfflineActionRecord) {t : Actions}
    (s : Split (λ (b : OfflineActionRecord). b.id) a t)
    → claiming now a.id (s.before ++ a ∷ s.after)
      ≡ (some (claimed_row now a), s.before ++ claimed_row now a ∷ s.after)
claiming-at now a s = rw (
  update-at (λ b. b.id) (claimed_row now) a.id a s.before s.after refl s.absent_before
      s.absent_after,
  find-at (λ b. b.id) a.id (claimed_row now a) s.before s.after refl s.absent_before,
)

-- With unique identifiers, claimNext returns nothing and changes nothing when no row is claimable,
-- and otherwise turns exactly one claimable row, before which no claimable row comes in the order
-- of the query, to PROCESSING and returns it so.
pub claim_next-Claims : (now : ℕ) (t : Actions) → UniqueIds t → Claims now t (claim_next now t)
unfolding claim_next
claim_next-Claims now t u = elim (Option-cases (next_claim t)) [
  | inl e ↦ rw (e, claim_next) (idle (next_claim-none t e))
  | inr (a, e) ↦
      let n : IsNext t a = next_claim-IsNext t a e in
      let s : Split (λ (b : OfflineActionRecord). b.id) a t = Split-In _ a t u n.held in
      rw (e, claim_next)
        (subst (Claims now t) (sym (ap (claiming now a.id) s.whole ∙ claiming-at now a s))
          (took a s.before s.after s.whole s.absent_before s.absent_after n.open_claim n.first))
]
