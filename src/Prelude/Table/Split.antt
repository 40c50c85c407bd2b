-- ===== src/Prelude/Table/Split.antt =====
-- A row with a unique number splits the table: a statement that names the row's number changes
-- that row and no other.
use Prim.Native.Nat.{ℕ, ◌+◌}
use mathlib.Core.Path.{◌≡◌, refl, sym, ap}
use mathlib.Core.Logic.{◌≢◌, ◌⊎◌, inl, inr}
use mathlib.Core.Bool.{Bool}
use mathlib.Core.Option
use mathlib.Core.Option.{Option, some}
use mathlib.Core.List.{List, [], ◌∷◌, ◌++◌}
use native.Mathlib.Omega.{arith}
use hotelia.Prelude.Tests.{◌==◌, if◌then◌else◌}
use hotelia.Prelude.Lists.{All, In}
use hotelia.Prelude.Table.{find, update, count, Absent, Unique}

module _ {A : Type 0} (key : A → ℕ) where
  pub record Split (a : A) (t : List A) : Type 0 where
    pub before : List A
    pub after : List A
    pub whole : t ≡ before ++ a ∷ after
    pub absent_before : Absent key (key a) before
    pub absent_after : Absent key (key a) after

  Split-later : (a x : A) (t : List A) → key x ≢ key a → Split a t → Split a (x ∷ t)
  Split-later a x t ne s = record {
    before = x ∷ s.before;
    after = s.after;
    whole = ap (λ u. x ∷ u) s.whole;
    absent_before = (ne, s.absent_before);
    absent_after = s.absent_after;
  }

  Absent-In-ne : (k : ℕ) (a : A) (t : List A) → Absent key k t → In a t → key a ≢ k
  Absent-In-ne k a [] h m = absurd m
  Absent-In-ne k a (x ∷ t) h (inl e) = rw (← e) h.0
  Absent-In-ne k a (x ∷ t) h (inr m) = Absent-In-ne k a t h.1 m

  pub Split-In : (a : A) (t : List A) → Unique key t → In a t → Split a t
  Split-In a [] u m = absurd m
  Split-In a (x ∷ t) u (inl e) = record {
    before = [];
    after = t;
    whole = ap (λ y. y ∷ t) e;
    absent_before = tt;
    absent_after = rw e at u.0;
  }
  Split-In a (x ∷ t) u (inr m) =
      Split-later a x t (λ e. Absent-In-ne (key x) a t u.0 m (sym e)) (Split-In a t u.1 m)

  abbrev at_key : ℕ → A → Bool
  at_key i a = key a == i

  update-Absent : (f : A → A) (i : ℕ) (t : List A) → Absent key i t → update (at_key i) f t ≡ t
  update-Absent f i [] h = refl
  update-Absent f i (x ∷ t) h = ground (arith, h.0, update-Absent f i t h.1)

  pub update-at :
      (f : A → A) (i : ℕ) (a : A) (xs ys : List A)
      → key a ≡ i
      → Absent key i xs
      → Absent key i ys
      → update (at_key i) f (xs ++ a ∷ ys) ≡ xs ++ f a ∷ ys
  update-at f i a [] ys e hx hy = ground (arith, update-Absent f i ys hy)
  update-at f i a (x ∷ xs) ys e hx hy = ground (arith, hx.0, update-at f i a xs ys e hx.1 hy)

  pub find-at :
      (i : ℕ) (a : A) (xs ys : List A)
      → key a ≡ i
      → Absent key i xs
      → find (at_key i) (xs ++ a ∷ ys) ≡ some a
  find-at i a [] ys e hx = ground arith
  find-at i a (x ∷ xs) ys e hx = ground (arith, hx.0, find-at i a xs ys e hx.1)

  -- Looking a row up by its number after an update by number.
  pub find-update :
      (f : A → A)
      → ((a : A) → key (f a) ≡ key a)
      → (i j : ℕ) (t : List A)
      → find (at_key i) (update (at_key j) f t)
        ≡ (if i == j then Option.map f (find (at_key i) t) else find (at_key i) t)
  find-update f same i j [] = ground arith
  find-update f same i j (x ∷ t) = ground (arith, same x, find-update f same i j t)

-- A row may be replaced by one with the same value in the column.
module _ {A K : Type 0} (key : A → K) where
  pub Absent-replace :
      (k : K) (a b : A) (xs ys : List A)
      → key b ≡ key a
      → Absent key k (xs ++ a ∷ ys)
      → Absent key k (xs ++ b ∷ ys)
  Absent-replace k a b [] ys e h = (rw e h.0, h.1)
  Absent-replace k a b (x ∷ xs) ys e h = (h.0, Absent-replace k a b xs ys e h.1)

  pub Unique-replace :
      (a b : A) (xs ys : List A)
      → key b ≡ key a
      → Unique key (xs ++ a ∷ ys)
      → Unique key (xs ++ b ∷ ys)
  Unique-replace a b [] ys e h = (rw e h.0, h.1)
  Unique-replace a b (x ∷ xs) ys e h =
      (Absent-replace (key x) a b xs ys e h.0, Unique-replace a b xs ys e h.1)

module _ {A : Type 0} where
  pub All-replace :
      (P : A → Type 0) (a b : A) (xs ys : List A)
      → All P (xs ++ a ∷ ys)
      → (P a → P b)
      → All P (xs ++ b ∷ ys)
  All-replace P a b [] ys h f = (f h.0, h.1)
  All-replace P a b (x ∷ xs) ys h f = (h.0, All-replace P a b xs ys h.1 f)

  pub All-at : (P : A → Type 0) (a : A) (xs ys : List A) → All P (xs ++ a ∷ ys) → P a
  All-at P a [] ys h = h.0
  All-at P a (x ∷ xs) ys h = All-at P a xs ys h.1

  -- Another row of the table stays in it.
  pub In-replace : (c a b : A) (xs ys : List A) → c ≢ a → In c (xs ++ a ∷ ys) → In c (xs ++ b ∷ ys)
  In-replace c a b [] ys ne (inl e) = absurd (ne (sym e))
  In-replace c a b [] ys ne (inr m) = inr m
  In-replace c a b (x ∷ xs) ys ne (inl e) = inl e
  In-replace c a b (x ∷ xs) ys ne (inr m) = inr (In-replace c a b xs ys ne m)

  -- A member is the replaced one, and then the new one is a member, or it stays.
  pub In-replaced :
      (c a b : A) (xs ys : List A)
      → In c (xs ++ a ∷ ys)
      → ((a ≡ c) × In b (xs ++ b ∷ ys)) ⊎ In c (xs ++ b ∷ ys)
  In-replaced c a b [] ys (inl e) = inl (e, inl refl)
  In-replaced c a b [] ys (inr m) = inr (inr m)
  In-replaced c a b (x ∷ xs) ys (inl e) = inr (inl e)
  In-replaced c a b (x ∷ xs) ys (inr m) = elim (In-replaced c a b xs ys m) [
    | inl (e, k) ↦ inl (e, inr k)
    | inr k ↦ inr (inr k)
  ]

  pub count-replace :
      (p : A → Bool) (a b : A) (xs ys : List A)
      → count p (xs ++ b ∷ ys) + count p (a ∷ []) ≡ count p (xs ++ a ∷ ys) + count p (b ∷ [])
  count-replace p a b [] ys = ground arith
  count-replace p a b (x ∷ xs) ys = ground (arith, count-replace p a b xs ys)
