-- ===== src/Prelude/Table.antt =====
-- A database table as the list of its rows, oldest first, and the SQL statements on it.
pub mod Split
pub mod Order
use Prim.Native.Nat.{ℕ, suc, ◌+◌}
use mathlib.Core.Path.{◌≡◌, refl, sym, ap, ◌∙◌}
use mathlib.Core.Logic.{◌≢◌, ◌⊎◌, inl, inr}
use mathlib.Core.Bool.{Bool, true, false}
use mathlib.Core.Option.{Option, none, some}
use mathlib.Core.List.{List, [], ◌∷◌, ◌++◌}
use native.Mathlib.Omega.{arith}
use hotelia.Prelude.Tests.{if◌then◌else◌, Bool-cases}
use hotelia.Prelude.Lists.{All, All-append, In, length}

module _ {ℓ} {A : Type ℓ} where
  -- SELECT … WHERE p
  abbrev pub select : (A → Bool) → List A → List A
  select p [] = []
  select p (x ∷ xs) = if p x then x ∷ select p xs else select p xs

  -- SELECT … WHERE p LIMIT 1
  abbrev pub find : (A → Bool) → List A → Option A
  find p [] = none
  find p (x ∷ xs) = if p x then some x else find p xs

  -- UPDATE … SET f WHERE p
  abbrev pub update : (A → Bool) → (A → A) → List A → List A
  update p f [] = []
  update p f (x ∷ xs) = (if p x then f x else x) ∷ update p f xs

  -- SELECT COUNT(*) WHERE p
  abbrev pub count : (A → Bool) → List A → ℕ
  count p [] = 0
  count p (x ∷ xs) = if p x then suc (count p xs) else count p xs

  pub length-update : (p : A → Bool) (f : A → A) (t : List A) → length (update p f t) ≡ length t
  length-update p f [] = refl
  length-update p f (x ∷ t) = omega (arith, length-update p f t)

  pub find-true : (p : A → Bool) (t : List A) (a : A) → find p t ≡ some a → p a ≡ true
  find-true p [] a h = cc
  find-true p (x ∷ t) a h = ground (arith, find-true p t a)

  pub find-append_some :
      (p : A → Bool) (t u : List A) (a : A) → find p t ≡ some a → find p (t ++ u) ≡ some a
  find-append_some p [] u a h = cc
  find-append_some p (x ∷ t) u a h = ground (arith, find-append_some p t u a)

  pub find-append_none :
      (p : A → Bool) (t u : List A) → find p t ≡ none → find p (t ++ u) ≡ find p u
  find-append_none p [] u h = refl
  find-append_none p (x ∷ t) u h = ground (arith, find-append_none p t u)

  pub find-append_false :
      (p : A → Bool) (t : List A) (a : A) → p a ≡ false → find p (t ++ a ∷ []) ≡ find p t
  find-append_false p [] a h = rw h
  find-append_false p (x ∷ t) a h = ground (arith, find-append_false p t a h)

  pub find-none : (p : A → Bool) (t : List A) → find p t ≡ none → All (λ a. p a ≡ false) t
  find-none p [] h = tt
  find-none p (x ∷ t) h = ground (arith, find-none p t)

  pub find-none_of : (p : A → Bool) (t : List A) → All (λ a. p a ≡ false) t → find p t ≡ none
  find-none_of p [] h = refl
  find-none_of p (x ∷ t) h = rw h.0 (find-none_of p t h.1)

  pub update-none :
      (p : A → Bool) (f : A → A) (t : List A) → All (λ a. p a ≡ false) t → update p f t ≡ t
  update-none p f [] h = refl
  update-none p f (x ∷ t) h = ground (arith, update-none p f t h.1)

  -- A predicate that the update keeps on the rows it changes holds of all rows afterwards.
  pub All-update {κ} :
      (P : A → Type κ) (p : A → Bool) (f : A → A)
      → ((a : A) → p a ≡ true → P a → P (f a))
      → (t : List A) → All P t
      → All P (update p f t)
  All-update P p f keep [] h = tt
  All-update P p f keep (x ∷ t) h = elim (Bool-cases (p x)) [
    | inl e ↦ rw e (keep x e h.0, All-update P p f keep t h.1)
    | inr e ↦ rw e (h.0, All-update P p f keep t h.1)
  ]

  -- The count of `q` does not change where the update keeps `q`.
  pub count-update :
      (q p : A → Bool) (f : A → A)
      → ((a : A) → p a ≡ true → q (f a) ≡ q a)
      → (t : List A) → count q (update p f t) ≡ count q t
  count-update q p f keep [] = refl
  count-update q p f keep (x ∷ t) = ground (arith, keep x, count-update q p f keep t)

  pub count-none : (p : A → Bool) (t : List A) → All (λ a. p a ≡ false) t → count p t ≡ 0
  count-none p [] h = refl
  count-none p (x ∷ t) h = rw h.0 (count-none p t h.1)

  pub count-append : (p : A → Bool) (t u : List A) → count p (t ++ u) ≡ count p t + count p u
  count-append p [] u = omega arith
  count-append p (x ∷ t) u = ground (arith, count-append p t u)

module _ {A : Type 0} where
  -- An update that changes nothing of what is searched for, on rows with the one that is found.
  pub find-update_found :
      (p q : A → Bool) (f : A → A)
      → ((a : A) → p (f a) ≡ p a)
      → (t : List A) (r : A) → find p t ≡ some r
      → q r ≡ true
      → find p (update q f t) ≡ some (f r)
  find-update_found p q f same [] r e k = absurd (cc e)
  find-update_found p q f same (x ∷ t) r e k =
      ground (arith, same x, e, k, find-update_found p q f same t r)

  In-if :
      (c : Bool) (x a : A) (l : List A)
      → In a (if c then x ∷ l else l)
      → ((x ≡ a) × (c ≡ true)) ⊎ In a l
  In-if true x a l (inl e) = inl (e, refl)
  In-if true x a l (inr m) = inr m
  In-if false x a l m = inr m

  pub In-select : (p : A → Bool) (a : A) (t : List A) → In a (select p t) → In a t × (p a ≡ true)
  In-select p a [] m = absurd m
  In-select p a (x ∷ t) m = elim (In-if (p x) x a (select p t) m) [
    | inl (e, k) ↦ (inl e, rw⁻¹ e k)
    | inr n ↦ (inr (In-select p a t n).0, (In-select p a t n).1)
  ]

  pub In-updated :
      (p : A → Bool) (f : A → A) (a : A) (t : List A)
      → In a t
      → In (if p a then f a else a) (update p f t)
  In-updated p f a [] m = absurd m
  In-updated p f a (x ∷ t) (inl e) = inl (ap (λ z. if p z then f z else z) e)
  In-updated p f a (x ∷ t) (inr m) = inr (In-updated p f a t m)

  pub find-In : (p : A → Bool) (t : List A) (a : A) → find p t ≡ some a → In a t
  find-In p [] a h = cc
  find-In p (x ∷ t) a h = head_or (p x) h (find-In p t a)
    where
      head_or :
          (b : Bool)
          → (if b then some x else find p t) ≡ some a
          → (find p t ≡ some a → In a t)
          → (x ≡ a) ⊎ In a t
      head_or true e rest = inl (cc)
      head_or false e rest = inr (rest e)

  -- A row that the condition does not meet stays.
  pub In-update :
      (p : A → Bool) (f : A → A) (a : A) (t : List A) → p a ≡ false → In a t → In a (update p f t)
  In-update p f a [] e m = absurd m
  In-update p f a (x ∷ t) e (inl same) = inl (ap (λ y. if p y then f y else y) same ∙ rw e)
  In-update p f a (x ∷ t) e (inr m) = inr (In-update p f a t e m)

-- A column without repeated values, and the rows that have a value in it.
module _ {A K : Type 0} (key : A → K) where
  abbrev pub Absent : K → List A → Type 0
  Absent k = All (λ a. key a ≢ k)

  abbrev pub Unique : List A → Type 0
  Unique [] = Unit
  Unique (x ∷ t) = Absent (key x) t × Unique t

  pub Absent-update :
      (p : A → Bool) (f : A → A)
      → ((a : A) → key (f a) ≡ key a)
      → (k : K) (t : List A) → Absent k t
      → Absent k (update p f t)
  Absent-update p f same k = All-update (λ a. key a ≢ k) p f (λ a e h. rw (same a) h)

  pub Unique-update :
      (p : A → Bool) (f : A → A)
      → ((a : A) → key (f a) ≡ key a)
      → (t : List A) → Unique t
      → Unique (update p f t)
  Unique-update p f same [] h = tt
  Unique-update p f same (x ∷ t) h = elim (Bool-cases (p x)) [
    | inl e ↦ rw (e, same x) (Absent-update p f same (key x) t h.0, Unique-update p f same t h.1)
    | inr e ↦ rw e (Absent-update p f same (key x) t h.0, Unique-update p f same t h.1)
  ]

  All-select {κ} : (P : A → Type κ) (p : A → Bool) (t : List A) → All P t → All P (select p t)
  All-select P p [] h = tt
  All-select P p (x ∷ t) h = elim (Bool-cases (p x)) [
    | inl e ↦ rw e (h.0, All-select P p t h.1)
    | inr e ↦ rw e (All-select P p t h.1)
  ]

  pub Absent-select : (k : K) (p : A → Bool) (t : List A) → Absent k t → Absent k (select p t)
  Absent-select k = All-select (λ a. key a ≢ k)

  pub Unique-select : (p : A → Bool) (t : List A) → Unique t → Unique (select p t)
  Unique-select p [] h = tt
  Unique-select p (x ∷ t) h = elim (Bool-cases (p x)) [
    | inl e ↦ rw e (Absent-select (key x) p t h.0, Unique-select p t h.1)
    | inr e ↦ rw e (Unique-select p t h.1)
  ]

  pub Unique-append : (a : A) (t : List A) → Unique t → Absent (key a) t → Unique (t ++ a ∷ [])
  Unique-append a [] h n = (tt, tt)
  Unique-append a (x ∷ t) h n = (
    All-append (λ b. key b ≢ key x) t (a ∷ []) h.0 ((λ e. n.0 (sym e)), tt),
    Unique-append a t h.1 n.1,
  )
