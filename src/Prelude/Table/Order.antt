-- ===== src/Prelude/Table/Order.antt =====
-- ORDER BY a test that says when the first row comes strictly before the second; equal rows keep
-- their order.
use mathlib.Core.Bool.{Bool}
use mathlib.Core.Logic.{inl, inr}
use mathlib.Core.List.{List, [], ◌∷◌, Perm}
use mathlib.Core.List.Perm
use hotelia.Prelude.Tests.{if◌then◌else◌, Bool-cases}

module _ {A : Type 0} (before : A → A → Bool) where
  unfoldable pub insert_row : A → List A → List A
  insert_row a [] = a ∷ []
  insert_row a (b ∷ t) = if before b a then b ∷ insert_row a t else a ∷ b ∷ t

  unfoldable pub order_by : List A → List A
  unfolding insert_row
  order_by [] = []
  order_by (a ∷ t) = insert_row a (order_by t)

  insert_row-perm : (a : A) (t : List A) → Perm (insert_row a t) (a ∷ t)
  unfolding insert_row
  insert_row-perm a [] = Perm.refl (a ∷ [])
  insert_row-perm a (b ∷ t) = elim (Bool-cases (before b a)) [
    | inl e ↦ rw e (Perm.trans (Perm.cons b (insert_row-perm a t)) (Perm.swap a b t))
    | inr e ↦ rw e (Perm.refl (a ∷ b ∷ t))
  ]

  pub order_by-perm : (t : List A) → Perm (order_by t) t
  unfolding order_by
  order_by-perm [] = Perm.refl []
  order_by-perm (a ∷ t) =
      Perm.trans (insert_row-perm a (order_by t)) (Perm.cons a (order_by-perm t))
