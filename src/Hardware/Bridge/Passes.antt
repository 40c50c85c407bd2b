-- ===== src/Hardware/Bridge/Passes.antt =====
-- A pass over the offline queue that claims until nothing is left: what it keeps, how it ends.
use hotelia.Prelude.{◌≡◌, ◌∷◌, ◌++◌, true, false, sym, All, In, All-In, subst, inl, inr}
use hotelia.Prelude.Table.Split.{All-replace, In-replaced}
use hotelia.Offline.Action.{OfflineActionRecord}
use hotelia.Offline.Store.{Actions, claimable}

-- Row by row, each turn by the relation `R`.
pub data Passes (R : OfflineActionRecord → OfflineActionRecord → Type 0)
    : Actions → Actions → Type 0 where
  done : (t : Actions) → All (λ a. claimable a ≡ false) t → Passes R t t
  turn :
      (a b : OfflineActionRecord) (xs ys u : Actions)
      → claimable a ≡ true
      → R a b
      → Passes R (xs ++ b ∷ ys) u
      → Passes R (xs ++ a ∷ ys) u

module _ {R : OfflineActionRecord → OfflineActionRecord → Type 0} where
  pub Passes-keeps :
      (P : OfflineActionRecord → Type 0)
      → ((a b : OfflineActionRecord) → claimable a ≡ true → R a b → P a → P b)
      → {t u : Actions} → Passes R t u
      → All P t
      → All P u × All (λ a. claimable a ≡ false) u
  Passes-keeps P keep (done t h) k = (k, h)
  Passes-keeps P keep (turn a b xs ys u c r p) k =
      Passes-keeps P keep p (All-replace P a b xs ys k (keep a b c r))

  -- The row that a row of the table has become by the end of the pass.
  pub Passes-follows :
      (P : OfflineActionRecord → Type 0)
      → ((a b : OfflineActionRecord) → claimable a ≡ true → R a b → P a → P b)
      → (c : OfflineActionRecord) → {t u : Actions} → Passes R t u
      → In c t
      → P c
      → (b : OfflineActionRecord) × In b u × P b × (claimable b ≡ false)
  Passes-follows P keep c (done t h) m k = (c, m, k, All-In (λ a. claimable a ≡ false) c t h m)
  Passes-follows P keep c (turn a b xs ys u n r p) m k = elim (In-replaced c a b xs ys m) [
    | inl (e, i) ↦ Passes-follows P keep b p i (keep a b n r (subst P (sym e) k))
    | inr i ↦ Passes-follows P keep c p i k
  ]
