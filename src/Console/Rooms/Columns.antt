-- ===== src/Console/Rooms/Columns.antt =====
-- Which rooms stand in the columns of `Housekeeping`
-- (apps/console/src/renderer/views/Housekeeping.tsx).
use hotelia.Prelude.{
  ℕ, ◌≡◌, refl, Text, codes, List, [], ◌∷◌, ◌++◌, Bool, true, false, inl, inr, arith, if◌then◌else◌,
  same_text, starts_with, Bool-cases,
}
use mathlib.Core.List.{Perm, perm_middle}
use mathlib.Core.List.Perm
use hotelia.Prelude.Table.{select, count}
use hotelia.Inventory.Rooms.{
  RoomStatus, vacant_dirty, vacant_clean, vacant_inspected, occupied_dirty, occupied_clean,
  out_of_order, out_of_service,
}
use hotelia.Pms.Board.{HousekeepingTask}
use hotelia.Console.Rooms.{groups, in_group, by_status, cards}

abbrev is_vacant : RoomStatus → Bool
is_vacant vacant_dirty = true
is_vacant vacant_clean = true
is_vacant vacant_inspected = true
is_vacant _ = false

abbrev pub vacant_task : HousekeepingTask → Bool
vacant_task t = is_vacant t.status

-- How many of the columns show a task.
abbrev showing : HousekeepingTask → List Text → ℕ
showing t gs = count (λ g. in_group g t.status) gs

showing_status :
    (s : RoomStatus) → count (λ g. in_group g s) groups ≡ (if is_vacant s then 1 else 0)
unfolding in_group same_text starts_with
showing_status vacant_dirty = refl
showing_status vacant_clean = refl
showing_status vacant_inspected = refl
showing_status occupied_dirty = refl
showing_status occupied_clean = refl
showing_status out_of_order = refl
showing_status out_of_service = refl

by_status-cons :
    (g : Text) (t : HousekeepingTask) (ts : List HousekeepingTask)
    → by_status g (t ∷ ts) ≡ (if in_group g t.status then t ∷ by_status g ts else by_status g ts)
unfolding by_status
by_status-cons g t ts = refl

-- A task that no column shows adds no card.
cards-none :
    (gs : List Text) (t : HousekeepingTask) (ts : List HousekeepingTask)
    → showing t gs ≡ 0
    → cards gs (t ∷ ts) ≡ cards gs ts
unfolding cards
cards-none [] t ts h = refl
cards-none (g ∷ gs) t ts h = elim (Bool-cases (in_group g t.status)) [
  | inl e ↦ absurd (ground (arith, h, e))
  | inr e ↦
      let k : showing t gs ≡ 0 = rw e at h in
      rw (by_status-cons g t ts, e, cards-none gs t ts k) refl
]

-- A task that one column shows adds one card.
cards-one :
    (gs : List Text) (t : HousekeepingTask) (ts : List HousekeepingTask)
    → showing t gs ≡ 1
    → Perm (cards gs (t ∷ ts)) (t ∷ cards gs ts)
unfolding cards
cards-one [] t ts h = absurd (omega (arith, h))
cards-one (g ∷ gs) t ts h = elim (Bool-cases (in_group g t.status)) [
  | inl e ↦
      let k : showing t gs ≡ 0 = ground (arith, h, e) in
      rw (by_status-cons g t ts, e, cards-none gs t ts k)
        (Perm.refl (t ∷ (by_status g ts ++ cards gs ts)))
  | inr e ↦
      let k : showing t gs ≡ 1 = rw e at h in
      rw (by_status-cons g t ts, e)
        (Perm.trans (Perm.append_left (by_status g ts) (cards-one gs t ts k))
          (perm_middle (by_status g ts) (cards gs ts)))
]

no_card : (gs : List Text) → cards gs [] ≡ []
unfolding cards by_status
no_card [] = refl
no_card (g ∷ gs) = no_card gs

never_out_of_order : (s : RoomStatus) → in_group (codes "OOO") s ≡ false
unfolding in_group same_text starts_with
never_out_of_order vacant_dirty = refl
never_out_of_order vacant_clean = refl
never_out_of_order vacant_inspected = refl
never_out_of_order occupied_dirty = refl
never_out_of_order occupied_clean = refl
never_out_of_order out_of_order = refl
never_out_of_order out_of_service = refl

out_of_order_empty : (tasks : List HousekeepingTask) → by_status (codes "OOO") tasks ≡ []
unfolding by_status
out_of_order_empty [] = refl
out_of_order_empty (t ∷ ts) = rw (never_out_of_order t.status) (out_of_order_empty ts)

vacant_cards :
    (tasks : List HousekeepingTask) → Perm (cards groups tasks) (select vacant_task tasks)
vacant_cards [] = rw (no_card groups) Perm.nil
vacant_cards (t ∷ ts) = elim (Bool-cases (is_vacant t.status)) [
  | inl e ↦
      let k : showing t groups ≡ 1 = rw e at (showing_status t.status) in
      rw e (Perm.trans (cards-one groups t ts k) (Perm.cons t (vacant_cards ts)))
  | inr e ↦
      let k : showing t groups ≡ 0 = rw e at (showing_status t.status) in
      rw (e, cards-none groups t ts k) (vacant_cards ts)
]

-- The cards of the four columns are, up to their order, the tasks of the vacant rooms, each once:
-- no occupied room has a card, and none that is out of order or out of service, for which the last
-- column is meant; that one is empty.
pub cards-groups :
    (tasks : List HousekeepingTask)
    → Perm (cards groups tasks) (select vacant_task tasks) × (by_status (codes "OOO") tasks ≡ [])
cards-groups tasks = (vacant_cards tasks, out_of_order_empty tasks)
