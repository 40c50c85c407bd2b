-- ===== src/Pms/Listing.antt =====
-- What the boards show (apps/console/src/main/pms.ts).
use hotelia.Prelude.{
  ℕ, ◌≡◌, refl, sym, ap, ◌∙◌, Text, List, [], ◌∷◌, ◌++◌, none, some, Bool, false, inl, inr, arith,
  Bool-cases, Option-cases, ◌==◌, if◌then◌else◌, map, length, ==_iff,
}
use mathlib.Core.Path.{fun_ext}
use mathlib.Core.List.{Perm, append_assoc, append-nil}
use mathlib.Core.List.Perm
use hotelia.Prelude.Table.{select}
use hotelia.Prelude.Table.Order.{order_by-perm}
use hotelia.Folios.Row.{Day}
use hotelia.Pms.Row.{Room, WorkOrder, Hotel}
use hotelia.Pms.Board.{
  HousekeepingTask, is_listed, room_before, listed_rooms, board_room, front_desk_board,
  is_open_work, RoomTitles, titles_of, push_title, add_title, by_room, task_of, housekeeping_tasks,
}

-- The open work orders of a room, found one by one.
abbrev pub is_work_in : ℕ → WorkOrder → Bool
is_work_in i w = elim w.room_id [ none ↦ false | some j ↦ j == i ]

abbrev pub titles_in : ℕ → List WorkOrder → List Text
titles_in i ws = map (λ (w : WorkOrder). w.title) (select (is_work_in i) ws)

titles_of-push_title :
    (i j : ℕ) (t : Text) (m : RoomTitles)
    → titles_of i (push_title j t m) ≡ titles_of i m ++ (if j == i then t ∷ [] else [])
unfolding titles_of push_title
titles_of-push_title i j t [] = ground arith
titles_of-push_title i j t ((k, l) ∷ m) = elim (Bool-cases (k == j)) [
  | inl e ↦
      let o : (k == i) ≡ (j == i) = ap (λ n. n == i) ((==_iff k j).0 e) in
      elim (Bool-cases (j == i)) [
        | inl f ↦ rw (e, f, o ∙ f) refl
        | inr f ↦ rw (e, f, o ∙ f) (sym (append-nil (titles_of i m)))
      ]
  | inr e ↦ elim (Bool-cases (k == i)) [
    | inl f ↦ let g : (j == i) ≡ false = ground (arith, e, f) in rw (e, f, g) (sym (append-nil l))
    | inr f ↦ rw (e, f) (titles_of-push_title i j t m)
  ]
]

titles_in-cons :
    (i : ℕ) (w : WorkOrder) (ws : List WorkOrder)
    → titles_in i (w ∷ ws) ≡ titles_in i (w ∷ []) ++ titles_in i ws
titles_in-cons i w ws = elim (Bool-cases (is_work_in i w)) [ inl e ↦ rw e refl | inr e ↦ rw e refl ]

add_title-titles_in :
    (i : ℕ) (w : WorkOrder) (m : RoomTitles)
    → titles_of i (add_title w m) ≡ titles_of i m ++ titles_in i (w ∷ [])
add_title-titles_in i w m = elim (Option-cases w.room_id) [
  | inl e ↦ rw e (sym (append-nil (titles_of i m)))
  | inr (j, e) ↦ rw e (titles_of-push_title i j w.title m ∙ ground (arith))
]

titles_of-by_room :
    (i : ℕ) (ws : List WorkOrder) (m : RoomTitles)
    → titles_of i (by_room ws m) ≡ titles_of i m ++ titles_in i ws
unfolding by_room
titles_of-by_room i [] m = sym (append-nil (titles_of i m))
titles_of-by_room i (w ∷ ws) m =
    titles_of-by_room i ws (add_title w m)
    ∙ ap (λ l. l ++ titles_in i ws) (add_title-titles_in i w m)
    ∙ append_assoc (titles_of i m) (titles_in i (w ∷ [])) (titles_in i ws)
    ∙ ap (λ l. titles_of i m ++ l) (sym (titles_in-cons i w ws))

titles-reference : (i : ℕ) (ws : List WorkOrder) → titles_of i (by_room ws []) ≡ titles_in i ws
unfolding titles_of
titles-reference i ws = titles_of-by_room i ws []

-- A task without the grouping of work orders: it counts and names the open work orders of its room.
abbrev pub reference_task : ℕ → Day → Hotel → Room → HousekeepingTask
reference_task p today h r = record (task_of today h [] r) {
  open_work_orders = length (titles_in r.id (select (is_open_work p) h.work_orders));
  work_order_subjects = titles_in r.id (select (is_open_work p) h.work_orders);
}

-- The housekeeping list, which groups the open work orders in one pass, is the list that looks for
-- the titles of each room separately.
pub housekeeping_tasks-reference :
    (number_before : Text → Text → Bool) (p : ℕ) (today : Day) (h : Hotel)
    → housekeeping_tasks number_before p today h
      ≡ map (reference_task p today h) (listed_rooms number_before p h.rooms)
unfolding housekeeping_tasks
housekeeping_tasks-reference number_before p today h =
    ap (λ f. map f (listed_rooms number_before p h.rooms))
      (fun_ext λ r.
        ap
          (λ l. record (task_of today h [] r) {
            open_work_orders = length l;
            work_order_subjects = l;
          })
          (titles-reference r.id (select (is_open_work p) h.work_orders)))

-- The board shows every active room of the property once, and no other.
front_desk_board-perm :
    (number_before : Text → Text → Bool) (p : ℕ) (today : Day) (h : Hotel)
    → Perm
        (front_desk_board number_before p today h).rooms
        (map (board_room h) (select (is_listed p) h.rooms))
unfolding front_desk_board
front_desk_board-perm number_before p today h =
    Perm.map (board_room h)
      (order_by-perm (room_before number_before) (select (is_listed p) h.rooms))
