-- ===== src/Kds/Columns.antt =====
-- The kitchen display as one small machine for each order (apps/kds/app/page.tsx).
use hotelia.Prelude.{
  ℕ, ◌≡◌, refl, sym, subst, some_eq, ◌∙◌, ap, Text, codes, List, [], ◌∷◌, Option, none, some, ◌||◌,
  not, inl, inr, arith, if◌then◌else◌, same_text, Bool-cases, Option-cases, same_text_iff,
}
use hotelia.Prelude.Table.{find, Absent, Unique, Unique-update, Unique-select}
use hotelia.Kds.Queue.{
  OrderEvent, OrderCard, Column, pending, preparing, ready, has_order_id, move, remove_order,
  upsert, Reader, handle_frame,
}

-- What a frame asks for.
pub data Update : Type 0 where
  placed : OrderEvent → Update
  moved : Text → Column → Update
  removed : Text → Update
  ignored : Update

abbrev placed_of : Option OrderEvent → Option Update
placed_of none = none
placed_of (some e) = some (placed e)

abbrev update_for : (Text → Update) → Option (Option Text) → Option Update
update_for f none = none
update_for f (some none) = some ignored
update_for f (some (some i)) = some (f i)

-- The meaning of an event, `none` where its data cannot be read.
unfoldable pub update_of : Reader → Text → Text → Option Update
update_of r event d =
    if same_text event (codes "order.placed")
    then placed_of (r.order d)
    else if same_text event (codes "order.confirmed")
    then update_for (λ i. moved i pending) (r.order_id d)
    else if same_text event (codes "order.preparing")
    then update_for (λ i. moved i preparing) (r.order_id d)
    else if same_text event (codes "order.ready")
    then update_for (λ i. moved i ready) (r.order_id d)
    else if same_text event (codes "order.cancelled") || same_text event (codes "order.completed")
    then update_for removed (r.order_id d)
    else some ignored

abbrev then_move : Column → Option Column → Option Column
then_move c none = none
then_move c (some b) = some c

-- The machine of the order `i`: `none` is an order that the display does not show.
abbrev pub next_column : Text → Update → Option Column → Option Column
next_column i (placed e) c = if same_text e.order_id i then some pending else c
next_column i (moved j b) c = if same_text j i then then_move b c else c
next_column i (removed j) c = if same_text j i then none else c
next_column i ignored c = c

abbrev apply : ℕ → List OrderCard → Update → List OrderCard
apply now orders (placed e) = upsert now orders e
apply now orders (moved i c) = move orders i c
apply now orders (removed i) = remove_order orders i
apply now orders ignored = orders

abbrev applied : ℕ → List OrderCard → Option Update → Option (List OrderCard)
applied now orders none = none
applied now orders (some u) = some (apply now orders u)

abbrev column : Option OrderCard → Option Column
column none = none
column (some o) = some o.column

-- The column that shows the order.
unfoldable pub column_of : Text → List OrderCard → Option Column
column_of i orders = column (find (has_order_id i) orders)

column_of-move :
    (i j : Text) (c : Column) (orders : List OrderCard)
    → column_of i (move orders j c) ≡ next_column i (moved j c) (column_of i orders)
unfolding column_of move
column_of-move i j c [] = ground arith
column_of-move i j c (o ∷ orders) = ground (
  arith,
  same_text_iff o.order_id i,
  same_text_iff o.order_id j,
  same_text_iff j i,
  column_of-move i j c orders,
)

column_of-remove_order :
    (i j : Text) (orders : List OrderCard)
    → column_of i (remove_order orders j) ≡ next_column i (removed j) (column_of i orders)
unfolding column_of remove_order
column_of-remove_order i j [] = ground arith
column_of-remove_order i j (o ∷ orders) = ground (
  arith,
  same_text_iff o.order_id i,
  same_text_iff o.order_id j,
  same_text_iff j i,
  column_of-remove_order i j orders,
)

column_of-apply :
    (i : Text) (now : ℕ) (u : Update) (orders : List OrderCard)
    → column_of i (apply now orders u) ≡ next_column i u (column_of i orders)
unfolding column_of upsert
column_of-apply i now (placed e) orders =
    ground (arith, same_text_iff e.order_id i, column_of-remove_order i e.order_id orders)
column_of-apply i now (moved j c) orders = column_of-move i j c orders
column_of-apply i now (removed j) orders = column_of-remove_order i j orders
column_of-apply i now ignored orders = refl

handle_frame-applied :
    (r : Reader) (now : ℕ) (event d : Text) (orders : List OrderCard)
    → handle_frame r now event d orders ≡ applied now orders (update_of r event d)
unfolding handle_frame update_of
handle_frame-applied r now event d orders = ground arith

abbrev and_then : {A B : Type 0} → (A → Option B) → Option A → Option B
and_then f none = none
and_then f (some a) = f a

-- Frames in order, each with the time at which it is read; `none` where one cannot be read.
unfoldable pub handle_frames :
    Reader → List (ℕ × Text × Text) → List OrderCard → Option (List OrderCard)
handle_frames r [] orders = some orders
handle_frames r ((now, event, d) ∷ fs) orders =
    and_then (handle_frames r fs) (handle_frame r now event d orders)

-- The machine of one order over the same frames.
unfoldable pub next_columns :
    Reader → Text → List (ℕ × Text × Text) → Option Column → Option (Option Column)
next_columns r i [] c = some c
next_columns r i ((now, event, d) ∷ fs) c =
    and_then (λ u. next_columns r i fs (next_column i u c)) (update_of r event d)

abbrev pub column_in : Text → Option (List OrderCard) → Option (Option Column)
column_in i none = none
column_in i (some orders) = some (column_of i orders)

-- The display refines the machines of its orders: after any frames the column that shows an order
-- is where its machine stands, and the frames can be read exactly if the machine says so.
pub handle_frames-next_columns :
    (r : Reader) (i : Text) (fs : List (ℕ × Text × Text)) (orders : List OrderCard)
    → column_in i (handle_frames r fs orders) ≡ next_columns r i fs (column_of i orders)
unfolding handle_frames next_columns
handle_frames-next_columns r i [] orders = refl
handle_frames-next_columns r i ((now, event, d) ∷ fs) orders =
    ap (λ o. column_in i (and_then (handle_frames r fs) o))
      (handle_frame-applied r now event d orders)
    ∙ elim (Option-cases (update_of r event d)) [
      | inl e ↦ rw (column_in, e) refl
      | inr (u, e) ↦
          rw (column_in, e)
            (handle_frames-next_columns r i fs (apply now orders u)
              ∙ ap (next_columns r i fs) (column_of-apply i now u orders))
    ]

remove_order-Absent :
    (i : Text) (orders : List OrderCard) → Absent OrderCard.order_id i (remove_order orders i)
unfolding remove_order
remove_order-Absent i [] = tt
remove_order-Absent i (o ∷ orders) = elim (Bool-cases (has_order_id i o)) [
  | inl e ↦ rw e (remove_order-Absent i orders)
  | inr e ↦
      rw e (λ k. ground (arith, k, e, same_text_iff o.order_id i), remove_order-Absent i orders)
]

-- One card for each order.
abbrev pub OneCard : List OrderCard → Type 0
OneCard = Unique OrderCard.order_id

apply-OneCard :
    (now : ℕ) (u : Update) (orders : List OrderCard) → OneCard orders → OneCard (apply now orders u)
unfolding upsert move remove_order
apply-OneCard now (placed e) orders h = (
  remove_order-Absent e.order_id orders,
  Unique-select OrderCard.order_id (λ o. not (has_order_id e.order_id o)) orders h,
)
apply-OneCard now (moved i c) orders h =
    Unique-update OrderCard.order_id (has_order_id i) (λ o. record o { column = c }) (λ o. refl)
      orders h
apply-OneCard now (removed i) orders h =
    Unique-select OrderCard.order_id (λ o. not (has_order_id i o)) orders h
apply-OneCard now ignored orders h = h

-- Frames keep the display at one card for each order.
handle_frames-OneCard :
    (r : Reader) (fs : List (ℕ × Text × Text)) (orders orders' : List OrderCard)
    → OneCard orders
    → handle_frames r fs orders ≡ some orders'
    → OneCard orders'
unfolding handle_frames
handle_frames-OneCard r [] orders orders' h e = subst OneCard (some_eq e) h
handle_frames-OneCard r ((now, event, d) ∷ fs) orders orders' h e =
    let read = ap (and_then (handle_frames r fs)) (handle_frame-applied r now event d orders) in
    elim (Option-cases (update_of r event d)) [
      | inl n ↦
          absurd (cc (ap (λ o. and_then (handle_frames r fs) (applied now orders o)) n, read, e))
      | inr (u, m) ↦
          handle_frames-OneCard r fs (apply now orders u) orders' (apply-OneCard now u orders h)
            (ap (λ o. and_then (handle_frames r fs) (applied now orders o)) (sym m) ∙ sym read ∙ e)
    ]
