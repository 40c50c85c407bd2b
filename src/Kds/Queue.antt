-- ===== src/Kds/Queue.antt =====
-- The orders of the kitchen display and what a frame does to them (apps/kds/app/page.tsx). Prices
-- and totals are in cents.
use hotelia.Prelude.{
  ℕ, Text, codes, List, ◌∷◌, Option, none, some, Bool, true, false, ◌||◌, not, same_text,
  if◌then◌else◌,
}
use hotelia.Prelude.Table.{select, update}

pub record OrderLine : Type 0 where
  pub menu_item_id : Text
  pub name : Text
  pub quantity : ℕ
  pub price : ℕ

pub record OrderEvent : Type 0 where
  pub order_id : Text
  pub room_number : Option Text
  pub items : List OrderLine
  pub total : ℕ

pub data Column : Type 0 where
  pending preparing ready : Column

pub record OrderCard : Type 0 where
  pub order_id : Text
  pub created_at : ℕ
  pub room_number : Option Text
  pub items : List OrderLine
  pub total : ℕ
  pub column : Column

abbrev pub has_order_id : Text → OrderCard → Bool
has_order_id i o = same_text o.order_id i

unfoldable pub move : List OrderCard → Text → Column → List OrderCard
move orders i c = update (has_order_id i) (λ o. record o { column = c }) orders

unfoldable pub remove_order : List OrderCard → Text → List OrderCard
remove_order orders i = select (λ o. not (has_order_id i o)) orders

abbrev pub card : ℕ → OrderEvent → OrderCard
card now e = record {
  order_id = e.order_id;
  created_at = now;
  room_number = e.room_number;
  items = e.items;
  total = e.total;
  column = pending;
}

unfoldable pub upsert : ℕ → List OrderCard → OrderEvent → List OrderCard
unfolding remove_order
upsert now orders e = card now e ∷ remove_order orders e.order_id

-- `JSON.parse` of a frame's data, as an order and as the `orderId` of a value; `none` where it
-- throws or the text is of another shape, and `some none` for a value without an `orderId`.
pub record Reader : Type 0 where
  pub order : Text → Option OrderEvent
  pub order_id : Text → Option (Option Text)

abbrev with_order : ℕ → List OrderCard → Option OrderEvent → Option (List OrderCard)
with_order now orders none = none
with_order now orders (some e) = some (upsert now orders e)

-- No card has an undefined identifier, so a value without one changes nothing.
abbrev with_id :
    List OrderCard → (Text → List OrderCard) → Option (Option Text) → Option (List OrderCard)
with_id orders f none = none
with_id orders f (some none) = some orders
with_id orders f (some (some i)) = some (f i)

-- `handleFrame`: the orders that the update gives, `none` where it throws.
unfoldable pub handle_frame : Reader → ℕ → Text → Text → List OrderCard → Option (List OrderCard)
unfolding move remove_order upsert
handle_frame r now event data_text orders =
    if same_text event (codes "order.placed")
    then with_order now orders (r.order data_text)
    else if same_text event (codes "order.confirmed")
    then with_id orders (λ i. move orders i pending) (r.order_id data_text)
    else if same_text event (codes "order.preparing")
    then with_id orders (λ i. move orders i preparing) (r.order_id data_text)
    else if same_text event (codes "order.ready")
    then with_id orders (λ i. move orders i ready) (r.order_id data_text)
    else if same_text event (codes "order.cancelled") || same_text event (codes "order.completed")
    then with_id orders (λ i. remove_order orders i) (r.order_id data_text)
    else some orders

abbrev pub same_column : Column → Column → Bool
same_column pending pending = true
same_column preparing preparing = true
same_column ready ready = true
same_column _ _ = false

-- The orders of one column, in the order of the display.
abbrev pub shown_in : Column → List OrderCard → List OrderCard
shown_in c orders = select (λ o. same_column o.column c) orders
