-- ===== src/Pms/Charge.antt =====
-- A charge to a room (`posPostCharge` of apps/console/src/main/pms.ts).
use hotelia.Prelude.{
  ℕ, ◌+◌, ◌*◌, Text, List, [], ◌∷◌, ◌++◌, Option, none, some, if◌then◌else◌, or_else,
}
use hotelia.Prelude.Int.{ℤ, pos}
use hotelia.Prelude.Table.{select, find}
use hotelia.Tax.Engine.{round2}
use hotelia.Folios.Row.{
  Day, open_, master, Folio, charge, FolioLineItem, AuditLog, pos_charge_validated, Books,
}
use hotelia.Folios.Service.{has_folio_id, add_item, add_audit}
use hotelia.Pms.Row.{Reservation, Hotel}
use hotelia.Pms.Barrier.{
  PosChargeInput, PosChargeResult, PosOutcome, barred, charged, no_active_stay, lastname_mismatch,
  is_open_folio_of, pick_open_folio, is_config, lowest_rate, source_module_for, same_name,
  stay_in_room,
}

-- The folio that is created for a stay that has none open.
abbrev pub new_folio : ℕ → ℕ → Reservation → Folio
new_folio i p s = record {
  id = i;
  property_id = p;
  reservation_id = s.id;
  guest_id = s.guest.id;
  type = master;
  status = open_;
  currency = s.currency;
  balance = pos 0;
}

-- The folio that the charge goes to, and the tables with it.
abbrev pub folio_for : ℕ → ℕ → Reservation → Books → Option Folio → ℕ × Books
folio_for i p s b none = (i, record b { folios = b.folios ++ new_folio i p s ∷ [] })
folio_for i p s b (some f) = (f.id, b)

-- `round2(input.amount)`, in cents
abbrev pub amount_of : PosChargeInput → ℕ
amount_of input = round2 input.amount 100

abbrev pub tax_amount_of : PosChargeInput → ℕ → ℕ
tax_amount_of input rate = round2 (amount_of input * rate) 10000

abbrev pub pos_item : ℕ → ℕ → Day → PosChargeInput → ℕ → FolioLineItem
pos_item i folio now input rate = record {
  id = i;
  folio_id = folio;
  kind = charge;
  source_module = source_module_for input.description;
  description = input.description;
  quantity = pos 100;
  unit_price = pos (amount_of input);
  tax_rate = pos rate;
  tax_amount = pos (tax_amount_of input rate);
  discount_amount = pos 0;
  total = pos (amount_of input + tax_amount_of input rate);
  business_date = now;
  posted_by = none;
  reverses_item_id = none;
}

abbrev pub pos_audit : PosChargeInput → Reservation → AuditLog
pos_audit input s = record {
  property_id = input.property_id;
  user_id = or_else input.operator_id input.property_id;
  action = pos_charge_validated (record {
    room_number = input.room_number;
    verified_last_name = input.last_name;
    matched_guest_id = s.guest.id;
    reservation_id = s.id;
    description = input.description;
    amount = pos (amount_of input);
  });
}

abbrev pub balance_in : ℕ → List Folio → ℤ
balance_in i t = elim (find (has_folio_id i) t) [ none ↦ pos 0 | some f ↦ f.balance ]

abbrev pub pos_result : PosChargeInput → Reservation → ℕ → FolioLineItem → Books → PosChargeResult
pos_result input s rate x b = record {
  line_item_id = x.id;
  folio_id = x.folio_id;
  description = input.description;
  amount = amount_of input;
  tax_rate = rate;
  tax_amount = tax_amount_of input rate;
  total = amount_of input + tax_amount_of input rate;
  balance = balance_in x.folio_id b.folios;
  room_number = input.room_number;
  verified_last_name = input.last_name;
  matched_guest_id = s.guest.id;
  reservation_id = s.id;
}

-- The folio that a stay is charged on, with the tables that have it.
unfoldable pub charged_folio : ℕ → PosChargeInput → Reservation → Hotel → ℕ × Books
unfolding pick_open_folio
charged_folio j input s h =
    folio_for j input.property_id s h.books
      (pick_open_folio (select (is_open_folio_of s.id) h.books.folios))

unfoldable pub rate_of : PosChargeInput → Hotel → ℕ
unfolding lowest_rate
rate_of input h = lowest_rate (find (is_config input.property_id) h.configs)

abbrev pub charged_item : ℕ → ℕ → Day → PosChargeInput → Reservation → Hotel → FolioLineItem
charged_item i j now input s h =
    pos_item i (charged_folio j input s h).0 now input (rate_of input h)

-- The statements behind the barrier, for a stay that has passed it.
abbrev pub charged_books : ℕ → ℕ → Day → PosChargeInput → Reservation → Hotel → Books
charged_books i j now input s h =
    add_audit (pos_audit input s)
      (add_item (charged_item i j now input s h) (charged_folio j input s h).1)

unfoldable pub charge_stay : ℕ → ℕ → Day → PosChargeInput → Reservation → Hotel → PosOutcome
unfolding charged_folio rate_of
charge_stay i j now input s h =
    let b = charged_books i j now input s h in
    charged (pos_result input s (rate_of input h) (charged_item i j now input s h) b)
      (record h { books = b })

-- `i` and `j` are fresh identifiers, for the item and for a folio.
unfoldable pub pos_post_charge : (Text → Text) → ℕ → ℕ → Day → PosChargeInput → Hotel → PosOutcome
pos_post_charge lower i j now input h = elim (stay_in_room input.property_id input.room_number h) [
  | none ↦ barred no_active_stay
  | some s ↦
      if same_name lower s.guest.last_name input.last_name
      then charge_stay i j now input s h
      else barred lastname_mismatch
]
