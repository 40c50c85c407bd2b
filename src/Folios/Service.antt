-- ===== src/Folios/Service.antt =====
-- The operations of the ledger service (packages/database/src/ledger.ts). Each is one transaction:
-- it maps the tables to its result with new tables, or raises. Fresh identifiers and the clock are
-- arguments. The dates of the clock are days, as the columns that they are written to.
use hotelia.Prelude.{
  ℕ, Text, codes, List, [], ◌∷◌, ◌++◌, Option, none, some, Bool, true, false, ◌&&◌, ◌||◌, not, ltb,
  ◌==◌, if◌then◌else◌, or_else, is_some,
}
use hotelia.Prelude.Int.{ℤ, pos, ◌+ℤ◌, ◌-ℤ◌, ◌*ℤ◌, neg, div_floor}
use hotelia.Prelude.Table.{select, find, update}
use hotelia.Folios.Row.{
  Day, same_day, set_date, day_code, is_open, charge, reversal, is_reversal, LineItemSource, Folio,
  FolioLineItem, is_closed, BusinessDay, AuditLog, validated_reversal, Books, business_day_closed,
  folio_closed, item_not_found, item_already_reversed, folio_mismatch, Result, raised, committed,
}

pub record PostLineItemInput : Type 0 where
  pub folio_id : ℕ
  pub property_id : ℕ
  pub source_module : LineItemSource
  pub description : Text
  pub quantity : Option ℤ
  pub unit_price : ℤ
  pub tax_rate : Option ℤ
  pub discount_amount : Option ℤ
  pub posted_by : Option ℕ
  pub business_date : Option Day

pub record ReverseLineItemInput : Type 0 where
  pub property_id : ℕ
  pub line_item_id : ℕ
  pub reversed_by : ℕ
  pub reason : Text

abbrev pub is_folio : ℕ → ℕ → Folio → Bool
is_folio i p f = f.id == i && f.property_id == p

abbrev pub is_day : ℕ → Day → BusinessDay → Bool
is_day p d b = b.property_id == p && same_day b.business_date d

abbrev pub is_item : ℕ → FolioLineItem → Bool
is_item i x = x.id == i

abbrev pub has_folio_id : ℕ → Folio → Bool
has_folio_id i f = f.id == i

-- `balance: { increment: amount }`
abbrev pub credited : ℤ → Folio → Folio
credited amount f = record f { balance = f.balance +ℤ amount }

-- `assertBusinessDayOpen`, as a test: false where it raises.
unfoldable pub business_day_is_open : ℕ → Day → List BusinessDay → Bool
business_day_is_open p d days = elim (find (is_day p d) days) [
  | none ↦ true
  | some b ↦ not (is_closed b.status)
]

abbrev is_active : ℕ → BusinessDay → Bool
is_active p b = b.property_id == p && not (is_closed b.status)

-- `orderBy: { businessDate: 'desc' }`, the first row.
latest : List BusinessDay → Option BusinessDay
latest [] = none
latest (b ∷ bs) =
    let rest = latest bs in
    some (elim rest [
      | none ↦ b
      | some c ↦ if ltb (day_code b.business_date) (day_code c.business_date) then c else b
    ])

unfoldable pub active_day : ℕ → List BusinessDay → Option BusinessDay
unfolding latest
active_day p days = latest (select (is_active p) days)

-- The date that a charge is posted on.
unfoldable pub posting_date : ℕ → Day → Option Day → List BusinessDay → Day
unfolding active_day set_date
posting_date p now (some d) days = d
posting_date p now none days = elim (active_day p days) [
  | none ↦ now
  | some b ↦ if same_day b.business_date now then now else set_date now b.business_date.day
]

-- Math.round(unitPrice * quantity * 100) / 100
unfoldable pub gross_of : ℤ → ℤ → ℤ
gross_of price quantity = div_floor (price *ℤ quantity +ℤ pos 50) 100

-- Math.round((gross - discount) * taxRate * 100) / 100
unfoldable pub tax_of : ℤ → ℤ → ℤ
tax_of net rate = div_floor (net *ℤ rate +ℤ pos 5000) 10000

unfoldable pub posted_item : ℕ → Day → PostLineItemInput → FolioLineItem
unfolding gross_of tax_of
posted_item i date input =
    let quantity = or_else input.quantity (pos 100) in
    let tax_rate = or_else input.tax_rate (pos 0) in
    let gross = gross_of input.unit_price quantity in
    let discount = or_else input.discount_amount (pos 0) in
    let tax_amount = tax_of (gross -ℤ discount) tax_rate in
    record {
      id = i;
      folio_id = input.folio_id;
      kind = charge;
      source_module = input.source_module;
      description = input.description;
      quantity = quantity;
      unit_price = input.unit_price;
      tax_rate = tax_rate;
      tax_amount = tax_amount;
      discount_amount = discount;
      total = gross -ℤ discount +ℤ tax_amount;
      business_date = date;
      posted_by = input.posted_by;
      reverses_item_id = none;
    }

-- The statements of `postLineItem` that write.
abbrev pub add_item : FolioLineItem → Books → Books
add_item x b = record b {
  items = b.items ++ x ∷ [];
  folios = update (has_folio_id x.folio_id) (credited x.total) b.folios;
}

unfoldable pub post_line_item : ℕ → Day → PostLineItemInput → Books → Result (FolioLineItem × Books)
unfolding business_day_is_open posting_date posted_item
post_line_item i now input b = elim (find (is_folio input.folio_id input.property_id) b.folios) [
  | none ↦ raised folio_mismatch
  | some f ↦
      let x = posted_item i (posting_date input.property_id now input.business_date b.days) input in
      if not (is_open f.status)
      then raised folio_closed
      else if business_day_is_open input.property_id (or_else input.business_date now) b.days
      then committed (x, add_item x b)
      else raised business_day_closed
]

abbrev pub reverses : ℕ → FolioLineItem → Bool
reverses i x = elim x.reverses_item_id [ none ↦ false | some j ↦ is_reversal x.kind && j == i ]

abbrev pub reversal_item : ℕ → Day → ReverseLineItemInput → FolioLineItem → FolioLineItem
reversal_item i now input x = record {
  id = i;
  folio_id = x.folio_id;
  kind = reversal;
  source_module = x.source_module;
  description = codes "REVERSAL: " ++ x.description;
  quantity = x.quantity;
  unit_price = x.unit_price;
  tax_rate = x.tax_rate;
  tax_amount = neg x.tax_amount;
  discount_amount = neg x.discount_amount;
  total = neg x.total;
  business_date = now;
  posted_by = some input.reversed_by;
  reverses_item_id = some x.id;
}

abbrev pub add_audit : AuditLog → Books → Books
add_audit l b = record b { audit = b.audit ++ l ∷ [] }

abbrev pub reverse_found :
    ℕ → Day → ReverseLineItemInput → Books → FolioLineItem → Result (FolioLineItem × Books)
reverse_found i now input b x =
    if is_reversal x.kind || is_some (find (reverses x.id) b.items)
    then raised item_already_reversed
    else committed (
      reversal_item i now input x,
      add_audit
          (record {
            property_id = input.property_id;
            user_id = input.reversed_by;
            action = validated_reversal;
          })
          (add_item (reversal_item i now input x) b),
    )

-- The reversal comes back; the source also returns the original.
unfoldable pub reverse_line_item :
    ℕ → Day → ReverseLineItemInput → Books → Result (FolioLineItem × Books)
reverse_line_item i now input b = elim (find (is_item input.line_item_id) b.items) [
  | none ↦ raised item_not_found
  | some x ↦ reverse_found i now input b x
]
