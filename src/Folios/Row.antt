-- ===== src/Folios/Row.antt =====
-- The rows that the ledger service works on (packages/database/src/ledger.ts, as the tables of
-- packages/database/prisma/schema.prisma hold them). Money is in cents, a quantity in hundredths, a
-- tax rate in ten-thousandths, as the decimal columns are. A date is a day of the calendar: the
-- columns keep no time of day, and the clock is taken in the zone of the database.
use hotelia.Prelude.{
  ℕ, ◌+◌, ◌-◌, ◌*◌, ◌%◌, Text, List, Option, Bool, true, false, ◌&&◌, ◌||◌, not, leb, ◌==◌,
  if◌then◌else◌,
}
use hotelia.Prelude.Int.{ℤ}

pub record Day : Type 0 where
  pub year : ℕ
  pub month : ℕ
  pub day : ℕ

abbrev pub same_day : Day → Day → Bool
same_day a b = a.year == b.year && a.month == b.month && a.day == b.day

abbrev is_leap : ℕ → Bool
is_leap y = y % 4 == 0 && (not (y % 100 == 0) || y % 400 == 0)

-- Months count from 1.
abbrev days_in_month : ℕ → ℕ → ℕ
days_in_month y m =
    if m == 2
    then if is_leap y then 29 else 28
    else if m == 4 || m == 6 || m == 9 || m == 11
    then 30
    else 31

-- `Date.setDate`: a day that the month does not have runs over into the next month.
unfoldable pub set_date : Day → ℕ → Day
set_date d n =
    if leb n (days_in_month d.year d.month)
    then record d { day = n }
    else if d.month == 12
    then record { year = d.year + 1; month = 1; day = n - 31 }
    else record d { month = d.month + 1; day = n - days_in_month d.year d.month }

-- Days in the order of the calendar.
abbrev pub day_code : Day → ℕ
day_code d = (d.year * 13 + d.month) * 32 + d.day

pub data FolioStatus : Type 0 where
  open_ closed disputed written_off : FolioStatus

abbrev pub is_open : FolioStatus → Bool
is_open open_ = true
is_open _ = false

pub data FolioType : Type 0 where
  master company personal split : FolioType

pub data LineItemKind : Type 0 where
  charge payment reversal void : LineItemKind

abbrev pub is_reversal : LineItemKind → Bool
is_reversal reversal = true
is_reversal _ = false

pub data LineItemSource : Type 0 where
  room pos_food pos_beverage pos_retail minibar spa laundry parking tax discount : LineItemSource
  adjustment payment_source refund : LineItemSource

abbrev pub is_room : LineItemSource → Bool
is_room room = true
is_room _ = false

pub record Folio : Type 0 where
  pub id : ℕ
  pub property_id : ℕ
  pub reservation_id : ℕ
  pub guest_id : ℕ
  pub type : FolioType
  pub status : FolioStatus
  pub currency : Text
  pub balance : ℤ

pub record FolioLineItem : Type 0 where
  pub id : ℕ
  pub folio_id : ℕ
  pub kind : LineItemKind
  pub source_module : LineItemSource
  pub description : Text
  pub quantity : ℤ
  pub unit_price : ℤ
  pub tax_rate : ℤ
  pub tax_amount : ℤ
  pub discount_amount : ℤ
  pub total : ℤ
  pub business_date : Day
  pub posted_by : Option ℕ
  pub reverses_item_id : Option ℕ

pub record FolioTransfer : Type 0 where
  pub from_folio_id : ℕ
  pub to_folio_id : ℕ
  pub line_item_id : ℕ
  pub amount : ℤ
  pub reason : Text
  pub transferred_by : ℕ

pub data DayStatus : Type 0 where
  day_open day_closed : DayStatus

abbrev pub is_closed : DayStatus → Bool
is_closed day_closed = true
is_closed day_open = false

pub record ReportSnapshot : Type 0 where
  pub line_item_count : ℕ
  pub charges : ℕ
  pub reversals : ℕ

-- The figures that closing a day writes.
pub record Report : Type 0 where
  pub closed_by : ℕ
  pub cutoff_time : Text
  pub net_revenue : ℤ
  pub room_revenue : ℤ
  pub tax_collected : ℤ
  pub snapshot : ReportSnapshot

pub record BusinessDay : Type 0 where
  pub property_id : ℕ
  pub business_date : Day
  pub status : DayStatus
  pub report : Option Report

-- What an audit entry keeps of a charge at the point of sale.
pub record BarrierEvidence : Type 0 where
  pub room_number : Text
  pub verified_last_name : Text
  pub matched_guest_id : ℕ
  pub reservation_id : ℕ
  pub description : Text
  pub amount : ℤ

pub data AuditAction : Type 0 where
  validated_reversal night_audit_closed : AuditAction
  pos_charge_validated : BarrierEvidence → AuditAction

pub record AuditLog : Type 0 where
  pub property_id : ℕ
  pub user_id : ℕ
  pub action : AuditAction

-- The tables that the service reads and writes.
pub record Books : Type 0 where
  pub folios : List Folio
  pub items : List FolioLineItem
  pub transfers : List FolioTransfer
  pub days : List BusinessDay
  pub audit : List AuditLog

pub data LedgerError : Type 0 where
  business_day_closed folio_closed item_not_found item_already_reversed : LedgerError
  folio_mismatch : LedgerError

-- A transaction that raises is rolled back: it has no tables of its own.
pub data Result (A : Type 0) : Type 0 where
  raised : LedgerError → Result A
  committed : A → Result A
