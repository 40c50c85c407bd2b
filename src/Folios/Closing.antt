-- ===== src/Folios/Closing.antt =====
-- The night audit, `closeBusinessDay` (packages/database/src/ledger.ts). The window of the items is
-- the day itself, since the column holds days.
use hotelia.Prelude.{
  ℕ, Text, codes, List, [], ◌∷◌, ◌++◌, Option, some, Bool, if◌then◌else◌, or_else, is_some, length,
}
use hotelia.Prelude.Int.{ℤ, pos, ◌+ℤ◌, ◌-ℤ◌, ltb_ℤ}
use hotelia.Prelude.Table.{select, find, update, count}
use hotelia.Folios.Row.{
  Day, same_day, is_reversal, is_room, FolioLineItem, day_closed, Report, BusinessDay,
  night_audit_closed, Books, business_day_closed, Result, raised, committed,
}
use hotelia.Folios.Service.{is_day, business_day_is_open, add_audit}

pub record CloseBusinessDayInput : Type 0 where
  pub property_id : ℕ
  pub business_date : Day
  pub closed_by : ℕ
  pub cutoff_time : Option Text

-- The charges with a positive total.
abbrev is_charge : FolioLineItem → Bool
is_charge x = ltb_ℤ (pos 0) x.total

abbrev pub is_dated : Day → FolioLineItem → Bool
is_dated d x = same_day x.business_date d

abbrev is_reversal_item : FolioLineItem → Bool
is_reversal_item x = is_reversal x.kind

abbrev is_room_item : FolioLineItem → Bool
is_room_item x = is_room x.source_module

-- `items.reduce((acc, i) => acc + f(i), 0)`
unfoldable pub sum_of : (FolioLineItem → ℤ) → List FolioLineItem → ℤ
sum_of f [] = pos 0
sum_of f (x ∷ xs) = f x +ℤ sum_of f xs

-- The figures of a day's items. A sum of cents needs no rounding.
unfoldable pub report_of : CloseBusinessDayInput → List FolioLineItem → Report
unfolding sum_of
report_of input xs = record {
  closed_by = input.closed_by;
  cutoff_time = or_else input.cutoff_time (codes "03:00");
  net_revenue = sum_of (λ x. x.total -ℤ x.tax_amount) xs;
  room_revenue = sum_of (λ x. x.total) (select is_room_item xs);
  tax_collected = sum_of (λ x. x.tax_amount) xs;
  snapshot = record {
    line_item_count = length xs;
    charges = count is_charge xs;
    reversals = count is_reversal_item xs;
  };
}

abbrev pub closed_day : Report → BusinessDay → BusinessDay
closed_day r b = record b { status = day_closed; report = some r }

-- `businessDay.upsert`
unfoldable pub upsert_day : CloseBusinessDayInput → Report → List BusinessDay → List BusinessDay
upsert_day input r t =
    if is_some (find (is_day input.property_id input.business_date) t)
    then update (is_day input.property_id input.business_date) (closed_day r) t
    else t
      ++ record {
        property_id = input.property_id;
        business_date = input.business_date;
        status = day_closed;
        report = some r;
      }
        ∷ []

unfoldable pub close_business_day : CloseBusinessDayInput → Books → Result (Report × Books)
unfolding upsert_day report_of business_day_is_open
close_business_day input b =
    let r = report_of input (select (is_dated input.business_date) b.items) in
    if business_day_is_open input.property_id input.business_date b.days
    then committed (
      r,
      add_audit
          (record {
            property_id = input.property_id;
            user_id = input.closed_by;
            action = night_audit_closed;
          })
          (record b { days = upsert_day input r b.days }),
    )
    else raised business_day_closed
