-- ===== src/Folios/Tests.antt =====
-- Runs of the ledger service, and the theorems about it at concrete tables.
use hotelia.Prelude.{◌≡◌, ◌≢◌, refl, codes, List, [], ◌∷◌, ◌++◌, none, some}
use hotelia.Prelude.Int.{pos, ◌+ℤ◌, ◌-ℤ◌, ◌*ℤ◌, div_floor}
use hotelia.Prelude.Table.{select}
use hotelia.Folios.Row.{
  validated_reversal, night_audit_closed, Day, open_, master, charge, room, FolioLineItem, day_open,
  Report, Books, raised, committed, item_already_reversed,
}
use hotelia.Folios.Service.{
  PostLineItemInput, ReverseLineItemInput, add_audit, post_line_item, posting_date, posted_item,
  add_item, reverse_line_item, reversal_item,
}
use hotelia.Folios.Transfer.{TransferItemInput, move_item, transfer_folio_item}
use hotelia.Folios.Closing.{
  CloseBusinessDayInput, upsert_day, report_of, close_business_day, is_dated,
}
use hotelia.Folios.Balance.{
  IsBalanced, items_owed, transfers_owed, posting, Steps, stop, then_, Steps-IsBalanced,
}
use hotelia.Folios.Items.{Steps-items, reverse_once}
use hotelia.Folios.Closed.{closed_day_refuses_posts}
use hotelia.Folios.Moving.{UniqueFolios, total_balance, transfer_conserves, transfer_repeats}

abbrev last_of_february : Day
last_of_february = record { year = 2025; month = 2; day = 28 }

abbrev first_of_march : Day
first_of_march = record { year = 2025; month = 3; day = 1 }

abbrev dinner : FolioLineItem
dinner = record {
  id = 5;
  folio_id = 1;
  kind = charge;
  source_module = room;
  description = codes "Dinner";
  quantity = pos 100;
  unit_price = pos 1000;
  tax_rate = pos 1600;
  tax_amount = pos 160;
  discount_amount = pos 0;
  total = pos 1160;
  business_date = last_of_february;
  posted_by = none;
  reverses_item_id = none;
}

abbrev books : Books
books = record {
  folios =
      record {
        id = 1;
        property_id = 7;
        reservation_id = 21;
        guest_id = 31;
        type = master;
        status = open_;
        currency = codes "KES";
        balance = pos 1160;
      }
      ∷ record {
        id = 2;
        property_id = 7;
        reservation_id = 21;
        guest_id = 31;
        type = master;
        status = open_;
        currency = codes "KES";
        balance = pos 0;
      }
      ∷ [];
  items = dinner ∷ [];
  transfers = [];
  days =
      record { property_id = 7; business_date = last_of_february; status = day_open; report = none }
      ∷ [];
  audit = [];
}

abbrev minibar : PostLineItemInput
minibar = record {
  folio_id = 1;
  property_id = 7;
  source_module = room;
  description = codes "Minibar";
  quantity = some (pos 150);
  unit_price = pos 333;
  tax_rate = some (pos 1600);
  discount_amount = none;
  posted_by = none;
  business_date = none;
}

-- Past midnight the charge belongs to the active day, the last of February; it is dated a month
-- later.
posts_wrong_month :
    posting_date 7 first_of_march none books.days ≡ record { year = 2025; month = 3; day = 28 }
unfolding posting_date
posts_wrong_month = refl

-- 3.33 for one and a half, with 16 % tax.
posts_rounded : (posted_item 9 first_of_march minibar).total ≡ pos 580
unfolding posted_item ◌+ℤ◌ ◌-ℤ◌ ◌*ℤ◌ div_floor
posts_rounded = refl

abbrev undo : ReverseLineItemInput
undo = record { property_id = 7; line_item_id = 5; reversed_by = 40; reason = codes "mistake" }

abbrev split : TransferItemInput
split = record {
  property_id = 7;
  line_item_id = 5;
  from_folio_id = 1;
  to_folio_id = 2;
  reason = codes "split";
  transferred_by = 40;
}

abbrev audit : CloseBusinessDayInput
audit = record {
  property_id = 7;
  business_date = last_of_february;
  closed_by = 40;
  cutoff_time = none;
}

abbrev posted : Books
posted = add_item (posted_item 9 (posting_date 7 first_of_march none books.days) minibar) books

post_step : Steps books posted
unfolding post_line_item
post_step = then_ books posted posted (posting 9 first_of_march minibar _ refl) (stop posted)

Steps-IsBalanced_example : IsBalanced posted
unfolding items_owed transfers_owed ◌+ℤ◌
Steps-IsBalanced_example = Steps-IsBalanced books posted post_step (refl, (refl, tt))

Steps-items_example : (ys : List FolioLineItem) × (posted.items ≡ books.items ++ ys)
Steps-items_example = Steps-items books posted post_step

abbrev undone : Books
undone =
    add_audit (record { property_id = 7; user_id = 40; action = validated_reversal })
      (add_item (reversal_item 10 first_of_march undo dinner) books)

reverse_once_example :
    reverse_line_item 11 first_of_march undo undone ≡ raised item_already_reversed
unfolding reverse_line_item
reverse_once_example =
    reverse_once 10 11 first_of_march first_of_march undo undo books undone undone
      (reversal_item 10 first_of_march undo dinner) refl (stop undone) refl

abbrev report : Report
report = report_of audit (select (is_dated last_of_february) books.items)

abbrev audited : Books
audited =
    add_audit (record { property_id = 7; user_id = 40; action = night_audit_closed })
      (record books { days = upsert_day audit report books.days })

close_step : close_business_day audit books ≡ committed (report, audited)
unfolding close_business_day
close_step = refl

abbrev dated_minibar : PostLineItemInput
dated_minibar = record minibar { business_date = some last_of_february }

abbrev refused : FolioLineItem × Books
refused = (dinner, books)

closed_day_refuses_posts_example :
    post_line_item 9 first_of_march dated_minibar audited ≢ committed refused
closed_day_refuses_posts_example =
    closed_day_refuses_posts audit books audited audited report close_step (stop audited) 9
      first_of_march dated_minibar refused refl refl

transfer_repeats_example :
    transfer_folio_item split (move_item split dinner books)
    ≡ committed (dinner, move_item split dinner (move_item split dinner books))
unfolding transfer_folio_item
transfer_repeats_example = transfer_repeats split books (move_item split dinner books) dinner refl

unique_folios : UniqueFolios books.folios
unique_folios = (((λ e. cc), tt), (tt, tt))

transfer_conserves_example :
    total_balance (move_item split dinner books).folios ≡ total_balance books.folios
unfolding transfer_folio_item
transfer_conserves_example =
    transfer_conserves split books (move_item split dinner books) dinner unique_folios refl
