-- ===== src/Pms/Tests.antt =====
-- Runs of the property management store, and the theorems about it at a concrete hotel.
use hotelia.Prelude.{
  ◌≡◌, ◌↔◌, refl, Text, codes, [], ◌∷◌, none, some, Bool, true, false, same_text, ltb, map,
}
use hotelia.Prelude.Int.{pos}
use hotelia.Tax.Engine.{round2}
use hotelia.Inventory.Rooms.{occupied_clean}
use hotelia.Inventory.Channels.{deluxe}
use hotelia.Folios.Row.{Day, Books, open_, personal, pos_beverage, FolioLineItem}
use hotelia.Folios.Closing.{CloseBusinessDayInput, close_business_day, report_of, upsert_day}
use hotelia.Folios.Service.{add_audit}
use hotelia.Folios.Closed.{IsClosed}
use hotelia.Folios.Row.{night_audit_closed}
use hotelia.Pms.Row.{checked_in, Guest, Room, Reservation, WorkOrderStatus, Hotel}
use hotelia.Pms.Barrier.{
  PosChargeInput, PosChargeResult, charged, stay_in_room, pos_verify_guest, source_module_for,
}
use hotelia.Pms.Charge.{
  charge_stay, pos_post_charge, charged_books, charged_item, pos_result, rate_of,
}
use hotelia.Pms.Guarded.{Guarded, post_charge-Guarded}
use hotelia.Pms.Board.{listed_rooms, housekeeping_tasks}
use hotelia.Pms.Listing.{reference_task, housekeeping_tasks-reference}
use hotelia.Pms.Effects.{IsCharged, verify_of, post_iff_verified, post_after_close}

abbrev today : Day
today = record { year = 2025; month = 6; day = 3 }

abbrev amina : Guest
amina = record { id = 31; first_name = codes "Amina"; last_name = codes "otieno" }

abbrev stay : Reservation
stay = record {
  id = 21;
  property_id = 7;
  guest = amina;
  room_id = some 3;
  confirmation_no = codes "A1";
  status = checked_in;
  check_in_date = today;
  check_out_date = record { year = 2025; month = 6; day = 4 };
  currency = codes "KES";
}

abbrev room_at : Bool → Room
room_at active = record {
  id = 3;
  property_id = 7;
  number = codes "204";
  floor = some 2;
  type = deluxe;
  status = occupied_clean;
  base_rate = none;
  is_active = active;
}

abbrev books : Books
books = record {
  folios =
      record {
        id = 1;
        property_id = 7;
        reservation_id = 21;
        guest_id = 31;
        type = personal;
        status = open_;
        currency = codes "KES";
        balance = pos 0;
      }
      ∷ [];
  items = [];
  transfers = [];
  days = [];
  audit = [];
}

abbrev hotel : Bool → Hotel
hotel active = record {
  books = books;
  rooms = room_at active ∷ [];
  reservations = stay ∷ [];
  work_orders =
      record {
        property_id = 7;
        room_id = some 3;
        status = WorkOrderStatus.pending;
        title = codes "Lamp";
      }
      ∷ record {
        property_id = 7;
        room_id = none;
        status = WorkOrderStatus.in_progress;
        title = codes "Lift";
      }
      ∷ [];
  configs = [];
}

-- A bottle of wine at 10.00.
abbrev wine : PosChargeInput
wine = record {
  property_id = 7;
  room_number = codes "204";
  last_name = codes "otieno";
  description = codes "House Wine";
  amount = 100000;
  operator_id = none;
}

abbrev same_case : Text → Text
same_case t = t

sells_beverage : source_module_for wine.description ≡ pos_beverage
unfolding source_module_for
sells_beverage = refl

abbrev result : PosChargeResult
result =
    pos_result wine stay (rate_of wine (hotel true))
      (charged_item 50 60 today wine stay (hotel true))
      (charged_books 50 60 today wine stay (hotel true))

abbrev after : Hotel
after = record (hotel true) { books = charged_books 50 60 today wine stay (hotel true) }

charges_wine : pos_post_charge same_case 50 60 today wine (hotel true) ≡ charged result after
unfolding pos_post_charge charge_stay stay_in_room same_text
charges_wine = refl

totals_wine : result.total ≡ 1180
unfolding rate_of round2
totals_wine = refl

post_charge-Guarded_example : Guarded same_case wine (hotel true) after result
post_charge-Guarded_example =
    post_charge-Guarded same_case 50 60 today wine (hotel true) after result charges_wine

post_iff_verified_example :
    ((pos_verify_guest same_case (verify_of wine) (hotel true)).verified ≡ true)
    ↔ IsCharged (pos_post_charge same_case 50 60 today wine (hotel true))
post_iff_verified_example = post_iff_verified same_case 50 60 today wine (hotel true) (refl, tt)

abbrev audit : CloseBusinessDayInput
audit = record { property_id = 7; business_date = today; closed_by = 40; cutoff_time = none }

abbrev audited : Books
audited =
    add_audit (record { property_id = 7; user_id = 40; action = night_audit_closed })
      (record books { days = upsert_day audit (report_of audit []) books.days })

abbrev audited_hotel : Hotel
audited_hotel = record (hotel true) { books = audited }

post_after_close_example :
    IsClosed 7 today audited.days
    × (r : PosChargeResult) × (h' : Hotel) × (pos_post_charge same_case 50 60 today wine
          audited_hotel
        ≡ charged r h')
    × (x : FolioLineItem) × (h'.books.items ≡ x ∷ [])
    × (x.business_date ≡ today)
unfolding stay_in_room same_text close_business_day
post_after_close_example =
    post_after_close same_case 50 60 wine audited_hotel stay audit books (report_of audit []) refl
      refl refl refl

abbrev by_code : Text → Text → Bool
by_code [] [] = false
by_code [] (b ∷ t) = true
by_code (a ∷ s) [] = false
by_code (a ∷ s) (b ∷ t) = ltb a b

housekeeping_tasks-reference_example :
    housekeeping_tasks (λ s t. false) 7 today (hotel true)
    ≡ map (reference_task 7 today (hotel true)) (listed_rooms (λ s t. false) 7 (hotel true).rooms)
housekeeping_tasks-reference_example =
    housekeeping_tasks-reference (λ s t. false) 7 today (hotel true)
