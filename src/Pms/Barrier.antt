-- ===== src/Pms/Barrier.antt =====
-- The point of sale (`posVerifyGuest` and `posPostCharge` of apps/console/src/main/pms.ts). The
-- transaction is serializable, so a charge is one function on the tables. `lower` stands for
-- `String.toLowerCase`. An amount comes in ten-thousandths, a tax rate too.
use hotelia.Prelude.{
  ℕ, Text, codes, List, [], ◌∷◌, Option, none, some, Bool, true, false, ◌&&◌, ◌||◌, not, leb, ◌+◌,
  ◌==◌, if◌then◌else◌, same_text, starts_with, map, min,
}
use hotelia.Prelude.Int.{ℤ, pos, negsuc}
use hotelia.Prelude.Table.{find}
use hotelia.Folios.Row.{
  Day, is_open, master, personal, Folio, LineItemSource, pos_food, pos_beverage,
}
use hotelia.Pms.Row.{
  is_checked_in, Guest, Room, Reservation, PropertyConfig, Hotel, room_of, ReservationStatus,
}

pub record PosVerifyInput : Type 0 where
  pub property_id : ℕ
  pub room_number : Text
  pub last_name : Text

pub record PosChargeInput : Type 0 where
  pub property_id : ℕ
  pub room_number : Text
  pub last_name : Text
  pub description : Text
  pub amount : ℕ
  pub operator_id : Option ℕ

pub data VerifyReason : Type 0 where
  no_active_stay lastname_mismatch verified : VerifyReason

pub record StayInfo : Type 0 where
  pub id : ℕ
  pub confirmation_no : Text
  pub status : ReservationStatus
  pub check_in_date : Day
  pub check_out_date : Day

pub record PosVerification : Type 0 where
  pub verified : Bool
  pub reason : VerifyReason
  pub guest : Option Guest
  pub reservation : Option StayInfo

pub data PosBarrier : Type 0 where
  no_active_stay lastname_mismatch folio_create_failed : PosBarrier

pub record PosChargeResult : Type 0 where
  pub line_item_id : ℕ
  pub folio_id : ℕ
  pub description : Text
  pub amount : ℕ
  pub tax_rate : ℕ
  pub tax_amount : ℕ
  pub total : ℕ
  pub balance : ℤ
  pub room_number : Text
  pub verified_last_name : Text
  pub matched_guest_id : ℕ
  pub reservation_id : ℕ

-- A charge that raises is rolled back.
pub data PosOutcome : Type 0 where
  barred : PosBarrier → PosOutcome
  charged : PosChargeResult → Hotel → PosOutcome

-- `room: { is: { propertyId, number, … } }`; the filter on `isActive` is there or not.
abbrev pub room_is : Bool → ℕ → Text → Option Room → Bool
room_is active p number none = false
room_is active p number (some r) =
    r.property_id == p && same_text r.number number && (not active || r.is_active)

abbrev pub is_stay : Bool → List Room → ℕ → Text → Reservation → Bool
is_stay active rooms p number s =
    s.property_id == p
    && is_checked_in s.status
    && room_is active p number (room_of rooms s.room_id)

-- `activeStay`
unfoldable pub active_stay : ℕ → Text → Hotel → Option Reservation
active_stay p number h = find (is_stay true h.rooms p number) h.reservations

-- The lookup inside the transaction, without the filter on `isActive`.
unfoldable pub stay_in_room : ℕ → Text → Hotel → Option Reservation
stay_in_room p number h = find (is_stay false h.rooms p number) h.reservations

-- `folios: { where: { status: 'OPEN' } }` of a reservation
abbrev pub is_open_folio_of : ℕ → Folio → Bool
is_open_folio_of i f = f.reservation_id == i && is_open f.status

abbrev pub is_personal : Folio → Bool
is_personal f = elim f.type [ personal ↦ true | _ ↦ false ]

abbrev pub is_master : Folio → Bool
is_master f = elim f.type [ master ↦ true | _ ↦ false ]

abbrev pub first : List Folio → Option Folio
first [] = none
first (f ∷ fs) = some f

unfoldable pub pick_open_folio : List Folio → Option Folio
pick_open_folio fs = elim (find is_personal fs) [
  | some f ↦ some f
  | none ↦ elim (find is_master fs) [ some f ↦ some f | none ↦ first fs ]
]

-- `lowestRate`
abbrev clamped_rate : ℤ → ℕ
clamped_rate (pos n) = min n 10000
clamped_rate (negsuc n) = 0

abbrev pub is_config : ℕ → PropertyConfig → Bool
is_config p c = c.property_id == p

unfoldable pub lowest_rate : Option PropertyConfig → ℕ
lowest_rate none = 1800
lowest_rate (some c) = elim c.tax_rate [ none ↦ 1800 | some r ↦ clamped_rate r ]

-- The letters of the expression are in ASCII, so ignoring case is a matter of ASCII too.
abbrev lower_code : ℕ → ℕ
lower_code c = if leb b'A' c && leb c b'Z' then c + 32 else c

contains : Text → Text → Bool
contains s [] = starts_with s []
contains s (b ∷ t) = starts_with s (b ∷ t) || contains s t

contains_any : List Text → Text → Bool
contains_any [] t = false
contains_any (s ∷ ss) t = contains s t || contains_any ss t

abbrev beverages : List Text
beverages =
    codes "wine"
    ∷ codes "beer"
    ∷ codes "champagne"
    ∷ codes "spirit"
    ∷ codes "coffee"
    ∷ codes "juice"
    ∷ codes "tea"
    ∷ []

unfoldable pub source_module_for : Text → LineItemSource
unfolding starts_with contains contains_any
source_module_for description =
    if contains_any beverages (map lower_code description) then pos_beverage else pos_food

abbrev pub same_name : (Text → Text) → Text → Text → Bool
same_name lower a b = same_text (lower a) (lower b)

abbrev pub stay_info : Reservation → StayInfo
stay_info s = record {
  id = s.id;
  confirmation_no = s.confirmation_no;
  status = s.status;
  check_in_date = s.check_in_date;
  check_out_date = s.check_out_date;
}

abbrev pub verification : Bool → VerifyReason → Reservation → PosVerification
verification v r s = record {
  verified = v;
  reason = r;
  guest = some s.guest;
  reservation = some (stay_info s);
}

unfoldable pub pos_verify_guest : (Text → Text) → PosVerifyInput → Hotel → PosVerification
unfolding active_stay
pos_verify_guest lower input h = elim (active_stay input.property_id input.room_number h) [
  | none ↦ record {
    verified = false;
    reason = VerifyReason.no_active_stay;
    guest = none;
    reservation = none;
  }
  | some s ↦
      if same_name lower s.guest.last_name input.last_name
      then verification true VerifyReason.verified s
      else verification false VerifyReason.lastname_mismatch s
]
