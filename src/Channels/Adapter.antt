-- ===== src/Channels/Adapter.antt =====
-- The adapters of the booking channels (packages/channels/src/index.ts, booking-com/index.ts,
-- expedia/index.ts, airbnb/index.ts and direct/index.ts). An amount that comes in is a
-- fraction of a cent that is not negative; rates are in ten-thousandths. A generated confirmation number is an argument.
use hotelia.Prelude.{
  ℕ, Text, codes, List, [], ◌∷◌, ◌++◌, Option, none, some, Bool, true, false, or_else,
}
use hotelia.Tax.Engine.{TaxRule, NormalizedRate, Amount, normalize_rate}

pub record ChannelTaxProfile : Type 0 where
  pub quoting_gross : Bool
  pub tax_rules : List TaxRule

-- The payload of a webhook. An amount that is no number is `none`, like a missing one.
pub record ChannelPayload : Type 0 where
  pub guest_name : Option Text
  pub check_in : Option Text
  pub check_out : Option Text
  pub room_type : Option Text
  pub gross_amount : Option Amount
  pub net_amount : Option Amount
  pub confirmation_no : Option Text
  pub channel_ref : Option Text

pub record ChannelBooking : Type 0 where
  pub confirmation_no : Text
  pub guest_name : Text
  pub check_in : Text
  pub check_out : Text
  pub room_type : Text
  pub rate : NormalizedRate
  pub channel_ref : Text

-- What a promise settles to.
pub data Settled (A : Type 0) : Type 0 where
  rejected : Text → Settled A
  resolved : A → Settled A

pub record PushInventoryInput : Type 0 where
  pub room_type : Text
  pub date : Text
  pub rate : NormalizedRate
  pub available : ℕ
  pub closed : Bool

-- `ChannelAdapter`, for payloads of type `P`; the text that `receive_booking` takes first is the generated part of a
-- confirmation number.
pub record ChannelAdapter (P : Type 0) : Type 0 where
  pub name : Text
  pub tax_profile : ChannelTaxProfile
  pub push_inventory : PushInventoryInput → Bool × Text
  pub receive_booking : Text → P → Settled ChannelBooking
  pub cancel_booking : Text → Option Text → Settled Bool
  pub health_check : Bool

abbrev pub vat_profile : Bool → ChannelTaxProfile
vat_profile gross = record {
  quoting_gross = gross;
  tax_rules = record { id = codes "vat"; name = codes "VAT"; rate = 1000 } ∷ [];
}

abbrev pub city_profile : ChannelTaxProfile
city_profile = record {
  quoting_gross = false;
  tax_rules = record { id = codes "city_tax"; name = codes "Guest city tax"; rate = 400 } ∷ [];
}

abbrev pub booking_of : Text → NormalizedRate → ChannelPayload → ChannelBooking
booking_of confirmation rate p = record {
  confirmation_no = or_else p.confirmation_no confirmation;
  guest_name = or_else p.guest_name (codes "Unknown");
  check_in = or_else p.check_in [];
  check_out = or_else p.check_out [];
  room_type = or_else p.room_type (codes "STANDARD");
  rate = rate;
  channel_ref = or_else p.channel_ref [];
}

abbrev pub rate_for : Bool → List TaxRule → Amount → NormalizedRate
rate_for gross rules amount =
    normalize_rate
      (record { amount = amount; currency = codes "USD"; is_gross = gross; tax_rules = rules })

-- A booking with its amount, or the message without one.
abbrev pub priced :
    Text → Text → Bool → List TaxRule → Option Amount → ChannelPayload → Settled ChannelBooking
priced message confirmation gross rules none p = rejected message
priced message confirmation gross rules (some amount) p =
    resolved (booking_of confirmation (rate_for gross rules amount) p)

unfoldable pub booking_com : ChannelAdapter ChannelPayload
booking_com = record {
  name = codes "booking.com";
  tax_profile = vat_profile true;
  push_inventory = λ input. (false, codes "not_implemented");
  receive_booking = λ fresh p.
      priced (codes "Booking.com payload missing grossAmount") (codes "BKG-" ++ fresh) true
        (vat_profile true).tax_rules p.gross_amount p;
  cancel_booking = λ ref reason. rejected (codes "Not implemented");
  health_check = false;
}

unfoldable pub expedia : ChannelAdapter ChannelPayload
expedia = record {
  name = codes "expedia";
  tax_profile = vat_profile false;
  push_inventory = λ input. (false, codes "not_implemented");
  receive_booking = λ fresh p.
      priced (codes "Expedia payload missing netAmount") (codes "EXP-" ++ fresh) false
        (vat_profile false).tax_rules p.net_amount p;
  cancel_booking = λ ref reason. rejected (codes "Not implemented");
  health_check = false;
}

unfoldable pub airbnb : ChannelAdapter ChannelPayload
airbnb = record {
  name = codes "airbnb";
  tax_profile = city_profile;
  push_inventory = λ input. (false, codes "not_implemented");
  receive_booking = λ fresh p.
      priced (codes "Airbnb payload missing netAmount") (codes "ABNB-" ++ fresh) false
        city_profile.tax_rules p.net_amount p;
  cancel_booking = λ ref reason. rejected (codes "Not implemented");
  health_check = false;
}

pub record DirectPayload : Type 0 where
  pub guest_name : Text
  pub email : Text
  pub check_in : Text
  pub check_out : Text
  pub room_type : Text
  pub rate : NormalizedRate

unfoldable pub direct : ChannelAdapter DirectPayload
direct = record {
  name = codes "direct";
  tax_profile = record { quoting_gross = false; tax_rules = [] };
  push_inventory = λ input. (true, codes "local");
  receive_booking = λ fresh p. resolved (record {
    confirmation_no = codes "HTL-" ++ fresh;
    guest_name = p.guest_name;
    check_in = p.check_in;
    check_out = p.check_out;
    room_type = p.room_type;
    rate = p.rate;
    channel_ref = codes "direct";
  });
  cancel_booking = λ ref reason. resolved true;
  health_check = true;
}
