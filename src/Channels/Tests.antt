-- ===== src/Channels/Tests.antt =====
-- Runs of the channel adapters, and the theorem about them at a concrete payload.
use hotelia.Prelude.{refl, inl, codes, none, some}
use hotelia.Channels.Adapter.{ChannelPayload, booking_com}
use hotelia.Channels.Prices.{PriceKept, quoted, ota-PriceKept}

abbrev stay : ChannelPayload
stay = record {
  guest_name = some (codes "Amina Otieno");
  check_in = some (codes "2025-06-03");
  check_out = some (codes "2025-06-04");
  room_type = none;
  gross_amount = some (record { units = 100064; per = 9 });
  net_amount = none;
  confirmation_no = none;
  channel_ref = none;
}

ota-PriceKept_example :
    PriceKept booking_com (quoted booking_com stay) (booking_com.receive_booking (codes "X1") stay)
ota-PriceKept_example = ota-PriceKept booking_com (codes "X1") stay (inl refl)
