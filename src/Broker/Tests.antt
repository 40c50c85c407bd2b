-- ===== src/Broker/Tests.antt =====
-- Runs of the local broker, and the theorems about it at concrete requests.
use hotelia.Prelude.{
  ℕ, ◌+◌, ◌-◌, ◌*◌, ◌≤◌, ◌≡◌, ◌⊎◌, refl, Text, codes, List, [], ◌∷◌, Option, none, some, true,
  false, arith, same_text, starts_with, trim, split_on,
}
use hotelia.Prelude.Int.{◌-ℤ◌, ◌+ℤ◌}
use hotelia.Events.Registry.{includes, is_valid}
use hotelia.Offline.Action.{OfflineActionRecord, pos_order, processing}
use hotelia.Offline.Sync.{Environment, deliver}
use hotelia.Broker.Bus.{handlers_of, IsNew}
use hotelia.Broker.Limiter.{refilled, find_bucket, set_bucket, allows}
use hotelia.Broker.Window.{find_key, set_key, dedupe_packet}
use hotelia.Broker.Guard.{require_token, provided}
use hotelia.Broker.Packet.{
  Broker, PacketInput, PacketRequest, parse_packet, accept_packet, checked_packet, handle_packet,
}
use hotelia.Broker.Answers.{IsSilent, IsPublished, handle_packet-IsAnswered}
use hotelia.Broker.Once.{handle_packets, packet_once}
use hotelia.Broker.Delivery.{as_packet, redelivery_fails}
use hotelia.Broker.Rate.{passed, passed_within_rate}
use hotelia.Broker.Stream.{text, absent, requested, open_stream, close_stream}
use hotelia.Broker.Streams.{close_stream-open_stream}

trimmed : trim (codes "a") ≡ codes "a"
unfolding trim
trimmed = refl

-- A digest without collisions, for the runs.
abbrev same : Text → Text
same t = t

abbrev token : Text
token = codes "s3cret"

abbrev order_packet : Option Text → PacketRequest
order_packet auth = record {
  address = some (codes "127.0.0.1");
  authorization = auth;
  query_token = none;
  idempotency_key = some (codes "k1");
  body = some (record { type = codes "order.placed"; payload = [] });
}

abbrev good : PacketRequest
good = order_packet (some (codes "Bearer s3cret"))

abbrev fresh_broker : Broker
fresh_broker = record {
  bus = (codes "order.placed", 4 ∷ []) ∷ [];
  buckets = [];
  seen = [];
  published = [];
}

accepted_first : (handle_packet same token good 1000 fresh_broker).0.status ≡ 202
unfolding handle_packet checked_packet accept_packet dedupe_packet find_key set_key allows refilled
    find_bucket set_bucket require_token provided is_valid includes same_text starts_with ◌-ℤ◌ ◌+ℤ◌
accepted_first = refl

-- A second browser asks with no token in between.
abbrev between : List (PacketRequest × ℕ)
between = (order_packet none, 1200) ∷ []

packet_once_example :
    IsSilent
      (handle_packets same token between (handle_packet same token good 1000 fresh_broker).1)
      (handle_packet same token good 1500
        (handle_packets same token between (handle_packet same token good 1000 fresh_broker).1))
packet_once_example =
    packet_once same token (codes "k1") good good 1000 1500 between fresh_broker refl
      (λ e. ground (arith, e)) refl accepted_first (omega arith, tt) (omega arith)

handle_packet-IsAnswered_example :
    IsSilent fresh_broker (handle_packet same token (order_packet none) 1000 fresh_broker)
    ⊎ ((require_token same token none none ≡ true)
        × ((allows (codes "127.0.0.1") 1000 []).0 ≡ true)
        × (p : PacketInput) × (parse_packet (order_packet none).body ≡ some p)
        × (is_valid p.type ≡ true)
        × IsPublished
            (order_packet none)
            p
            1000
            fresh_broker
            (handle_packet same token (order_packet none) 1000 fresh_broker))
handle_packet-IsAnswered_example =
    handle_packet-IsAnswered same token (order_packet none) 1000 fresh_broker

passed_within_rate_example :
    1000 * passed (codes "127.0.0.1") (100 ∷ 100 ∷ 400 ∷ []) [] ≤ 8000 + 8 * (500 - 100)
passed_within_rate_example =
    passed_within_rate (codes "127.0.0.1") 100 500 (100 ∷ 100 ∷ 400 ∷ [])
      (omega arith, (omega arith, (omega arith, omega arith)))

abbrev action : OfflineActionRecord
action = record {
  id = 1;
  action_type = pos_order;
  payload = [];
  idempotency_key = codes "k1";
  status = processing;
  created_at = 900;
  updated_at = 1000;
  retry_count = 0;
  last_error = none;
}

-- The answer of the broker to the first delivery is lost; the second comes half a second later.
abbrev network : Environment
network = record {
  answer = λ n r.
      some
        (handle_packet same token (as_packet r) 1500
          (handle_packet same token (as_packet r) 1000 fresh_broker).1).0.status;
  claim_time = λ n. 1000;
  mark_time = λ n. 1500;
}

redelivery_fails_example : deliver network (some token) 1 action ≡ false
unfolding handle_packets
redelivery_fails_example =
    redelivery_fails same token network (some token) 1 action 1000 1500 [] fresh_broker
      (λ e. ground (arith, e)) accepted_first tt (omega arith) refl

four_is_other : IsNew 8 (handlers_of (codes "order.placed") fresh_broker.bus)
unfolding handlers_of same_text
four_is_other = (λ e. omega (arith, e), tt)

all_is_accepted : (open_stream 8 absent fresh_broker.bus).1 ≡ true
unfolding open_stream requested split_on trim
all_is_accepted = refl

-- One stream of all events and one of a single event.
close_stream-open_stream_example :
    handlers_of (codes "order.placed") (
      close_stream 8 absent
        (open_stream 9 (text (codes "order.placed")) (open_stream 8 absent fresh_broker.bus).2).2)
    ≡ handlers_of
        (codes "order.placed")
        (open_stream 9 (text (codes "order.placed")) fresh_broker.bus).2
close_stream-open_stream_example =
    close_stream-open_stream (codes "order.placed") 8 9 absent (text (codes "order.placed"))
      fresh_broker.bus four_is_other (omega arith) all_is_accepted
