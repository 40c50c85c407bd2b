-- ===== src/Broker/Delivery.antt =====
-- The offline flusher as a client of the broker (`deliver` of
-- apps/console/src/main/offline/sync.ts with `POST /packet` of apps/console/src/main/server.ts).
use hotelia.Prelude.{
  ℕ, ◌+◌, ◌<◌, ◌≡◌, ◌≢◌, refl, ◌∙◌, ap, Text, codes, List, [], ◌++◌, Option, none, some, false, All,
}
use hotelia.Offline.Action.{OfflineActionRecord}
use hotelia.Offline.Sync.{SyncRequest, Environment, http_ok, request_of, deliver}
use hotelia.Broker.Window.{window_ms}
use hotelia.Broker.Packet.{Broker, PacketRequest, handle_packet}
use hotelia.Broker.Answers.{silent_status}
use hotelia.Broker.Once.{handle_packets, packet_once}

abbrev bearer : Option Text → Option Text
bearer none = none
bearer (some t) = some (codes "Bearer " ++ t)

-- The request as the broker reads it.
abbrev pub as_packet : SyncRequest → PacketRequest
as_packet r = record {
  address = some (codes "127.0.0.1");
  authorization = bearer r.authorization;
  query_token = none;
  idempotency_key = some r.idempotency_key;
  body = some (record { type = r.event_type; payload = r.payload });
}

-- Once the broker has accepted an action, a delivery of the same action within the window of 60
-- seconds, after any other requests, counts as failed: the broker answers 208 or an error, and the
-- flusher takes neither for a success.
pub redelivery_fails :
    (digest : Text → Text) (token : Text) (env : Environment) (auth : Option Text) (n : ℕ)
    (a : OfflineActionRecord) (now later : ℕ) (l : List (PacketRequest × ℕ)) (b : Broker)
    → a.idempotency_key ≢ []
    → (handle_packet digest token (as_packet (request_of auth a)) now b).0.status ≡ 202
    → All (λ (x : PacketRequest × ℕ). x.1 < now + window_ms) l
    → later < now + window_ms
    → env.answer n (request_of auth a)
      ≡ some
          (handle_packet digest token (as_packet (request_of auth a)) later (
            handle_packets digest token l
              (handle_packet digest token (as_packet (request_of auth a)) now b).1)).0.status
    → deliver env auth n a ≡ false
unfolding deliver
redelivery_fails digest token env auth n a now later l b k s h t e =
    ap (λ (o : Option ℕ). elim o [ none ↦ false | some s ↦ http_ok s ]) e
    ∙ (silent_status _
        (packet_once digest token a.idempotency_key (as_packet (request_of auth a))
          (as_packet (request_of auth a)) now later l b refl k refl s h t).0).1
