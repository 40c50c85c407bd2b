-- ===== src/Broker/Packet.antt =====
-- `POST /packet` (apps/console/src/main/server.ts with `packetSchema` of
-- packages/shared/src/validators/index.ts). A body that has not the shape of a packet is `none`.
use hotelia.Prelude.{
  ℕ, Text, codes, List, [], ◌∷◌, ◌++◌, Option, none, some, Bool, true, false, ◌&&◌, leb,
  if◌then◌else◌, length, or_else,
}
use hotelia.Events.Registry.{is_valid}
use hotelia.Offline.Action.{Payload}
use hotelia.Broker.Bus.{Handlers, publish}
use hotelia.Broker.Limiter.{Buckets, allows}
use hotelia.Broker.Window.{Window, dedupe_packet}
use hotelia.Broker.Guard.{require_token}

pub record PacketInput : Type 0 where
  pub type : Text
  pub payload : Payload

pub record PacketRequest : Type 0 where
  pub address : Option Text
  pub authorization : Option Text
  pub query_token : Option Text
  pub idempotency_key : Option Text
  pub body : Option PacketInput

-- An event that was published, with the handlers that were called.
pub record Published : Type 0 where
  pub type : Text
  pub payload : Payload
  pub handlers : List ℕ

pub record Broker : Type 0 where
  pub bus : Handlers
  pub buckets : Buckets
  pub seen : Window
  pub published : List Published

pub record PacketResponse : Type 0 where
  pub status : ℕ
  pub accepted : Option Text
  pub deduped : Bool

abbrev pub refused : ℕ → PacketResponse
refused s = record { status = s; accepted = none; deduped = false }

-- `packetSchema.safeParse`
abbrev pub parse_packet : Option PacketInput → Option PacketInput
parse_packet none = none
parse_packet (some p) = if leb 1 (length p.type) && leb (length p.type) 255 then some p else none

-- `key ? dedupePacket(key, type) : { deduped: false, event: type }`
abbrev pub dedupe : Text → Text → ℕ → Window → Bool × Text × Window
dedupe [] event now w = (false, event, w)
dedupe (c ∷ s) event now w = dedupe_packet (c ∷ s) event now w

abbrev published_on : PacketInput → Broker → Broker
published_on p b = record b {
  published =
      b.published
      ++ record { type = p.type; payload = p.payload; handlers = publish p.type b.bus } ∷ [];
}

-- The end of the handler, for a packet of a known type.
unfoldable pub accept_packet : Text → PacketInput → ℕ → Broker → PacketResponse × Broker
accept_packet key p now b =
    let (deduped, event, w) = dedupe key p.type now b.seen in
    let b' = record b { seen = w } in
    if deduped
    then (record { status = 208; accepted = some event; deduped = true }, b')
    else (record { status = 202; accepted = some event; deduped = false }, published_on p b')

unfoldable pub checked_packet :
    PacketRequest → ℕ → Broker → Option PacketInput → PacketResponse × Broker
unfolding accept_packet
checked_packet req now b none = (refused 400, b)
checked_packet req now b (some p) =
    if is_valid p.type
    then accept_packet (or_else req.idempotency_key []) p now b
    else (refused 400, b)

unfoldable pub handle_packet :
    (Text → Text) → Text → PacketRequest → ℕ → Broker → PacketResponse × Broker
unfolding checked_packet
handle_packet digest token req now b =
    let (allowed, l) = allows (or_else req.address (codes "loopback")) now b.buckets in
    let b' = record b { buckets = l } in
    if require_token digest token req.authorization req.query_token
    then if allowed then checked_packet req now b' (parse_packet req.body) else (refused 429, b')
    else (refused 401, b)
