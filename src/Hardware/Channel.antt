-- ===== src/Hardware/Channel.antt =====
-- The transport adapters to the encoders (apps/console/src/main/hardware/lockBridge.ts). What the
-- socket of one attempt does is the list of its events in order; the connection timer of five
-- seconds comes after all of them. The answer of a serial provider, which the program does not
-- implement, is a parameter. The time stamps of results are left out.
use hotelia.Prelude.{
  trim, ℕ, ◌≡◌, ◌↔◌, refl, inl, inr, Bool-cases, Text, codes, List, [], ◌∷◌, ◌++◌, Option, none,
  some, Bool, true, false, ◌&&◌, ◌==◌, if◌then◌else◌,
}

pub data LockChannels : Type 0 where
  tcp serial : LockChannels

pub record EncodeRequest : Type 0 where
  pub device_id : Text
  pub room_number : Text
  pub credential : Text

pub data EncodeStatus : Type 0 where
  encoded queued_offline error : EncodeStatus

pub record EncodeResult : Type 0 where
  pub device_id : Text
  pub room_number : Text
  pub credential : Text
  pub status : EncodeStatus
  pub queued_id : Option ℕ
  pub error : Option Text

-- `buildResult`
abbrev pub build_result : EncodeRequest → EncodeStatus → Option Text → EncodeResult
build_result req s e = record {
  device_id = req.device_id;
  room_number = req.room_number;
  credential = req.credential;
  status = s;
  queued_id = none;
  error = e;
}

-- `buildPacket`
unfoldable pub build_packet : EncodeRequest → Text
build_packet req =
    codes "ENCODE"
    ++ (req.device_id ++ codes "|" ++ req.room_number ++ codes "|" ++ req.credential)
    ++ 10 ∷ []

pub data SocketEvent : Type 0 where
  connected : SocketEvent
  read_timeout : SocketEvent
  received : Text → SocketEvent
  timed_out : SocketEvent
  failed : Text → SocketEvent

abbrev pub starts_with_ok : Text → Bool
starts_with_ok (a ∷ b ∷ s) = a == b'O' && b == b'K'
starts_with_ok _ = false

-- The handler of `data`.
abbrev pub on_data : EncodeRequest → Text → EncodeResult
on_data req ack =
    if starts_with_ok ack
    then build_result req encoded none
    else build_result req error (some (codes "encoder NACK: " ++ ack))

-- What an event settles the promise with, if it does.
unfoldable pub settle : EncodeRequest → SocketEvent → Option EncodeResult
unfolding trim
settle req connected = none
settle req read_timeout =
    some (build_result req queued_offline (some (codes "encoder read timeout (5000ms)")))
settle req (received d) = some (on_data req (trim d))
settle req timed_out =
    some (build_result req queued_offline (some (codes "encoder timeout (no ACK within 5000ms)")))
settle req (failed m) =
    some (build_result req queued_offline (some (codes "encoder unreachable: " ++ m)))

-- The first event that settles decides; the timer settles what no event did.
unfoldable pub tcp_encode : EncodeRequest → List SocketEvent → EncodeResult
unfolding settle
tcp_encode req [] = build_result req queued_offline (some (codes "encoder timed out (5000ms)"))
tcp_encode req (e ∷ es) =
    let rest = tcp_encode req es in elim (settle req e) [ none ↦ rest | some r ↦ r ]

abbrev pub written : EncodeRequest → Bool → EncodeResult
written req true = build_result req encoded none
written req false = build_result req error none

unfoldable pub serial_encode : EncodeRequest → Option (EncodeRequest → Bool) → EncodeResult
serial_encode req none =
    build_result req queued_offline (some (codes "no serial provider configured"))
serial_encode req (some write) = written req (write req)

-- The encoder acknowledges with OK before anything else settles the attempt.
pub data Acked (req : EncodeRequest) : List SocketEvent → Type 0 where
  first :
      (d : Text) (es : List SocketEvent)
      → starts_with_ok (trim d) ≡ true
      → Acked req (received d ∷ es)
  later :
      (e : SocketEvent) (es : List SocketEvent)
      → settle req e ≡ none
      → Acked req es
      → Acked req (e ∷ es)

data_encoded :
    (req : EncodeRequest) (ack : Text)
    → (on_data req ack).status ≡ encoded
    → starts_with_ok ack ≡ true
data_encoded req ack h = elim (Bool-cases (starts_with_ok ack)) [
  | inl e ↦ e
  | inr e ↦ absurd (cc (rw e at h))
]

encoded-Acked :
    (req : EncodeRequest) (es : List SocketEvent)
    → (tcp_encode req es).status ≡ encoded
    → Acked req es
unfolding tcp_encode settle
encoded-Acked req [] h = absurd (cc)
encoded-Acked req (connected ∷ es) h = later connected es refl (encoded-Acked req es h)
encoded-Acked req (read_timeout ∷ es) h = absurd (cc)
encoded-Acked req (received d ∷ es) h = first d es (data_encoded req (trim d) h)
encoded-Acked req (timed_out ∷ es) h = absurd (cc)
encoded-Acked req (failed m ∷ es) h = absurd (cc)

Acked-encoded :
    (req : EncodeRequest) (es : List SocketEvent)
    → Acked req es
    → (tcp_encode req es).status ≡ encoded
unfolding tcp_encode settle
Acked-encoded req es (first d fs k) = rw k refl
Acked-encoded req es (later e fs n a) = rw (n, tcp_encode) (Acked-encoded req fs a)

-- An attempt over TCP reports `encoded` exactly if the encoder acknowledged with OK before anything
-- else settled the attempt.
tcp_encode-Acked :
    (req : EncodeRequest) (es : List SocketEvent)
    → ((tcp_encode req es).status ≡ encoded) ↔ Acked req es
tcp_encode-Acked req es = (encoded-Acked req es, Acked-encoded req es)
