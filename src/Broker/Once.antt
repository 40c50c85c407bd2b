-- ===== src/Broker/Once.antt =====
-- An idempotency key within its window (`dedupePacket` and `POST /packet` of
-- apps/console/src/main/server.ts).
use hotelia.Prelude.{
  ℕ, ◌+◌, ◌-◌, ◌<◌, ◌≤◌, ◌≡◌, ◌≢◌, refl, sym, ◌∙◌, ap, Text, codes, List, [], ◌∷◌, Option, none,
  some, true, false, All, inl, inr, arith, if◌then◌else◌, same_text, or_else, Bool-cases,
  same_text_iff,
}
use hotelia.Events.Registry.{is_valid}
use hotelia.Broker.Window.{
  Accepted, Window, find_key, set_key, window_ms, prune, pruned, is_recent, dedupe_packet,
}
use hotelia.Broker.Limiter.{allows}
use hotelia.Broker.Guard.{require_token}
use hotelia.Broker.Answers.{IsSilent, silent_status, handle_packet-IsAnswered}
use hotelia.Broker.Packet.{
  Broker, PacketInput, PacketRequest, parse_packet, dedupe, accept_packet, checked_packet,
  handle_packet,
}

find_key-set_key :
    (k j : Text) (a : Accepted) (w : Window)
    → find_key k (set_key j a w) ≡ (if same_text j k then some a else find_key k w)
unfolding find_key set_key
find_key-set_key k j a [] = refl
find_key-set_key k j a ((i, b) ∷ w) =
    ground
      (arith, same_text_iff i j, same_text_iff i k, same_text_iff j k, find_key-set_key k j a w)

find_key-prune :
    (k : Text) (a : Accepted) (now : ℕ) (w : Window)
    → find_key k w ≡ some a
    → now - a.accepted_at ≤ window_ms
    → find_key k (prune now w) ≡ some a
unfolding find_key prune
find_key-prune k a now [] e h = e
find_key-prune k a now ((i, b) ∷ w) e h = ground (arith, e, h, find_key-prune k a now w)

find_key-pruned :
    (k : Text) (a : Accepted) (now : ℕ) (w : Window)
    → find_key k w ≡ some a
    → now - a.accepted_at ≤ window_ms
    → find_key k (pruned now w) ≡ some a
find_key-pruned k a now w e h = ground (arith, e, find_key-prune k a now w e h)

dedupe_packet-Holds :
    (k event : Text) (now : ℕ) (w : Window)
    → (dedupe_packet k event now w).0 ≡ false
    → find_key k (dedupe_packet k event now w).2
      ≡ some (record { accepted_at = now; event = event })
unfolding dedupe_packet
dedupe_packet-Holds k event now w e = ground (
  arith,
  e,
  same_text_iff k k,
  find_key-set_key k k (record { accepted_at = now; event = event }) w,
  find_key-pruned k (record { accepted_at = now; event = event }) now
      (set_key k (record { accepted_at = now; event = event }) w),
)

-- The key was accepted then, with that event.
abbrev pub Holds : Text → Accepted → Broker → Type 0
Holds k a b = find_key k b.seen ≡ some a

dedupe_packet-keeps :
    (k j event : Text) (a : Accepted) (now : ℕ) (w : Window)
    → find_key k w ≡ some a
    → now < a.accepted_at + window_ms
    → find_key k (dedupe_packet j event now w).2 ≡ some a
unfolding dedupe_packet
dedupe_packet-keeps k j event a now w e h = ground (
  arith,
  e,
  h,
  same_text_iff j k,
  find_key-set_key k j (record { accepted_at = now; event = event }) w,
  find_key-pruned k a now (set_key j (record { accepted_at = now; event = event }) w),
)

accept_packet-seen :
    (k : Text) (p : PacketInput) (now : ℕ) (b : Broker)
    → (accept_packet k p now b).1.seen ≡ (dedupe k p.type now b.seen).2
unfolding accept_packet
accept_packet-seen k p now b = elim (Bool-cases (dedupe k p.type now b.seen).0) [
  | inl e ↦ rw e refl
  | inr e ↦ rw e refl
]

dedupe-keeps :
    (k j event : Text) (a : Accepted) (now : ℕ) (w : Window)
    → find_key k w ≡ some a
    → now < a.accepted_at + window_ms
    → find_key k (dedupe j event now w).2 ≡ some a
dedupe-keeps k [] event a now w e h = e
dedupe-keeps k (c ∷ j) event a now w e h = dedupe_packet-keeps k (c ∷ j) event a now w e h

checked_packet-keeps :
    (k : Text) (a : Accepted) (req : PacketRequest) (now : ℕ) (b : Broker) (p : Option PacketInput)
    → Holds k a b
    → now < a.accepted_at + window_ms
    → Holds k a (checked_packet req now b p).1
unfolding checked_packet
checked_packet-keeps k a req now b none e h = e
checked_packet-keeps k a req now b (some p) e h = elim (Bool-cases (is_valid p.type)) [
  | inl v ↦ rw v (
      ap (find_key k) (accept_packet-seen (or_else req.idempotency_key []) p now b)
      ∙ dedupe-keeps k (or_else req.idempotency_key []) p.type a now b.seen e h)
  | inr v ↦ rw v e
]

handle_packet-keeps :
    (digest : Text → Text) (token k : Text) (a : Accepted) (req : PacketRequest) (now : ℕ)
    (b : Broker)
    → Holds k a b
    → now < a.accepted_at + window_ms
    → Holds k a (handle_packet digest token req now b).1
unfolding handle_packet
handle_packet-keeps digest token k a req now b e h =
    elim (Bool-cases (require_token digest token req.authorization req.query_token)) [
      | inl r ↦
          elim (Bool-cases (allows (or_else req.address (codes "loopback")) now b.buckets).0) [
            | inl l ↦ rw r (rw l (checked_packet-keeps k a req now _ (parse_packet req.body) e h))
            | inr l ↦ rw r (rw l e)
          ]
      | inr r ↦ rw r e
    ]

-- The broker after requests, each with its time.
unfoldable pub handle_packets : (Text → Text) → Text → List (PacketRequest × ℕ) → Broker → Broker
handle_packets digest token [] b = b
handle_packets digest token ((req, now) ∷ l) b =
    handle_packets digest token l (handle_packet digest token req now b).1

handle_packets-keeps :
    (digest : Text → Text) (token k : Text) (a : Accepted) (l : List (PacketRequest × ℕ))
    (b : Broker)
    → Holds k a b
    → All (λ (x : PacketRequest × ℕ). x.1 < a.accepted_at + window_ms) l
    → Holds k a (handle_packets digest token l b)
unfolding handle_packets
handle_packets-keeps digest token k a [] b e h = e
handle_packets-keeps digest token k a ((req, now) ∷ l) b e h =
    handle_packets-keeps digest token k a l (handle_packet digest token req now b).1
      (handle_packet-keeps digest token k a req now b e h.0) h.1

dedupe-Holds :
    (k event : Text) (now : ℕ) (w : Window)
    → k ≢ []
    → (dedupe k event now w).0 ≡ false
    → find_key k (dedupe k event now w).2 ≡ some (record { accepted_at = now; event = event })
dedupe-Holds [] event now w n e = absurd (n refl)
dedupe-Holds (c ∷ k) event now w n e = dedupe_packet-Holds (c ∷ k) event now w e

is_recent-true :
    (a : Accepted) (now : ℕ) → now < a.accepted_at + window_ms → is_recent now (some a) ≡ true
is_recent-true a now h = ground (arith, h)

dedupe-again :
    (k event : Text) (a : Accepted) (now : ℕ) (w : Window)
    → k ≢ []
    → find_key k w ≡ some a
    → now < a.accepted_at + window_ms
    → (dedupe k event now w).0 ≡ true
unfolding dedupe_packet
dedupe-again [] event a now w n e h = absurd (n refl)
dedupe-again (c ∷ k) event a now w n e h = rw e (rw (is_recent-true a now h) refl)

handle_packet-Holds :
    (digest : Text → Text) (token k : Text) (req : PacketRequest) (now : ℕ) (b : Broker)
    → req.idempotency_key ≡ some k
    → k ≢ []
    → (handle_packet digest token req now b).0.status ≡ 202
    → (event : Text) × Holds k
        (record { accepted_at = now; event = event })
        (handle_packet digest token req now b).1
handle_packet-Holds digest token k req now b e n s =
    elim (handle_packet-IsAnswered digest token req now b) [
      | inl silent ↦ absurd ((silent_status _ silent.0).0 s)
      | inr (r, l, p, q, v, a) ↦ (
        p.type,
        ap (find_key k) a.2
            ∙ ap (λ o. find_key k (dedupe (or_else o []) p.type now b.seen).2) e
            ∙ dedupe-Holds k p.type now b.seen n
                (ap (λ o. (dedupe (or_else o []) p.type now b.seen).0) (sym e) ∙ a.1),
      )
    ]

-- After a request with a key that is not empty was answered 202, and any requests within the
-- window of 60 seconds, a request with that key that comes within the window too publishes nothing,
-- and its answer is 208 or an error.
pub packet_once :
    (digest : Text → Text) (token k : Text) (req again : PacketRequest) (now later : ℕ)
    (l : List (PacketRequest × ℕ)) (b : Broker)
    → req.idempotency_key ≡ some k
    → k ≢ []
    → again.idempotency_key ≡ some k
    → (handle_packet digest token req now b).0.status ≡ 202
    → All (λ (x : PacketRequest × ℕ). x.1 < now + window_ms) l
    → later < now + window_ms
    → IsSilent (handle_packets digest token l (handle_packet digest token req now b).1) (
        handle_packet digest token again later
          (handle_packets digest token l (handle_packet digest token req now b).1))
packet_once digest token k req again now later l b kr n ka s h t =
    let b' = handle_packets digest token l (handle_packet digest token req now b).1 in
    let (event, held) = handle_packet-Holds digest token k req now b kr n s in
    elim (handle_packet-IsAnswered digest token again later b') [
      | inl silent ↦ silent
      | inr (r, c, p, q, v, a) ↦ absurd (
          cc (
            dedupe-again k p.type (record { accepted_at = now; event = event }) later b'.seen n
                (handle_packets-keeps digest token k (record { accepted_at = now; event = event }) l
                  _ held h)
                t,
            ap (λ o. (dedupe (or_else o []) p.type later b'.seen).0) (sym ka) ∙ a.1,
          ))
    ]
