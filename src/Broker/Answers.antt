-- ===== src/Broker/Answers.antt =====
-- The answers of `POST /packet` (apps/console/src/main/server.ts) and what they publish.
use hotelia.Prelude.{
  ℕ, ◌≡◌, ◌≢◌, refl, Text, codes, [], ◌∷◌, ◌++◌, Option, none, some, true, false, ◌⊎◌, In, inl, inr,
  arith, or_else, Bool-cases,
}
use hotelia.Events.Registry.{is_valid}
use hotelia.Offline.Sync.{http_ok}
use hotelia.Broker.Bus.{publish}
use hotelia.Broker.Limiter.{allows}
use hotelia.Broker.Guard.{require_token}
use hotelia.Broker.Packet.{
  Broker, PacketInput, PacketRequest, PacketResponse, parse_packet, dedupe, accept_packet,
  checked_packet, handle_packet,
}

-- The packet is new: it is answered 202, and it is published to the handlers of its type and of all
-- types, once, and its key enters the window.
abbrev pub IsPublished : PacketRequest → PacketInput → ℕ → Broker → PacketResponse × Broker → Type 0
IsPublished req p now b r =
    (r.0.status ≡ 202)
    × ((dedupe (or_else req.idempotency_key []) p.type now b.seen).0 ≡ false)
    × (r.1.seen ≡ (dedupe (or_else req.idempotency_key []) p.type now b.seen).2)
    × (r.1.published
        ≡ b.published
          ++ record { type = p.type; payload = p.payload; handlers = publish p.type b.bus } ∷ [])

-- Nothing is published: the answer is 208 for a repetition, or one of the errors.
abbrev pub IsSilent : Broker → PacketResponse × Broker → Type 0
IsSilent b r = In r.0.status (208 ∷ 400 ∷ 401 ∷ 429 ∷ []) × (r.1.published ≡ b.published)

-- Whether the packet is published is as the answer says, and only a known type is published.
abbrev pub IsAnswered : PacketRequest → ℕ → Broker → PacketResponse × Broker → Type 0
IsAnswered req now b r =
    ((p : PacketInput) × (parse_packet req.body ≡ some p)
      × (is_valid p.type ≡ true)
      × IsPublished req p now b r)
    ⊎ IsSilent b r

accept_packet-IsAnswered :
    (req : PacketRequest) (p : PacketInput) (now : ℕ) (b : Broker)
    → IsPublished req p now b (accept_packet (or_else req.idempotency_key []) p now b)
      ⊎ IsSilent b (accept_packet (or_else req.idempotency_key []) p now b)
unfolding accept_packet
accept_packet-IsAnswered req p now b =
    elim (Bool-cases (dedupe (or_else req.idempotency_key []) p.type now b.seen).0) [
      | inl e ↦ rw e (inr (inl refl, refl))
      | inr e ↦ rw e (inl (refl, refl, refl, refl))
    ]

checked_packet-IsAnswered :
    (req : PacketRequest) (now : ℕ) (b : Broker) (q : Option PacketInput)
    → parse_packet req.body ≡ q
    → IsAnswered req now b (checked_packet req now b q)
unfolding checked_packet
checked_packet-IsAnswered req now b none e = inr (inr (inl refl), refl)
checked_packet-IsAnswered req now b (some p) e = elim (Bool-cases (is_valid p.type)) [
  | inl v ↦
      rw v
        (elim (accept_packet-IsAnswered req p now b) [ inl a ↦ inl (p, e, v, a) | inr a ↦ inr a ])
  | inr v ↦ rw v (inr (inr (inl refl), refl))
]

-- The broker once the limiter has counted the request.
abbrev pub admitted : PacketRequest → ℕ → Broker → Broker
admitted req now b = record b {
  buckets = (allows (or_else req.address (codes "loopback")) now b.buckets).1;
}

-- A request is answered 202 exactly if its packet is published, and then it has passed the token
-- and the limit, its type is one of the registry, and its key is not one of the window.
pub handle_packet-IsAnswered :
    (digest : Text → Text) (token : Text) (req : PacketRequest) (now : ℕ) (b : Broker)
    → IsSilent b (handle_packet digest token req now b)
      ⊎ ((require_token digest token req.authorization req.query_token ≡ true)
          × ((allows (or_else req.address (codes "loopback")) now b.buckets).0 ≡ true)
          × (p : PacketInput) × (parse_packet req.body ≡ some p)
          × (is_valid p.type ≡ true)
          × IsPublished req p now b (handle_packet digest token req now b))
unfolding handle_packet
handle_packet-IsAnswered digest token req now b =
    elim (Bool-cases (require_token digest token req.authorization req.query_token)) [
      | inl r ↦
          elim (Bool-cases (allows (or_else req.address (codes "loopback")) now b.buckets).0) [
            | inl l ↦ rw r (
                rw l
                  (elim (checked_packet-IsAnswered req now (admitted req now b)
                    (parse_packet req.body) refl) [
                      | inl (p, e, v, a) ↦ inr (refl, refl, p, e, v, a)
                      | inr a ↦ inl a
                    ]))
            | inr l ↦ rw r (rw l (inl (inr (inr (inr (inl refl))), refl)))
          ]
      | inr r ↦ rw r (inl (inr (inr (inl refl)), refl))
    ]

-- No such answer counts as a delivery.
pub silent_status : (s : ℕ) → In s (208 ∷ 400 ∷ 401 ∷ 429 ∷ []) → (s ≢ 202) × (http_ok s ≡ false)
silent_status s h = (λ e. ground (arith, h, e), ground (arith, h))
