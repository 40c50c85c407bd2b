-- ===== src/Broker/Streams.antt =====
-- What opening and closing a stream does to the handlers (`GET /stream` of
-- apps/console/src/main/server.ts).
use hotelia.Prelude.{
  ℕ, ◌≡◌, ◌≢◌, refl, sym, ◌∙◌, ap, Text, List, [], ◌∷◌, ◌++◌, Bool, true, false, inl, inr, arith,
  if◌then◌else◌, same_text, Bool-cases, same_text_iff,
}
use mathlib.Core.List.{append-nil, append_assoc}
use hotelia.Events.Registry.{includes}
use hotelia.Broker.Bus.{
  Handlers, handlers_of, subscribe, without, unsubscribe, handlers_of-set_handlers, IsNew,
  without-IsNew, without-twice,
}
use hotelia.Broker.Stream.{
  EventsQuery, requested, unknown, no_texts, closures_for, subscribe_each, unsubscribe_each,
  open_stream, close_stream,
}

handlers_of-subscribe :
    (n m : Text) (i : ℕ) (b : Handlers)
    → handlers_of n (subscribe m i b)
      ≡ (if same_text m n then handlers_of n b ++ i ∷ [] else handlers_of n b)
unfolding subscribe
handlers_of-subscribe n m i b =
    ground (arith, same_text_iff m n, handlers_of-set_handlers n m (handlers_of m b ++ i ∷ []) b)

handlers_of-unsubscribe :
    (n m : Text) (i : ℕ) (b : Handlers)
    → handlers_of n (unsubscribe m i b)
      ≡ (if same_text m n then without i (handlers_of n b) else handlers_of n b)
unfolding unsubscribe
handlers_of-unsubscribe n m i b =
    ground (arith, same_text_iff m n, handlers_of-set_handlers n m (without i (handlers_of m b)) b)

-- The closures of a connection that a name has.
abbrev own : Text → List Text → ℕ → List ℕ
own n [] i = []
own n (m ∷ l) i = if same_text m n then i ∷ own n l i else own n l i

handlers_of-subscribe_each :
    (n : Text) (l : List Text) (i : ℕ) (b : Handlers)
    → handlers_of n (subscribe_each l i b) ≡ handlers_of n b ++ own n l i
unfolding subscribe_each
handlers_of-subscribe_each n [] i b = sym (append-nil (handlers_of n b))
handlers_of-subscribe_each n (m ∷ l) i b = ground (
  arith,
  handlers_of-subscribe n m i b,
  append_assoc (handlers_of n b) (i ∷ []) (own n l i),
  handlers_of-subscribe_each n l i (subscribe m i b),
)

handlers_of-unsubscribe_each :
    (n : Text) (l : List Text) (i : ℕ) (b : Handlers)
    → handlers_of n (unsubscribe_each l i b)
      ≡ (if includes n l then without i (handlers_of n b) else handlers_of n b)
unfolding unsubscribe_each includes
handlers_of-unsubscribe_each n [] i b = refl
handlers_of-unsubscribe_each n (m ∷ l) i b = ground (
  arith,
  handlers_of-unsubscribe n m i b,
  without-twice i (handlers_of n b),
  handlers_of-unsubscribe_each n l i (unsubscribe m i b),
)

own-none : (n : Text) (l : List Text) (i : ℕ) → includes n l ≡ false → own n l i ≡ []
unfolding includes
own-none n [] i h = refl
own-none n (m ∷ l) i h = ground (arith, h, own-none n l i)

without-own :
    (i : ℕ) (h : List ℕ) (n : Text) (l : List Text) → without i (h ++ own n l i) ≡ without i h
unfolding without
without-own i [] n [] = refl
without-own i [] n (m ∷ l) = ground (arith, without-own i [] n l)
without-own i (g ∷ h) n l = ground (arith, without-own i h n l)

abbrev is_accepted : EventsQuery → Bool
is_accepted q = no_texts (unknown (requested q))

-- The closures of the stream that a name has after the stream is opened.
abbrev added : Text → ℕ → EventsQuery → List ℕ
added n i q = if is_accepted q then own n (closures_for (requested q)) i else []

handlers_of-open_stream :
    (n : Text) (i : ℕ) (q : EventsQuery) (b : Handlers)
    → handlers_of n (open_stream i q b).2 ≡ handlers_of n b ++ added n i q
unfolding open_stream
handlers_of-open_stream n i q b = elim (Bool-cases (is_accepted q)) [
  | inl e ↦ rw e (handlers_of-subscribe_each n (closures_for (requested q)) i b)
  | inr e ↦ rw e (sym (append-nil (handlers_of n b)))
]

is_accepted-open : (i : ℕ) (q : EventsQuery) (b : Handlers) → (open_stream i q b).1 ≡ is_accepted q
unfolding open_stream
is_accepted-open i q b = elim (Bool-cases (is_accepted q)) [ inl e ↦ rw e refl | inr e ↦ rw e refl ]

handlers_of-close_stream :
    (n : Text) (i : ℕ) (q : EventsQuery) (b : Handlers)
    → handlers_of n (close_stream i q b) ≡ (
        if includes n (closures_for (requested q))
        then without i (handlers_of n b)
        else handlers_of n b)
unfolding close_stream
handlers_of-close_stream n i q b = handlers_of-unsubscribe_each n (closures_for (requested q)) i b

without-other :
    (i j : ℕ) (h : List ℕ) (n : Text) (l : List Text)
    → i ≢ j
    → without i (h ++ own n l j) ≡ without i h ++ own n l j
unfolding without
without-other i j [] n [] d = refl
without-other i j [] n (m ∷ l) d = ground (arith, d, without-other i j [] n l d)
without-other i j (g ∷ h) n l d = ground (arith, without-other i j h n l d)

without-added :
    (n : Text) (i j : ℕ) (r : EventsQuery) (h : List ℕ)
    → i ≢ j
    → without i (h ++ added n j r) ≡ without i h ++ added n j r
without-added n i j r h d = elim (Bool-cases (is_accepted r)) [
  | inl e ↦ rw e (without-other i j h n (closures_for (requested r)) d)
  | inr e ↦ rw e (ap (without i) (append-nil h) ∙ sym (append-nil (without i h)))
]

-- What closing leaves of the handlers that opening added.
abbrev closed : Text → ℕ → EventsQuery → List ℕ → List ℕ
closed n i q h = if includes n (closures_for (requested q)) then without i h else h

closed-added :
    (n : Text) (i j : ℕ) (q r : EventsQuery) (h : List ℕ)
    → IsNew i h
    → i ≢ j
    → closed n i q (h ++ own n (closures_for (requested q)) i ++ added n j r) ≡ h ++ added n j r
closed-added n i j q r h new d = elim (Bool-cases (includes n (closures_for (requested q)))) [
  | inl e ↦ rw e (
      without-added n i j r (h ++ own n (closures_for (requested q)) i) d
      ∙ ap (λ k. k ++ added n j r)
          (without-own i h n (closures_for (requested q)) ∙ without-IsNew i h new))
  | inr e ↦ rw e (
      ap (λ k. k ++ added n j r)
        (ap (λ k. h ++ k) (own-none n (closures_for (requested q)) i e) ∙ append-nil h))
]

added-accepted :
    (n : Text) (i : ℕ) (q : EventsQuery)
    → is_accepted q ≡ true
    → added n i q ≡ own n (closures_for (requested q)) i
added-accepted n i q e = rw e refl

-- A stream that is opened and closed leaves every name with the handlers that it would have
-- without that stream, also if another one is opened in between: its number is new, and the other
-- has a different one.
pub close_stream-open_stream :
    (n : Text) (i j : ℕ) (q r : EventsQuery) (b : Handlers)
    → IsNew i (handlers_of n b)
    → i ≢ j
    → (open_stream i q b).1 ≡ true
    → handlers_of n (close_stream i q (open_stream j r (open_stream i q b).2).2)
      ≡ handlers_of n (open_stream j r b).2
close_stream-open_stream n i j q r b new d o =
    handlers_of-close_stream n i q (open_stream j r (open_stream i q b).2).2
    ∙ ap (closed n i q) (
        handlers_of-open_stream n j r (open_stream i q b).2
        ∙ ap (λ k. k ++ added n j r)
            (handlers_of-open_stream n i q b
              ∙ ap (λ k. handlers_of n b ++ k)
                  (added-accepted n i q (sym (is_accepted-open i q b) ∙ o))))
    ∙ closed-added n i j q r (handlers_of n b) new d
    ∙ sym (handlers_of-open_stream n j r b)
