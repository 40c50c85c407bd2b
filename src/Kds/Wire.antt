-- ===== src/Kds/Wire.antt =====
-- The kitchen display reads what the broker writes (apps/kds/app/page.tsx with
-- apps/console/src/main/server.ts).
use mathlib.Core.List.{append_assoc}
use hotelia.Prelude.{
  ℕ, ◌≡◌, ◌≢◌, refl, ◌∙◌, ap, Text, codes, List, [], ◌∷◌, ◌++◌, All, arith, split_on, All-append,
  starts_with,
}
use hotelia.Broker.Written.{Written, connected, ping, event, body_of, text_of}
use hotelia.Kds.Frames.{
  push_char, frames_of, consume_all, slice, event_of, data_of, read_lines, read_frame, read_frames,
}
use hotelia.Kds.Feed.{concat, consume_all-concat}

-- A text of one line.
abbrev pub IsLine : Text → Type 0
IsLine = All (λ c. c ≢ 10)

-- The type and the data are one line each, and there are data.
abbrev pub IsSent : Written → Type 0
IsSent connected = Unit
IsSent ping = Unit
IsSent (event t d) = IsLine t × IsLine d × (d ≢ [])

-- The events among what is written.
unfoldable pub events_of : List Written → List (Text × Text)
events_of [] = []
events_of (event t d ∷ ws) = (t, d) ∷ events_of ws
events_of (w ∷ ws) = events_of ws

frames_of-cons : (c : ℕ) (s : Text) → c ≢ 10 → frames_of (c ∷ s) ≡ push_char c (frames_of s)
unfolding frames_of
frames_of-cons c [] h = refl
frames_of-cons c (b ∷ s) h = ground (arith, h)

frames_of-line :
    (s t : Text) → IsLine s → frames_of (s ++ 10 ∷ 10 ∷ t) ≡ (s ∷ (frames_of t).0, (frames_of t).1)
unfolding frames_of
frames_of-line [] t h = refl
frames_of-line (c ∷ s) t h =
    frames_of-cons c (s ++ 10 ∷ 10 ∷ t) h.0 ∙ ap (push_char c) (frames_of-line s t h.1)

frames_of-prefix :
    (s t f : Text) (fs : List Text) (l : Text)
    → IsLine s
    → frames_of t ≡ (f ∷ fs, l)
    → frames_of (s ++ t) ≡ ((s ++ f) ∷ fs, l)
frames_of-prefix [] t f fs l h e = e
frames_of-prefix (c ∷ s) t f fs l h e =
    frames_of-cons c (s ++ t) h.0 ∙ ap (push_char c) (frames_of-prefix s t f fs l h.1 e)

split_on-line : (s t : Text) → IsLine s → split_on 10 (s ++ 10 ∷ t) ≡ s ∷ split_on 10 t
unfolding split_on
split_on-line [] t h = refl
split_on-line (c ∷ s) t h = ground (arith, h.0, split_on-line s t h.1)

split_on-last : (s : Text) → IsLine s → split_on 10 s ≡ s ∷ []
unfolding split_on
split_on-last [] h = refl
split_on-last (c ∷ s) h = ground (arith, h.0, split_on-last s h.1)

All-codes_event : IsLine (codes "event: ")
All-codes_event = ground arith

All-codes_data : IsLine (codes "data: ")
All-codes_data = ground arith

event_body :
    (t d s : Text)
    → IsLine t
    → IsLine d
    → frames_of (body_of (event t d) ++ 10 ∷ 10 ∷ s)
      ≡ (body_of (event t d) ∷ (frames_of s).0, (frames_of s).1)
unfolding body_of frames_of
event_body t d s h k =
    ap (λ z. frames_of (codes "event: " ++ z))
      (append_assoc t (10 ∷ (codes "data: " ++ d)) (10 ∷ 10 ∷ s))
    ∙ frames_of-prefix (codes "event: ") (t ++ 10 ∷ (codes "data: " ++ (d ++ 10 ∷ 10 ∷ s)))
        (t ++ 10 ∷ (codes "data: " ++ d)) (frames_of s).0 (frames_of s).1 All-codes_event
        (frames_of-prefix t (10 ∷ (codes "data: " ++ (d ++ 10 ∷ 10 ∷ s)))
          (10 ∷ (codes "data: " ++ d)) (frames_of s).0 (frames_of s).1 h
          (ap (push_char 10) (
            frames_of-prefix (codes "data: ") (d ++ 10 ∷ 10 ∷ s) d (frames_of s).0 (frames_of s).1
              All-codes_data (frames_of-line d s k))))

frames_of-written :
    (w : Written) (s : Text)
    → IsSent w
    → frames_of (body_of w ++ 10 ∷ 10 ∷ s) ≡ (body_of w ∷ (frames_of s).0, (frames_of s).1)
unfolding body_of
frames_of-written connected s h = frames_of-line (codes ": connected") s (ground arith)
frames_of-written ping s h = frames_of-line (codes ": ping") s (ground arith)
frames_of-written (event t d) s h = event_body t d s h.0 h.1

read_lines-event :
    (t d : Text)
    → d ≢ []
    → read_lines ((codes "event: " ++ t) ∷ (codes "data: " ++ d) ∷ []) ≡ (t, d) ∷ []
unfolding read_lines event_of data_of starts_with slice
read_lines-event t [] n = absurd (n refl)
read_lines-event t (c ∷ d) n = refl

read_frame-event :
    (t d : Text) → IsLine t → IsLine d → d ≢ [] → read_frame (body_of (event t d)) ≡ (t, d) ∷ []
unfolding body_of read_frame
read_frame-event t d h k n =
    ap read_lines (
      split_on-line (codes "event: " ++ t) (codes "data: " ++ d)
        (All-append (λ c. c ≢ 10) (codes "event: ") t All-codes_event h)
      ∙ ap (λ l. (codes "event: " ++ t) ∷ l)
          (split_on-last (codes "data: " ++ d)
            (All-append (λ c. c ≢ 10) (codes "data: ") d All-codes_data k)))
    ∙ read_lines-event t d n

read_frame-written :
    (w : Written) (ws : List Written)
    → IsSent w
    → read_frame (body_of w) ++ events_of ws ≡ events_of (w ∷ ws)
unfolding body_of read_frame read_lines event_of data_of split_on starts_with slice events_of
read_frame-written connected ws h = refl
read_frame-written ping ws h = refl
read_frame-written (event t d) ws h = ap (λ l. l ++ events_of ws) (read_frame-event t d h.0 h.1 h.2)

read_frames-written :
    (ws : List Written) → All IsSent ws → read_frames (frames_of (text_of ws)).0 ≡ events_of ws
unfolding read_frames text_of events_of frames_of
read_frames-written [] h = refl
read_frames-written (w ∷ ws) h =
    ap (λ r. read_frames r.0) (frames_of-written w (text_of ws) h.0)
    ∙ ap (λ l. read_frame (body_of w) ++ l) (read_frames-written ws h.1)
    ∙ read_frame-written w ws h.0

frames_of-nil : frames_of [] ≡ ([], [])
unfolding frames_of
frames_of-nil = refl

-- Events of one line each, with data, which the broker writes with its comments between them, are
-- what the display reads, in order and once each, however the text is cut into chunks.
pub read_frames-text_of :
    (ws : List Written) (cs : List Text)
    → All IsSent ws
    → concat cs ≡ text_of ws
    → read_frames (consume_all [] cs).0 ≡ events_of ws
read_frames-text_of ws cs h e =
    ap (λ r. read_frames r.0) (consume_all-concat [] cs frames_of-nil)
    ∙ ap (λ t. read_frames (frames_of t).0) e
    ∙ read_frames-written ws h
