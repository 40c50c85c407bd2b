-- ===== src/Kds/Feed.antt =====
-- The frames of a stream do not depend on how it is cut into chunks (apps/kds/app/page.tsx).
use mathlib.Core.List.{append-nil, append_assoc}
use hotelia.Prelude.{
  ℕ, ◌≡◌, refl, sym, ◌∙◌, ap, Text, List, [], ◌∷◌, ◌++◌, ◌&&◌, ◌==◌, inl, inr, if◌then◌else◌,
  Bool-cases,
}
use hotelia.Kds.Frames.{push_char, begin_frame, frames_of, consume, consume_all}

-- The frames of a text, and then those of its last part with more text behind it.
abbrev joined : List Text × Text → Text → List Text × Text
joined (fs, s) t = (fs ++ (frames_of (s ++ t)).0, (frames_of (s ++ t)).1)

push_char-last :
    (a : ℕ) (r : List Text × Text) (s : Text)
    → (r.0 ≡ [] → r.1 ≡ s)
    → (push_char a r).0 ≡ []
    → (push_char a r).1 ≡ a ∷ s
push_char-last a ([], l) s h e = ap (λ z. a ∷ z) (h refl)
push_char-last a (f ∷ fs, l) s h e = absurd (cc e)

-- A text with no frame is its own last part.
last_part : (s : Text) → (frames_of s).0 ≡ [] → (frames_of s).1 ≡ s
unfolding frames_of
last_part [] h = refl
last_part (a ∷ []) h = refl
last_part (a ∷ b ∷ s) h = elim (Bool-cases (a == 10 && b == 10)) [
  | inl e ↦ absurd (
      cc (
        ap (λ c. (if c then begin_frame (frames_of s) else push_char a (frames_of (b ∷ s))).0)
            (sym e),
        h,
      ))
  | inr e ↦ rw e (
      push_char-last a (frames_of (b ∷ s)) (b ∷ s) (last_part (b ∷ s)) (
        ap (λ c. (if c then begin_frame (frames_of s) else push_char a (frames_of (b ∷ s))).0)
          (sym e)
        ∙ h))
]

joined-push_char :
    (a : ℕ) (r : List Text × Text) (s t : Text)
    → (r.0 ≡ [] → r.1 ≡ s)
    → frames_of (a ∷ s ++ t) ≡ push_char a (frames_of (s ++ t))
    → joined (push_char a r) t ≡ push_char a (joined r t)
joined-push_char a ([], l) s t h e = rw (h refl) e
joined-push_char a (f ∷ fs, l) s t h e = refl

frames_of-append : (s t : Text) → frames_of (s ++ t) ≡ joined (frames_of s) t
unfolding frames_of
frames_of-append [] t = refl
frames_of-append (a ∷ []) t = refl
frames_of-append (a ∷ b ∷ s) t = elim (Bool-cases (a == 10 && b == 10)) [
  | inl e ↦ rw e (ap begin_frame (frames_of-append s t))
  | inr e ↦ rw e (
      ap (push_char a) (frames_of-append (b ∷ s) t)
      ∙ sym (joined-push_char a (frames_of (b ∷ s)) (b ∷ s) t (last_part (b ∷ s)) (rw e refl)))
]

push_char-buffer :
    (a : ℕ) (r : List Text × Text) (s : Text)
    → (r.0 ≡ [] → r.1 ≡ s)
    → frames_of r.1 ≡ ([], r.1)
    → frames_of (a ∷ s) ≡ push_char a r
    → frames_of (push_char a r).1 ≡ ([], (push_char a r).1)
push_char-buffer a ([], l) s h k e = rw (h refl) (e ∙ ap (λ z. ([], a ∷ z)) (h refl))
push_char-buffer a (f ∷ fs, l) s h k e = k

-- The buffer that is left holds no frame.
buffer_of : (s : Text) → frames_of (frames_of s).1 ≡ ([], (frames_of s).1)
unfolding frames_of
buffer_of [] = refl
buffer_of (a ∷ []) = refl
buffer_of (a ∷ b ∷ s) = elim (Bool-cases (a == 10 && b == 10)) [
  | inl e ↦ rw e (buffer_of s)
  | inr e ↦ rw e (
      push_char-buffer a (frames_of (b ∷ s)) (b ∷ s) (last_part (b ∷ s)) (buffer_of (b ∷ s))
        (rw e refl))
]

abbrev pub concat : List Text → Text
concat [] = []
concat (c ∷ cs) = c ++ concat cs

-- However a text is cut into chunks, the frames that are read and the buffer that is left are those
-- of the text at once, after a buffer that holds no frame.
pub consume_all-concat :
    (buffer : Text) (cs : List Text)
    → frames_of buffer ≡ ([], buffer)
    → consume_all buffer cs ≡ frames_of (buffer ++ concat cs)
unfolding consume_all consume
consume_all-concat buffer [] h = sym (ap frames_of (append-nil buffer) ∙ h)
consume_all-concat buffer (c ∷ cs) h =
    ap (λ r. ((frames_of (buffer ++ c)).0 ++ r.0, r.1))
      (consume_all-concat (frames_of (buffer ++ c)).1 cs (buffer_of (buffer ++ c)))
    ∙ sym (frames_of-append (buffer ++ c) (concat cs))
    ∙ ap frames_of (append_assoc buffer c (concat cs))
