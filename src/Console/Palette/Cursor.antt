-- ===== src/Console/Palette/Cursor.antt =====
-- Where the cursor of the palette stands (apps/console/src/renderer/palette.tsx).
use hotelia.Prelude.{
  ℕ, zero, suc, ◌<◌, ◌≡◌, ◌⊎◌, inl, inr, Bool, if◌then◌else◌, refl, ap, ◌∙◌, Text, List, [], ◌∷◌,
  Option, none, some, true, false, ltb, same_text, length, arith, get_elem?, Bool-cases, In,
}
use hotelia.Prelude.Int.{ℤ, pos, negsuc}
use hotelia.Console.Palette.{
  PaletteCommand, Palette, PaletteEvent, types, arrow_down, arrow_up, enter, escape, hovers, clicks,
  filtered, open_palette, step_down, step_up, at_cursor, run_command, react, on_event, on_events,
}

-- The cursor is on a command that is shown, or at most at the place before or at the first one where
-- none is shown.
abbrev pub IsOn : ℤ → ℕ → Type 0
IsOn (negsuc c) n = (c ≡ 0) × (n ≡ 0)
IsOn (pos c) n = (c < n) ⊎ (c ≡ 0)

step_down-IsOn : (c : ℤ) (n : ℕ) → IsOn c n → IsOn (step_down c n) n
step_down-IsOn c zero h = (refl, refl)
step_down-IsOn (negsuc zero) (suc n) h = inr refl
step_down-IsOn (negsuc (suc c)) (suc n) h = absurd (cc h.0)
step_down-IsOn (pos c) (suc n) h = elim (Bool-cases (ltb c n)) [
  | inl e ↦ rw e (inl (ground arith))
  | inr e ↦ rw e (inl (omega arith))
]

step_up-IsOn : (c : ℤ) (n : ℕ) → IsOn c n → IsOn (step_up c) n
step_up-IsOn (negsuc c) n h = inr refl
step_up-IsOn (pos c) n (inl h) = inl (omega arith)
step_up-IsOn (pos c) n (inr h) = inr (omega arith)

-- The cursor of a palette stands so for the commands that pass the filter.
abbrev IsPlaced : (Text → Text) → List PaletteCommand → Palette → Type 0
IsPlaced lower commands s = IsOn s.cursor (length (filtered lower commands s.query))

module _ (lower : Text → Text) (commands : List PaletteCommand) where
  run-IsPlaced :
      (o : Option PaletteCommand) (s : Palette)
      → IsPlaced lower commands s
      → IsPlaced lower commands (run_command o s)
  run-IsPlaced none s h = h
  run-IsPlaced (some c) s h = h

  react-IsPlaced :
      (e : PaletteEvent) (s : Palette)
      → IsPlaced lower commands s
      → IsPlaced lower commands (react (filtered lower commands s.query) e s)
  react-IsPlaced (types q) s h = elim (Bool-cases (same_text q s.query)) [
    | inl e ↦ rw e h
    | inr e ↦ rw e (inr refl)
  ]
  react-IsPlaced arrow_down s h = step_down-IsOn s.cursor _ h
  react-IsPlaced arrow_up s h = step_up-IsOn s.cursor _ h
  react-IsPlaced enter s h = run-IsPlaced _ s h
  react-IsPlaced escape s h = h
  react-IsPlaced (hovers i) s h =
      elim (Bool-cases (ltb i (length (filtered lower commands s.query)))) [
        | inl e ↦ rw e (inl (ground arith))
        | inr e ↦ rw e h
      ]
  react-IsPlaced (clicks i) s h = run-IsPlaced _ s h

  on_event-IsPlaced :
      (e : PaletteEvent) (s : Palette)
      → IsPlaced lower commands s
      → IsPlaced lower commands (on_event lower commands e s)
  unfolding on_event
  on_event-IsPlaced e s h = by_shown s.shown
    where
      by_shown :
          (b : Bool)
          → IsPlaced lower commands (if b then react (filtered lower commands s.query) e s else s)
      by_shown true = react-IsPlaced e s h
      by_shown false = h

  on_events-IsPlaced :
      (es : List PaletteEvent) (s : Palette)
      → IsPlaced lower commands s
      → IsPlaced lower commands (on_events lower commands es s)
  unfolding on_events
  on_events-IsPlaced [] s h = h
  on_events-IsPlaced (e ∷ es) s h =
      on_events-IsPlaced es (on_event lower commands e s) (on_event-IsPlaced e s h)

get_elem?-some :
    {A : Type 0} (l : List A) (n : ℕ) → n < length l → (a : A) × (get_elem? l n ≡ some a) × In a l
get_elem?-some [] n h = absurd (omega arith)
get_elem?-some (x ∷ l) zero h = (x, refl, inl refl)
get_elem?-some (x ∷ l) (suc n) h = let (a, e, m) = get_elem?-some l n (omega arith) in (a, e, inr m)

on-at_cursor :
    (c : ℤ) (l : List PaletteCommand)
    → IsOn c (length l)
    → 0 < length l
    → (a : PaletteCommand) × (at_cursor l c ≡ some a) × In a l
on-at_cursor (negsuc c) l h p = absurd (omega (arith, h.1))
on-at_cursor (pos c) l (inl h) p = get_elem?-some l c h
on-at_cursor (pos c) l (inr h) p = get_elem?-some l c (omega arith)

-- Enter runs one of the commands of a list, and closes the palette.
abbrev pub Runs : List PaletteCommand → Palette → Palette → Type 0
Runs l s t = (c : PaletteCommand) × In c l × (t ≡ record s { ran = c ∷ s.ran; shown = false })

-- After any keys, moves and clicks on an open palette that leave it open, Enter runs exactly one of
-- the commands that pass the filter, if any does, and closes the palette.
pub on_event-Runs :
    (lower : Text → Text) (commands : List PaletteCommand) (es : List PaletteEvent) (s : Palette)
    → let t = on_events lower commands es (open_palette s) in
      t.shown ≡ true
      → 0 < length (filtered lower commands t.query)
      → Runs (filtered lower commands t.query) t (on_event lower commands enter t)
unfolding on_event open_palette
on_event-Runs lower commands es s o p =
    let t = on_events lower commands es (open_palette s) in
    let (a, e, m) =
      on-at_cursor t.cursor (filtered lower commands t.query)
        (on_events-IsPlaced lower commands es (open_palette s) (inr refl)) p in
    (a, m, ap (λ b. if b then react (filtered lower commands t.query) enter t else t) o ∙ rw e refl)
