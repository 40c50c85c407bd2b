-- ===== src/Console/Toasts.antt =====
-- The toasts (`ToastProvider` of apps/console/src/renderer/toast.tsx). The number of a toast stands
-- for its identifier, and a timer is kept with the time at which it fires. The actions of toasts,
-- which no view uses, are left out.
use hotelia.Prelude.{
  ℕ, ◌+◌, ◌≡◌, refl, sym, ap, ◌∙◌, List, [], ◌∷◌, ◌++◌, Bool, true, false, not, leb, ◌==◌,
  if◌then◌else◌, arith,
}
use hotelia.Prelude.Table.{select}
use hotelia.Console.View.{ToastKind, error, Notice}

pub record Toast : Type 0 where
  pub id : ℕ
  pub notice : Notice

pub record Timer : Type 0 where
  pub id : ℕ
  pub fires : ℕ

pub record Toasts : Type 0 where
  pub seq : ℕ
  pub toasts : List Toast
  pub timers : List Timer

abbrev pub no_toasts : Toasts
no_toasts = record { seq = 0; toasts = []; timers = [] }

-- `t.kind === 'error' ? 9000 : 4500`
abbrev pub lifetime : ToastKind → ℕ
lifetime error = 9000
lifetime _ = 4500

abbrev is_other : ℕ → ℕ → Bool
is_other i j = not (j == i)

-- `dismiss`
unfoldable pub dismiss : ℕ → Toasts → Toasts
dismiss i s = record s {
  toasts = select (λ t. is_other i t.id) s.toasts;
  timers = select (λ t. is_other i t.id) s.timers;
}

-- `push`, at the time `now`
unfoldable pub push : ℕ → Notice → Toasts → Toasts
push now n s = record {
  seq = s.seq + 1;
  toasts = s.toasts ++ record { id = s.seq + 1; notice = n } ∷ [];
  timers = s.timers ++ record { id = s.seq + 1; fires = now + lifetime n.kind } ∷ [];
}

dismiss_each : List Timer → ℕ → Toasts → Toasts
unfolding dismiss
dismiss_each [] now s = s
dismiss_each (t ∷ ts) now s =
    let rest = dismiss_each ts now s in if leb t.fires now then dismiss t.id rest else rest

-- The timers that fire until the time `now`.
unfoldable pub fire : ℕ → Toasts → Toasts
unfolding dismiss_each
fire now s = dismiss_each s.timers now s

-- One event: a view pushes, the user dismisses, or timers fire.
pub data ToastEvent : Type 0 where
  pushes : ℕ → Notice → ToastEvent
  dismisses fires_until : ℕ → ToastEvent

unfoldable pub apply : ToastEvent → Toasts → Toasts
unfolding push dismiss fire
apply (pushes now n) = push now n
apply (dismisses i) = dismiss i
apply (fires_until now) = fire now

unfoldable pub apply_each : List ToastEvent → Toasts → Toasts
unfolding apply
apply_each [] s = s
apply_each (e ∷ es) s = apply_each es (apply e s)

toast_ids : List Toast → List ℕ
toast_ids [] = []
toast_ids (t ∷ ts) = t.id ∷ toast_ids ts

timer_ids : List Timer → List ℕ
timer_ids [] = []
timer_ids (t ∷ ts) = t.id ∷ timer_ids ts

-- Every toast has its timer, in the same order.
abbrev IsTimed : Toasts → Type 0
IsTimed s = toast_ids s.toasts ≡ timer_ids s.timers

select-toast_ids :
    (i : ℕ) (ts : List Toast)
    → toast_ids (select (λ t. is_other i t.id) ts) ≡ select (is_other i) (toast_ids ts)
unfolding toast_ids
select-toast_ids i [] = refl
select-toast_ids i (t ∷ ts) = ground (arith, select-toast_ids i ts)

select-timer_ids :
    (i : ℕ) (ts : List Timer)
    → timer_ids (select (λ t. is_other i t.id) ts) ≡ select (is_other i) (timer_ids ts)
unfolding timer_ids
select-timer_ids i [] = refl
select-timer_ids i (t ∷ ts) = ground (arith, select-timer_ids i ts)

dismiss-IsTimed : (i : ℕ) (s : Toasts) → IsTimed s → IsTimed (dismiss i s)
unfolding dismiss
dismiss-IsTimed i s h =
    select-toast_ids i s.toasts ∙ ap (select (is_other i)) h ∙ sym (select-timer_ids i s.timers)

append-toast_ids :
    (ts : List Toast) (t : Toast) → toast_ids (ts ++ t ∷ []) ≡ toast_ids ts ++ t.id ∷ []
unfolding toast_ids
append-toast_ids [] t = refl
append-toast_ids (u ∷ ts) t = ap (λ l. u.id ∷ l) (append-toast_ids ts t)

append-timer_ids :
    (ts : List Timer) (t : Timer) → timer_ids (ts ++ t ∷ []) ≡ timer_ids ts ++ t.id ∷ []
unfolding timer_ids
append-timer_ids [] t = refl
append-timer_ids (u ∷ ts) t = ap (λ l. u.id ∷ l) (append-timer_ids ts t)

push-IsTimed : (now : ℕ) (n : Notice) (s : Toasts) → IsTimed s → IsTimed (push now n s)
unfolding push
push-IsTimed now n s h =
    append-toast_ids s.toasts _
    ∙ ap (λ l. l ++ (s.seq + 1) ∷ []) h
    ∙ sym (append-timer_ids s.timers _)

if_IsTimed : (b : Bool) (s t : Toasts) → IsTimed s → IsTimed t → IsTimed (if b then s else t)
if_IsTimed true s t g h = g
if_IsTimed false s t g h = h

dismiss_each-IsTimed :
    (ts : List Timer) (now : ℕ) (s : Toasts) → IsTimed s → IsTimed (dismiss_each ts now s)
unfolding dismiss_each
dismiss_each-IsTimed [] now s h = h
dismiss_each-IsTimed (t ∷ ts) now s h =
    let k = dismiss_each-IsTimed ts now s h in
    if_IsTimed (leb t.fires now) (dismiss t.id (dismiss_each ts now s)) (dismiss_each ts now s)
      (dismiss-IsTimed t.id (dismiss_each ts now s) k) k

apply-IsTimed : (e : ToastEvent) (s : Toasts) → IsTimed s → IsTimed (apply e s)
unfolding apply fire
apply-IsTimed (pushes now n) s h = push-IsTimed now n s h
apply-IsTimed (dismisses i) s h = dismiss-IsTimed i s h
apply-IsTimed (fires_until now) s h = dismiss_each-IsTimed s.timers now s h

-- After any history of the toasts every toast has its timer, and no timer is left without a toast.
apply_each-IsTimed : (es : List ToastEvent) (s : Toasts) → IsTimed s → IsTimed (apply_each es s)
unfolding apply_each
apply_each-IsTimed [] s h = h
apply_each-IsTimed (e ∷ es) s h = apply_each-IsTimed es (apply e s) (apply-IsTimed e s h)
