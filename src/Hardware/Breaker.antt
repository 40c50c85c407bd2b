-- ===== src/Hardware/Breaker.antt =====
-- `CircuitBreaker` (apps/console/src/main/hardware/lockBridge.ts). The clock is an argument.
use hotelia.Prelude.{ℕ, ◌+◌, ◌≤◌, ◌<◌, ◌≡◌, Bool, true, false, arith, leb, if◌then◌else◌}

pub data BreakerState : Type 0 where
  closed open_ paused : BreakerState

pub record CircuitBreaker : Type 0 where
  pub state : BreakerState
  pub consecutive_failures : ℕ
  pub opened_at : ℕ
  pub failure_threshold : ℕ
  pub cooldown_ms : ℕ

abbrev pub new_breaker : CircuitBreaker
new_breaker = record {
  state = closed;
  consecutive_failures = 0;
  opened_at = 0;
  failure_threshold = 3;
  cooldown_ms = 30000;
}

abbrev pub close_breaker : CircuitBreaker → CircuitBreaker
close_breaker b = record b { state = closed; consecutive_failures = 0 }

-- `Date.now() - openedAt >= cooldownMs`
abbrev pub is_cool : ℕ → CircuitBreaker → Bool
is_cool now b = leb (b.opened_at + b.cooldown_ms) now

abbrev pub allow_in : BreakerState → ℕ → CircuitBreaker → Bool × CircuitBreaker
allow_in paused now b = (false, b)
allow_in open_ now b = if is_cool now b then (true, close_breaker b) else (false, b)
allow_in closed now b = (true, b)

unfoldable pub allow : ℕ → CircuitBreaker → Bool × CircuitBreaker
allow now b = allow_in b.state now b

unfoldable pub on_success : CircuitBreaker → CircuitBreaker
on_success b = close_breaker b

unfoldable pub on_failure : ℕ → CircuitBreaker → CircuitBreaker
on_failure now b =
    let failures = b.consecutive_failures + 1 in
    if leb b.failure_threshold failures
    then record b { consecutive_failures = failures; state = open_; opened_at = now }
    else record b { consecutive_failures = failures }

unfoldable pub pause : CircuitBreaker → CircuitBreaker
pause b = record b { state = paused }

unfoldable pub resume : CircuitBreaker → CircuitBreaker
resume b = close_breaker b

-- What may happen to a breaker, with the time of each event.
pub data BreakerEvent : Type 0 where
  asked failure : ℕ → BreakerEvent
  success pausing resuming : BreakerEvent

abbrev pub react : BreakerEvent → CircuitBreaker → CircuitBreaker
react (asked now) b = (allow now b).1
react (failure now) b = on_failure now b
react success b = on_success b
react pausing b = pause b
react resuming b = resume b

abbrev pub CountsRight : BreakerState → ℕ → ℕ → Type 0
CountsRight closed failures threshold = failures < threshold
CountsRight open_ failures threshold = threshold ≤ failures
CountsRight paused failures threshold = Unit

-- A closed breaker has not reached its threshold, an open one has.
pub record IsValid (b : CircuitBreaker) : Type 0 where
  pub positive : 0 < b.failure_threshold
  pub counted : CountsRight b.state b.consecutive_failures b.failure_threshold

-- Every event keeps the breaker valid.
react-IsValid : (e : BreakerEvent) (b : CircuitBreaker) → IsValid b → IsValid (react e b)
unfolding allow on_success on_failure pause resume
react-IsValid (asked now) b v = ground (arith, v.positive, v.counted)
react-IsValid (failure now) b v = ground (arith, v.positive, v.counted)
react-IsValid success b v = ground (arith, v.positive)
react-IsValid pausing b v = ground (arith, v.positive)
react-IsValid resuming b v = ground (arith, v.positive)

-- Until its cooldown has passed an open breaker refuses and does not change; from then on it lets
-- a request through and is closed.
pub allow_open :
    (now : ℕ) (b : CircuitBreaker)
    → b.state ≡ open_
    → (now < b.opened_at + b.cooldown_ms → allow now b ≡ (false, b))
      × (b.opened_at + b.cooldown_ms ≤ now → allow now b ≡ (true, close_breaker b))
unfolding allow
allow_open now b o = (λ h. ground (arith, o, h), λ h. ground (arith, o, h))
