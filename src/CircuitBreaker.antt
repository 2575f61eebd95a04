-- ===== src/CircuitBreaker.antt =====
-- src/shared/circuit-breaker: a wrapper of opossum's circuit breaker, which the repository does not
-- contain and which is an interface here.
use Prim.Native.String.{◌++◌ as ◌&◌}
use lior_paris_wallet.Prelude.{ℕ, String, ◌≡◌, ◌⊎◌, Option, none, some}
use lior_paris_wallet.Result.{Result, Exception, err}

-- opossum's `fire` of a breaker that wraps the passthrough: it settles as the function does that it is
-- given, or rejects without its result, when the circuit is open or the call takes too long.
pub record Breaker : Type 1 where
  pub fire : {A : Type 0} → Result A → Result A
  pub fire_lem :
      {A : Type 0} (call : Result A) → (fire call ≡ call) ⊎ ((e : Exception) × (fire call ≡ err e))

-- The options of opossum that are set; times are in milliseconds.
pub record Options : Type 0 where
  pub error_threshold_percentage : ℕ
  pub reset_timeout : ℕ
  pub rolling_count_timeout : ℕ
  pub rolling_count_buckets : ℕ
  pub volume_threshold : ℕ
  pub timeout : ℕ
  pub name : String

-- `new CircuitBreakerLib(passthrough, options)`
abbrev pub Opossum : Type 1
Opossum = Options → Breaker

pub record CircuitBreakerOptions : Type 0 where
  pub error_threshold_percentage : Option ℕ
  pub reset_timeout : Option ℕ
  pub rolling_count_timeout : Option ℕ
  pub rolling_count_buckets : Option ℕ
  pub volume_threshold : Option ℕ
  pub timeout : Option ℕ

-- `DEFAULTS`, of a breaker with a name.
abbrev pub defaults : String → Options
defaults name = record {
  error_threshold_percentage = 50;
  reset_timeout = 30000;
  rolling_count_timeout = 10000;
  rolling_count_buckets = 10;
  volume_threshold = 5;
  timeout = 10000;
  name = name;
}

-- A property of `{ ...DEFAULTS, ...options }`.
abbrev spread : ℕ → Option ℕ → ℕ
spread default none = default
spread default (some value) = value

unfoldable pub with_defaults : String → CircuitBreakerOptions → Options
with_defaults name options =
    let d = defaults name in
    record {
      error_threshold_percentage =
          spread d.error_threshold_percentage options.error_threshold_percentage;
      reset_timeout = spread d.reset_timeout options.reset_timeout;
      rolling_count_timeout = spread d.rolling_count_timeout options.rolling_count_timeout;
      rolling_count_buckets = spread d.rolling_count_buckets options.rolling_count_buckets;
      volume_threshold = spread d.volume_threshold options.volume_threshold;
      timeout = spread d.timeout options.timeout;
      name = name;
    }

-- The constructor, and the breaker that `fire` hands its calls to.
unfoldable pub new_circuit_breaker : Opossum → String → CircuitBreakerOptions → Breaker
unfolding with_defaults
new_circuit_breaker opossum name options = opossum (with_defaults name options)

-- The events of opossum that the constructor listens to, `open`, `halfOpen`, `close` and `fallback`; there
-- are others.
pub data BreakerEvent : Type 0 where
  opened half_opened closed fallback : BreakerEvent
  other : String → BreakerEvent

pub data LogCall : Type 0 where
  warn log : String → LogCall

unfoldable pub on_event : String → BreakerEvent → Option LogCall
on_event name BreakerEvent.opened =
    some (LogCall.warn ("Circuit OPENED — " & name & " is temporarily unavailable"))
on_event name BreakerEvent.half_opened = some (LogCall.log ("Circuit HALF-OPEN — probing " & name))
on_event name BreakerEvent.closed = some (LogCall.log ("Circuit CLOSED — " & name & " recovered"))
on_event name BreakerEvent.fallback = some (LogCall.warn ("Fallback triggered for " & name))
on_event name (BreakerEvent.other event) = none
