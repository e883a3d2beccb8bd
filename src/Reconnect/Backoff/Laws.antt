-- ===== src/Reconnect/Backoff/Laws.antt =====
-- How often a retry sequence tries, how long it waits, and that it gives its firewall hold back.
use wireguide.Base.{
  ℕ, suc, ◌+◌, ◌≤◌, ◌<◌, Bool, true, false, not, List, [], ◌∷◌, if◌then◌else◌, ◌≡◌, arith, length,
  All,
}
use wireguide.Reconnect.Backoff.{
  Config, Round, Outcome, reconnected, gave_up, failed, Event, waits, disconnects, reconnects,
  releases_hold, ends, after_reconnect, after_wait, next_delay, retry, reconnect_with_backoff,
}

abbrev pub reconnect_count : List Event → ℕ
reconnect_count [] = 0
reconnect_count (reconnects ∷ es) = suc (reconnect_count es)
reconnect_count (_ ∷ es) = reconnect_count es

abbrev pub release_count : List Event → ℕ
release_count [] = 0
release_count (releases_hold ∷ es) = suc (release_count es)
release_count (_ ∷ es) = release_count es

abbrev pub IsShortWait : Config → Event → Type 0
IsShortWait cfg (waits d) = d ≤ cfg.max_delay
IsShortWait cfg _ = Unit {0}

retry-attempts :
    (cfg : Config) (attempt delay : ℕ) (rounds : List Round)
    → 0 < cfg.max_attempts
    → attempt ≤ cfg.max_attempts
    → reconnect_count (retry cfg attempt delay rounds) + attempt ≤ cfg.max_attempts
unfolding retry
retry-attempts cfg attempt delay [] limited few = omega arith
retry-attempts cfg attempt delay (r ∷ rounds) limited few =
    ground (arith, retry-attempts cfg (attempt + 1) (next_delay cfg delay) rounds limited)

-- A sequence with a limit calls reconnectFn at most that often.
pub attempts_bounded :
    (cfg : Config) (rounds : List Round)
    → 0 < cfg.max_attempts
    → reconnect_count (reconnect_with_backoff cfg rounds) ≤ cfg.max_attempts
unfolding reconnect_with_backoff
attempts_bounded cfg rounds limited = ground (arith, retry-attempts cfg 0 cfg.initial_delay rounds)

retry-released :
    (cfg : Config) (attempt delay : ℕ) (rounds : List Round)
    → 0 < cfg.max_attempts
    → attempt ≤ cfg.max_attempts
    → cfg.max_attempts < attempt + length rounds
    → release_count (retry cfg attempt delay rounds) ≡ 1
unfolding retry
retry-released cfg attempt delay [] limited few many = absurd (omega arith)
retry-released cfg attempt delay (r ∷ rounds) limited few many =
    ground (arith, retry-released cfg (attempt + 1) (next_delay cfg delay) rounds limited)

-- A sequence with a limit ends after at most one more attempt than the limit, whatever the attempts
-- meet, and has then released its firewall hold exactly once.
pub hold_released_once :
    (cfg : Config) (rounds : List Round)
    → 0 < cfg.max_attempts
    → cfg.max_attempts < length rounds
    → release_count (reconnect_with_backoff cfg rounds) ≡ 1
unfolding reconnect_with_backoff
hold_released_once cfg rounds limited many =
    ground (arith, retry-released cfg 0 cfg.initial_delay rounds limited)

next_delay-bound : (cfg : Config) (delay : ℕ) → next_delay cfg delay ≤ cfg.max_delay
next_delay-bound cfg delay = omega arith

after_reconnect-short :
    (cfg : Config) (o : Outcome) (rest : List Event)
    → All (IsShortWait cfg) rest
    → All (IsShortWait cfg) (after_reconnect o rest)
after_reconnect-short cfg reconnected rest h = (tt, (tt, (tt, tt)))
after_reconnect-short cfg gave_up rest h = (tt, (tt, (tt, tt)))
after_reconnect-short cfg failed rest h = h

after_flags-short :
    (cfg : Config) (waited wanted : Bool) (rest : List Event)
    → All (IsShortWait cfg) rest
    → All (IsShortWait cfg) (
        if not waited then ends else disconnects ∷ (if not wanted then ends else reconnects ∷ rest))
after_flags-short cfg false wanted rest h = (tt, (tt, tt))
after_flags-short cfg true false rest h = (tt, (tt, (tt, tt)))
after_flags-short cfg true true rest h = (tt, (tt, h))

after_wait-short :
    (cfg : Config) (r : Round) (rest : List Event)
    → All (IsShortWait cfg) rest
    → All (IsShortWait cfg) (after_wait r rest)
after_wait-short cfg r rest h =
    after_flags-short cfg r.waited r.wanted (after_reconnect r.outcome rest)
      (after_reconnect-short cfg r.outcome rest h)

retry-short :
    (cfg : Config) (attempt delay : ℕ) (rounds : List Round)
    → delay ≤ cfg.max_delay
    → All (IsShortWait cfg) (retry cfg attempt delay rounds)
unfolding retry
retry-short cfg attempt delay [] short = tt
retry-short cfg attempt delay (r ∷ rounds) short = ground (
  arith,
  next_delay-bound cfg delay,
  retry-short cfg (attempt + 1) (next_delay cfg delay) rounds,
  after_wait-short cfg r (retry cfg (attempt + 1) (next_delay cfg delay) rounds),
)

-- No wait is longer than the longest delay, if the first one is not.
pub waits_bounded :
    (cfg : Config) (rounds : List Round)
    → cfg.initial_delay ≤ cfg.max_delay
    → All (IsShortWait cfg) (reconnect_with_backoff cfg rounds)
unfolding reconnect_with_backoff
waits_bounded cfg rounds short = retry-short cfg 0 cfg.initial_delay rounds short
