-- ===== src/Reconnect/Backoff.antt =====
-- reconnectWithBackoff of internal/reconnect/monitor.go. What each attempt meets is a `Round`; a list
-- of rounds that ends leaves the sequence in its next attempt. Delays are nanoseconds.
pub mod Laws
use wireguide.Base.{
  ℕ, ◌+◌, ◌*◌, Bool, true, false, not, ◌&&◌, List, [], ◌∷◌, if◌then◌else◌, ltb, min,
}

-- Config, without WakeGrace, which this loop does not read
pub record Config : Type 0 where
  pub initial_delay : ℕ
  pub max_delay : ℕ
  pub max_attempts : ℕ

-- What reconnectFn returns: nil, an ErrGiveUp, or another error.
pub data Outcome : Type 0 where
  reconnected gave_up failed : Outcome

-- Whether the monitor runs when the attempt begins, whether the wait ends with the timer and not
-- with a cancellation, whether the retry is still wanted behind DisconnectTunnel, and what
-- reconnectFn returns.
pub record Round : Type 0 where
  pub running : Bool
  pub waited : Bool
  pub wanted : Bool
  pub outcome : Outcome

pub data Event : Type 0 where
  notifies : Bool → ℕ → Event
  waits : ℕ → Event
  disconnects reconnects clears_retry releases_hold : Event

-- the deferred calls, in the order in which they run
abbrev pub ends : List Event
ends = clears_retry ∷ releases_hold ∷ []

abbrev pub over_limit : Config → ℕ → Bool
over_limit cfg attempt = ltb 0 cfg.max_attempts && ltb cfg.max_attempts attempt

-- behind reconnectFn
abbrev pub after_reconnect : Outcome → List Event → List Event
after_reconnect reconnected rest = notifies false 0 ∷ ends
after_reconnect gave_up rest = notifies false 0 ∷ ends
after_reconnect failed rest = rest

-- behind the wait
abbrev pub after_wait : Round → List Event → List Event
after_wait r rest =
    if not r.waited
    then ends
    else disconnects ∷ (if not r.wanted then ends else reconnects ∷ after_reconnect r.outcome rest)

abbrev pub next_delay : Config → ℕ → ℕ
next_delay cfg delay = min (delay * 2) cfg.max_delay

-- the loop, from an attempt count and a delay
unfoldable pub retry : Config → ℕ → ℕ → List Round → List Event
retry cfg attempt delay [] = []
retry cfg attempt delay (r ∷ rounds) =
    let rest = retry cfg (attempt + 1) (next_delay cfg delay) rounds in
    if not r.running
    then ends
    else if over_limit cfg (attempt + 1)
    then notifies false attempt ∷ ends
    else notifies true (attempt + 1) ∷ waits delay ∷ after_wait r rest

-- reconnectWithBackoff
unfoldable pub reconnect_with_backoff : Config → List Round → List Event
unfolding retry
reconnect_with_backoff cfg = retry cfg 0 cfg.initial_delay
