-- ===== src/Tests/History.antt =====
-- Runs of the session log.
use wireguide.Base.{true, List, [], ◌∷◌, ◌≡◌, ◌≤◌, refl, length}
use wireguide.Base.Bytes.{codes, equal}
use wireguide.Base.Int.{pos}
use mathlib.Core.List.{reverse}
use wireguide.History.{max_sessions, get_all, seconds_between}
use wireguide.History.Laws.{Operation, connects, disconnects, after, get_all-after}

-- A session of a minute, and one that is dropped because it never carried anything.
abbrev day : List Operation
day =
    disconnects true (codes "b") 70000000000 (pos 0) (pos 0) (codes "user")
    ∷ connects true (codes "b") 70000000000 (codes "home")
    ∷ disconnects true (codes "a") 65000000000 (pos 900) (pos 80) (codes "user")
    ∷ connects true (codes "a") 5000000000 (codes "office")
    ∷ []

one_session : length (after day) ≡ 1
unfolding after equal seconds_between
one_session = refl

get_all-after_example :
    (length (after day) ≤ max_sessions) × (get_all (after day) ≡ reverse (after day))
get_all-after_example = get_all-after day
