-- ===== src/History.antt =====
-- internal/history/history.go: the log of sessions, oldest first. A file that is missing or broken is
-- the empty list; `saves` says whether saveLocked succeeds. Times are nanoseconds.
pub mod Laws
use mathlib.Core.List.{reverse}
use wireguide.Base.{
  ℕ, Bool, true, false, not, ◌&&◌, List, [], ◌∷◌, ◌++◌, ◌-◌, ◌/◌, Option, none, some, if◌then◌else◌,
  ◌==◌, leb, length, drop, filter,
}
use wireguide.Base.Bytes.{Bytes, equal}
use wireguide.Base.Int.{ℤ, pos, is_zero}

pub record Session : Type 0 where
  pub id : Bytes
  pub tunnel_name : Bytes
  pub start_time : ℕ
  pub end_time : Option ℕ
  pub duration_sec : ℕ
  pub rx_bytes : ℤ
  pub tx_bytes : ℤ
  pub disconnect_reason : Bytes

abbrev pub max_sessions : ℕ
max_sessions = 200

-- trim
unfoldable pub trim : List Session → List Session
trim sessions =
    if leb (length sessions) max_sessions
    then sessions
    else drop (length sessions - max_sessions) sessions

abbrev pub saved_as : Bool → List Session → List Session → List Session
saved_as saves old new = if saves then new else old

-- RecordConnect, with the ID and the time that it draws
unfoldable pub record_connect : Bool → Bytes → ℕ → Bytes → List Session → List Session
unfolding trim
record_connect saves id now name sessions = saved_as saves sessions (
    trim (
      sessions
      ++ (record {
        id = id;
        tunnel_name = name;
        start_time = now;
        end_time = none;
        duration_sec = 0;
        rx_bytes = pos 0;
        tx_bytes = pos 0;
        disconnect_reason = [];
      })
        ∷ []))

-- Whole seconds. Subtraction on ℕ stops at 0, which is what the code sets where `dur < 0`.
unfoldable pub seconds_between : ℕ → ℕ → ℕ
seconds_between start now = (now - start) / 1000000000

abbrev pub is_open : Session → Bool
is_open s = elim s.end_time [ none ↦ true | some _ ↦ false ]

-- the body of the loop where it finds the session
unfoldable pub close_session : ℕ → ℤ → ℤ → Bytes → Session → List Session
close_session now rx tx reason s =
    let dur = seconds_between s.start_time now in
    if dur == 0 && (is_zero rx && is_zero tx)
    then []
    else record s {
      end_time = some now;
      duration_sec = dur;
      rx_bytes = rx;
      tx_bytes = tx;
      disconnect_reason = reason;
    }
      ∷ []

-- the loop, which ends at the first open session with the ID
unfoldable pub close_first : Bytes → ℕ → ℤ → ℤ → Bytes → List Session → List Session
unfolding equal close_session
close_first id now rx tx reason [] = []
close_first id now rx tx reason (s ∷ sessions) =
    let rest = close_first id now rx tx reason sessions in
    if equal s.id id && is_open s then close_session now rx tx reason s ++ sessions else s ∷ rest

-- RecordDisconnect
unfoldable pub record_disconnect : Bool → Bytes → ℕ → ℤ → ℤ → Bytes → List Session → List Session
unfolding close_first
record_disconnect saves [] now rx tx reason sessions = sessions
record_disconnect saves (c ∷ id) now rx tx reason sessions =
    saved_as saves sessions (close_first (c ∷ id) now rx tx reason sessions)

-- the loop of CloseOpenSessions
unfoldable pub close_all : ℕ → Bytes → List Session → List Session
close_all now reason [] = []
close_all now reason (s ∷ sessions) =
    let rest = close_all now reason sessions in
    let dur = seconds_between s.start_time now in
    if not (is_open s)
    then s ∷ rest
    else if dur == 0
    then rest
    else record s { end_time = some now; duration_sec = dur; disconnect_reason = reason } ∷ rest

-- CloseOpenSessions
unfoldable pub close_open_sessions : Bool → ℕ → Bytes → List Session → List Session
unfolding close_all
close_open_sessions saves now reason sessions =
    saved_as saves sessions (close_all now reason sessions)

abbrev pub is_phantom : Session → Bool
is_phantom s =
    not (is_open s) && (s.duration_sec == 0 && (is_zero s.rx_bytes && is_zero s.tx_bytes))

-- GetAll
unfoldable pub get_all : List Session → List Session
get_all sessions = filter (λ s. not (is_phantom s)) (reverse sessions)

-- Clear, where the file can be removed or not
unfoldable pub clear : Bool → List Session → List Session
clear removes sessions = if removes then [] else sessions
