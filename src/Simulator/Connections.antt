-- ===== src/Simulator/Connections.antt =====
-- simulator/simulator.go: the sessions and listeners that a device owns, their limits, and how they end.
-- Connections and listeners are numbered. `running` is a log, not a Go field: the sessions whose `serve`
-- has not returned.
pub mod Limits
use go_aioesphomeapi.Base.{
  ℕ, ◌+◌, ◌-◌, ◌≡◌, Bool, true, false, ◌&&◌, ◌||◌, Option, none, some, List, [], ◌∷◌, ltb, leb,
  ◌==◌, if◌then◌else◌, length,
}
use go_aioesphomeapi.Simulator.Expectations.{is_empty}

abbrev pub max_device_connections : ℕ
max_device_connections = 64

abbrev pub max_device_listeners : ℕ
max_device_listeners = 8

-- The fields of `Device` that its lock `mu` guards, and `done`.
pub record Owned : Type 0 where
  pub is_done : Bool
  pub accepted : ℕ
  pub dropped_sessions : ℕ
  pub connections : List ℕ
  pub listeners : List ℕ
  pub session_tasks : ℕ
  pub running : List ℕ

abbrev pub nothing_owned : Owned
nothing_owned = record {
  is_done = false;
  accepted = 0;
  dropped_sessions = 0;
  connections = [];
  listeners = [];
  session_tasks = 0;
  running = [];
}

pub data OwnError : Type 0 where
  closed_simulator connection_limit listener_limit : OwnError

-- `delete` on a set without order.
unfoldable pub remove_one : ℕ → List ℕ → List ℕ
remove_one k [] = []
remove_one k (x ∷ xs) = if x == k then xs else x ∷ remove_one k xs

unfoldable pub has_member : ℕ → List ℕ → Bool
has_member k [] = false
has_member k (x ∷ xs) = (x == k) || has_member k xs

-- `startConnection`, for a new connection `k`.
unfoldable pub start_connection : ℕ → Owned → Owned × Option OwnError
start_connection k d =
    if d.is_done
    then (d, some closed_simulator)
    else if leb max_device_connections d.session_tasks
    then (d, some connection_limit)
    else (
      record d {
        accepted = d.accepted + 1;
        connections = k ∷ d.connections;
        session_tasks = d.session_tasks + 1;
        running = k ∷ d.running;
      },
      none,
    )

-- The deferred end of `serve`.
unfoldable pub end_session : ℕ → Owned → Owned
end_session k d = record d {
  connections = remove_one k d.connections;
  session_tasks = d.session_tasks - 1;
  running = remove_one k d.running;
}

-- The head of `Serve`, for a listener `k` on a loopback address.
unfoldable pub start_listener : ℕ → Owned → Owned × Option OwnError
start_listener k d =
    if d.is_done
    then (d, some closed_simulator)
    else if leb max_device_listeners (length d.listeners)
    then (d, some listener_limit)
    else (record d { listeners = k ∷ d.listeners }, none)

-- The deferred end of `Serve`.
unfoldable pub end_listener : ℕ → Owned → Owned
end_listener k d = record d { listeners = remove_one k d.listeners }

-- `DropConnections`: the sessions end later, by themselves.
unfoldable pub drop_connections : Owned → Owned × ℕ
drop_connections d = (
  record d {
    connections = [];
    dropped_sessions =
        if ltb 0 (length d.connections)
        then d.dropped_sessions + length d.connections
        else d.dropped_sessions;
  },
  length d.connections,
)

-- `Close`, up to its wait for the sessions.
unfoldable pub close_device : Owned → Owned
close_device d = record d { is_done = true }

-- The test of `WaitForIdle`, with the delayed frames that are pending.
unfoldable pub is_idle : ℕ → Owned → Bool
is_idle pending_delays d =
    is_empty d.connections
    && is_empty d.listeners
    && (d.session_tasks == 0)
    && (pending_delays == 0)

-- What may happen to a device, in the order in which its lock admits it. A session ends once.
pub data OwnStep : Owned → Owned → Type 0 where
  starts : (k : ℕ) (d : Owned) → OwnStep d (start_connection k d).0
  ends : (k : ℕ) (d : Owned) → has_member k d.running ≡ true → OwnStep d (end_session k d)
  listens : (k : ℕ) (d : Owned) → OwnStep d (start_listener k d).0
  deafens : (k : ℕ) (d : Owned) → OwnStep d (end_listener k d)
  drops : (d : Owned) → OwnStep d (drop_connections d).0
  closes : (d : Owned) → OwnStep d (close_device d)

pub data OwnReach : Owned → Owned → Type 0 where
  stay : (d : Owned) → OwnReach d d
  then_step : {d e f : Owned} → OwnReach d e → OwnStep e f → OwnReach d f
