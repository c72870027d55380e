-- ===== src/Simulator/Connections/Limits.antt =====
-- simulator/simulator.go: the limits on sessions and listeners over all steps.
use mathlib.Core.Path.{subst}
use go_aioesphomeapi.Base.{
  ℕ, suc, ◌≤◌, ◌≡◌, inl, inr, true, List, [], ◌∷◌, arith, ◌==◌, Bool-cases, length, ◌+◌, sym, leb,
  List-cases,
}
use go_aioesphomeapi.Simulator.Connections.{
  max_device_connections, max_device_listeners, Owned, remove_one, has_member, OwnStep, OwnReach,
  starts, ends, listens, deafens, drops, closes, stay, then_step, start_connection, end_session,
  start_listener, end_listener, drop_connections, close_device, is_idle,
}

-- The first list is what is left of the second when some are taken out.
pub data IsPart : List ℕ → List ℕ → Type 0 where
  part_nil : IsPart [] []
  part_keep : {x : ℕ} {xs ys : List ℕ} → IsPart xs ys → IsPart (x ∷ xs) (x ∷ ys)
  part_skip : {y : ℕ} {xs ys : List ℕ} → IsPart xs ys → IsPart xs (y ∷ ys)

none-IsPart : (ys : List ℕ) → IsPart [] ys
none-IsPart [] = part_nil
none-IsPart (y ∷ ys) = part_skip (none-IsPart ys)

length-IsPart : {xs ys : List ℕ} → IsPart xs ys → length xs ≤ length ys
length-IsPart part_nil = omega arith
length-IsPart (part_keep p) = omega (arith, length-IsPart p)
length-IsPart (part_skip p) = omega (arith, length-IsPart p)

remove_one-IsPart_left : (k : ℕ) {xs ys : List ℕ} → IsPart xs ys → IsPart (remove_one k xs) ys
unfolding remove_one
remove_one-IsPart_left k part_nil = part_nil
remove_one-IsPart_left k (part_keep {x = x} p) = elim (Bool-cases (x == k)) [
  | inl e ↦ rw e (part_skip p)
  | inr e ↦ rw e (part_keep (remove_one-IsPart_left k p))
]
remove_one-IsPart_left k (part_skip p) = part_skip (remove_one-IsPart_left k p)

remove_one-IsPart :
    (k : ℕ) {xs ys : List ℕ} → IsPart xs ys → IsPart (remove_one k xs) (remove_one k ys)
unfolding remove_one
remove_one-IsPart k part_nil = part_nil
remove_one-IsPart k (part_keep {x = x} p) = elim (Bool-cases (x == k)) [
  | inl e ↦ rw e p
  | inr e ↦ rw e (part_keep (remove_one-IsPart k p))
]
remove_one-IsPart k (part_skip {y = y} p) = elim (Bool-cases (y == k)) [
  | inl e ↦ rw e (remove_one-IsPart_left k p)
  | inr e ↦ rw e (part_skip (remove_one-IsPart k p))
]

length-remove_one : (k : ℕ) (xs : List ℕ) → length (remove_one k xs) ≤ length xs
unfolding remove_one
length-remove_one k [] = omega arith
length-remove_one k (x ∷ xs) = ground (arith, length-remove_one k xs)

length-remove_member :
    (k : ℕ) (xs : List ℕ) → has_member k xs ≡ true → suc (length (remove_one k xs)) ≡ length xs
unfolding remove_one has_member
length-remove_member k [] h = absurd (ground arith)
length-remove_member k (x ∷ xs) h = ground (arith, length-remove_member k xs)

-- The counter of tasks is right, open connections are among the running sessions, and the limits hold.
pub record IsWithin (d : Owned) : Type 0 where
  pub counted : d.session_tasks ≡ length d.running
  pub open_running : IsPart d.connections d.running
  pub tasks : d.session_tasks ≤ max_device_connections
  pub few_listeners : length d.listeners ≤ max_device_listeners

start_connection-IsWithin : (k : ℕ) (d : Owned) → IsWithin d → IsWithin (start_connection k d).0
unfolding start_connection
start_connection-IsWithin k d w = elim (Bool-cases d.is_done) [
  | inl over ↦
      let same : (start_connection k d).0 ≡ d = ground (arith, over) in subst IsWithin (sym same) w
  | inr alive ↦ elim (Bool-cases (leb max_device_connections d.session_tasks)) [
    | inl full ↦
        let same : (start_connection k d).0 ≡ d = ground (arith, alive, full) in
        subst IsWithin (sym same) w
    | inr room ↦
        let grown : (start_connection k d).0 ≡ record d {
          accepted = d.accepted + 1;
          connections = k ∷ d.connections;
          session_tasks = d.session_tasks + 1;
          running = k ∷ d.running;
        } =
          ground (arith, alive, room) in
        subst IsWithin (sym grown) (record {
          counted = omega (arith, w.counted);
          open_running = part_keep w.open_running;
          tasks = ground (arith, room);
          few_listeners = w.few_listeners;
        })
  ]
]

start_listener-IsWithin : (k : ℕ) (d : Owned) → IsWithin d → IsWithin (start_listener k d).0
unfolding start_listener
start_listener-IsWithin k d w = elim (Bool-cases d.is_done) [
  | inl over ↦
      let same : (start_listener k d).0 ≡ d = ground (arith, over) in subst IsWithin (sym same) w
  | inr alive ↦ elim (Bool-cases (leb max_device_listeners (length d.listeners))) [
    | inl full ↦
        let same : (start_listener k d).0 ≡ d = ground (arith, alive, full) in
        subst IsWithin (sym same) w
    | inr room ↦
        let grown : (start_listener k d).0 ≡ record d { listeners = k ∷ d.listeners } =
          ground (arith, alive, room) in
        subst IsWithin (sym grown) (record {
          counted = w.counted;
          open_running = w.open_running;
          tasks = w.tasks;
          few_listeners = ground (arith, room);
        })
  ]
]

OwnStep-IsWithin : {d e : Owned} → OwnStep d e → IsWithin d → IsWithin e
unfolding end_session end_listener drop_connections close_device
OwnStep-IsWithin (starts k d) w = start_connection-IsWithin k d w
OwnStep-IsWithin (ends k d h) w = record {
  counted = omega (arith, w.counted, length-remove_member k d.running h);
  open_running = remove_one-IsPart k w.open_running;
  tasks = omega (arith, w.tasks);
  few_listeners = w.few_listeners;
}
OwnStep-IsWithin (listens k d) w = start_listener-IsWithin k d w
OwnStep-IsWithin (deafens k d) w = record {
  counted = w.counted;
  open_running = w.open_running;
  tasks = w.tasks;
  few_listeners = omega (arith, length-remove_one k d.listeners, w.few_listeners);
}
OwnStep-IsWithin (drops d) w = record {
  counted = w.counted;
  open_running = none-IsPart d.running;
  tasks = w.tasks;
  few_listeners = w.few_listeners;
}
OwnStep-IsWithin (closes d) w = record {
  counted = w.counted;
  open_running = w.open_running;
  tasks = w.tasks;
  few_listeners = w.few_listeners;
}

-- Whatever starts, ends, is dropped or is closed, in any order, a device within its limits stays
-- within them: its counter of tasks is the number of running sessions, its open connections are
-- among these, and there are at most 64 sessions, dropped ones that still end included, and 8
-- listeners.
pub OwnReach-IsWithin : {d e : Owned} → OwnReach d e → IsWithin d → IsWithin e
OwnReach-IsWithin (stay d) w = w
OwnReach-IsWithin (then_step r s) w = OwnStep-IsWithin s (OwnReach-IsWithin r w)

-- When a device within its limits is idle, no session of it is running, even one whose connection
-- was dropped.
pub is_idle-running :
    (d : Owned) (pending : ℕ) → IsWithin d → is_idle pending d ≡ true → d.running ≡ []
unfolding is_idle
is_idle-running d pending w e = elim (List-cases d.running) [
  | inl none_left ↦ none_left
  | inr (k, rest, some_left) ↦ absurd (ground (arith, w.counted, some_left))
]
