-- ===== src/Process/Event.antt =====
-- src/process/manager.hpp: events, the lists of threads that wait for them.
pub mod Linked
pub mod Notify
pub mod Kept
pub mod Exit
pub mod Wait
use klee.Base.{
  ℕ, Bool, true, false, not, List, [], ◌∷◌, ◌++◌, Option, none, some, get_or, set, if◌then◌else◌,
  Code, success, no_such_event, unfinished_event, is_error,
}
use klee.Util.DenseMap.{find_empty_slot, contains}
use klee.Process.{Thread, Manager}
use klee.Process.Niceness.{invalid_nice}
use klee.Process.Local.{erase_all}
use klee.Process.Switch.{local_at, set_thread, wakeup_thread, sleep_thread}

abbrev pub listed : Option (List ℕ) → List ℕ
listed none = []
listed (some ts) = ts

-- `*events[e]`, for an event that is there; no thread waits for another.
abbrev pub waiters : Manager → ℕ → List ℕ
waiters m e = listed (get_or m.events e none)

abbrev pub set_waiters : Manager → ℕ → List ℕ → Manager
set_waiters m e ts = record m { events = set m.events e (some ts) }

abbrev pub set_events_of : Manager → ℕ → List ℕ → Manager
set_events_of m t es = set_thread m t (record (m.threads t) { events = es })

unfoldable pub push_thread_to_events : Manager → ℕ → ℕ → Code × Manager
push_thread_to_events m e t = if not (contains m.events e) then (no_such_event, m) else (
  success,
  set_events_of (set_waiters m e (waiters m e ++ t ∷ [])) t ((m.threads t).events ++ e ∷ []),
)

-- The loop of wait_events: the first error ends it, and what was pushed before stays.
unfoldable pub push_thread_to_all : Manager → List ℕ → ℕ → Code × Manager
unfolding push_thread_to_events
push_thread_to_all m [] t = (success, m)
push_thread_to_all m (e ∷ es) t =
    let (c, m') = push_thread_to_events m e t in
    let rest = push_thread_to_all m' es t in if is_error c then (c, m') else rest

-- The end of wait_event and wait_events: sleep, unless the push failed.
abbrev pub sleep_after : ℕ → Code × Manager → Option (Code × Manager)
sleep_after cpu (c, m) =
    if is_error c then some (c, m) else elim (sleep_thread m cpu (local_at m cpu).this_thread) [
      | none ↦ none
      | some m' ↦ some (success, m')
    ]

unfoldable pub wait_event : Manager → ℕ → ℕ → Option (Code × Manager)
wait_event m cpu e = sleep_after cpu (push_thread_to_events m e (local_at m cpu).this_thread)

unfoldable pub wait_events : Manager → ℕ → List ℕ → Option (Code × Manager)
wait_events m cpu es = sleep_after cpu (push_thread_to_all m es (local_at m cpu).this_thread)

unfoldable pub unwait_event : Manager → ℕ → ℕ → Code × Manager
unwait_event m cpu e =
    let t = (local_at m cpu).this_thread in
    if not (contains m.events e) then (no_such_event, m) else (
      success,
      set_events_of (set_waiters m e (erase_all (waiters m e) t)) t
          (erase_all (m.threads t).events e),
    )

unfoldable pub unwait_events : Manager → ℕ → List ℕ → Code × Manager
unfolding unwait_event
unwait_events m cpu [] = (success, m)
unwait_events m cpu (e ∷ es) =
    let (c, m') = unwait_event m cpu e in
    let rest = unwait_events m' cpu es in if is_error c then (c, m') else rest

-- The loop of cancel_events_of_thread; `none` is its fatal_assert.
unfoldable pub cancel_all : Manager → List ℕ → ℕ → Option Manager
cancel_all m [] t = some m
cancel_all m (e ∷ es) t =
    let rest = cancel_all (set_waiters m e (erase_all (waiters m e) t)) es t in
    if not (contains m.events e) then none else rest

unfoldable pub cancel_events_of_thread : Manager → ℕ → Option Manager
unfolding cancel_all
cancel_events_of_thread m t = cancel_all m (m.threads t).events t

unfoldable pub create_event : Manager → ℕ × Manager
create_event m =
    let (e, d) = find_empty_slot m.events in (e, record m { events = set d e (some []) })

abbrev is_nil : List ℕ → Bool
is_nil [] = true
is_nil (t ∷ ts) = false

unfoldable pub delete_event : Manager → ℕ → Code × Manager
delete_event m e =
    if not (contains m.events e)
    then (no_such_event, m)
    else if not (is_nil (waiters m e))
    then (unfinished_event, m)
    else (success, record m { events = set m.events e none })

-- The loop of notify_event over the threads that it wakes.
unfoldable pub wake_all : Manager → ℕ → ℕ → List ℕ → Code × Manager
wake_all m cpu e [] = (success, m)
wake_all m cpu e (t ∷ ts) =
    let (c, m') =
      wakeup_thread (set_events_of m t (erase_all (m.threads t).events e)) cpu t invalid_nice in
    let rest = wake_all m' cpu e ts in if is_error c then (c, m') else rest

unfoldable pub notify_event : Manager → ℕ → ℕ → Code × Manager
unfolding wake_all
notify_event m cpu e =
    if not (contains m.events e)
    then (no_such_event, m)
    else wake_all (set_waiters m e []) cpu e (waiters m e)

-- The rest of exit_thread, with what cancel_events_of_thread gives.
abbrev pub end_thread : ℕ → ℕ → Option Manager → Option Manager
end_thread cpu t none = none
end_thread cpu t (some m) = sleep_thread (notify_event m cpu m.thread_joined_event).1 cpu t

-- exit_thread(lock, thread)
unfoldable pub exit_thread : Manager → ℕ → ℕ → Option Manager
exit_thread m cpu t =
    end_thread cpu t
      (cancel_events_of_thread (set_thread m t (record (m.threads t) { zombie = true })) t)
