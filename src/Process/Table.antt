-- ===== src/Process/Table.antt =====
-- src/process/manager.hpp: the table of processes and threads, and the calls that name a thread by
-- its process and its number in it.
pub mod Names
pub mod Joined
use klee.Base.{
  ℕ, ◌+◌, Bool, true, false, not, List, [], ◌∷◌, Option, none, some, get_or, set, if◌then◌else◌,
  Code, success, is_error, Result, ok, err, no_such_process, no_such_thread, dead_thread,
}
use klee.Util.DenseMap.{find_empty_slot, contains, is_empty}
use klee.Process.{Thread, Process, Manager, invalid_processor_number}
use klee.Process.Niceness.{Nice, pos, invalid_nice}
use klee.Process.Switch.{
  local_at, set_thread, wakeup_thread, sleep_thread, suspend_thread_for_tick, ms_to_tick,
}
use klee.Process.Event.{exit_thread, wait_event}

-- `processes[pid]->threads[tid]`
abbrev pub slot_of : Option Process → ℕ → Option ℕ
slot_of none tid = none
slot_of (some p) tid = get_or p.threads tid none

abbrev pub thread_slot : Manager → ℕ → ℕ → Option ℕ
thread_slot m pid tid = slot_of (get_or m.processes pid none) tid

unfoldable pub find_thread : Manager → ℕ → ℕ → Result ℕ
find_thread m pid tid = elim (get_or m.processes pid none) [
  | none ↦ err no_such_process
  | some p ↦ elim (get_or p.threads tid none) [ none ↦ err no_such_thread | some t ↦ ok t ]
]

unfoldable pub find_alive_thread : Manager → ℕ → ℕ → Result ℕ
unfolding find_thread
find_alive_thread m pid tid = elim (find_thread m pid tid) [
  | err e ↦ err e
  | ok t ↦ if (m.threads t).zombie then err dead_thread else ok t
]

unfoldable pub create_process : Manager → ℕ × Manager
create_process m =
    let (pid, d) = find_empty_slot m.processes in
    (pid, record m { processes = set d pid (some (record { id = pid; threads = [] })) })

-- `Thread(tid, process)`, with the members' initial values
abbrev pub new_thread : ℕ → ℕ → Thread
new_thread tid pid = record {
  id = tid;
  process = pid;
  running_on = invalid_processor_number;
  events = [];
  nice = pos 0;
  suspend_from = 0;
  suspend_for = 0;
  zombie = false;
  movable = true;
}

abbrev pub created : Manager → ℕ → Process → Manager
created m pid p =
    let (tid, d) = find_empty_slot p.threads in
    let t = m.next_thread in
    record (set_thread m t (new_thread tid pid)) {
      next_thread = t + 1;
      processes = set m.processes pid (some (record p { threads = set d tid (some t) }));
    }

abbrev pub create_in : Manager → ℕ → Option Process → Result ℕ × Manager
create_in m pid none = (err no_such_process, m)
create_in m pid (some p) = (ok (find_empty_slot p.threads).0, created m pid p)

-- create_thread(lock, pid): the number of the thread in the process, which both public overloads
-- return. The one with a function also prepares the thread's registers.
unfoldable pub create_thread : Manager → ℕ → Result ℕ × Manager
create_thread m pid = create_in m pid (get_or m.processes pid none)

abbrev pub wakeup_found : Manager → ℕ → Result ℕ → Code × Manager
wakeup_found m cpu (err e) = (e, m)
wakeup_found m cpu (ok t) = wakeup_thread m cpu t invalid_nice

-- wakeup_thread(pid, tid, nice), which does not pass `nice` on
unfoldable pub wakeup_thread_of : Manager → ℕ → ℕ → ℕ → Nice → Code × Manager
wakeup_thread_of m cpu pid tid nice = wakeup_found m cpu (find_alive_thread m pid tid)

-- A call's effect on the thread that was found, with Success.
abbrev then_success : Option Manager → Option (Code × Manager)
then_success none = none
then_success (some m) = some (success, m)

unfoldable pub sleep_thread_of : Manager → ℕ → ℕ → ℕ → Option (Code × Manager)
sleep_thread_of m cpu pid tid = elim (find_thread m pid tid) [
  | err e ↦ some (e, m)
  | ok t ↦ then_success (sleep_thread m cpu t)
]

unfoldable pub sleep_this_thread : Manager → ℕ → Option Manager
sleep_this_thread m cpu = sleep_thread m cpu (local_at m cpu).this_thread

unfoldable pub suspend_thread_for_ms : Manager → ℕ → ℕ → ℕ → ℕ → Option (Code × Manager)
suspend_thread_for_ms m cpu pid tid ms = elim (find_alive_thread m pid tid) [
  | err e ↦ some (e, m)
  | ok t ↦ then_success (suspend_thread_for_tick m cpu t (ms_to_tick ms))
]

unfoldable pub suspend_this_thread_for_ms : Manager → ℕ → ℕ → Option Manager
suspend_this_thread_for_ms m cpu ms =
    suspend_thread_for_tick m cpu (local_at m cpu).this_thread (ms_to_tick ms)

unfoldable pub exit_thread_of : Manager → ℕ → ℕ → ℕ → Option (Code × Manager)
exit_thread_of m cpu pid tid = elim (find_alive_thread m pid tid) [
  | err e ↦ some (e, m)
  | ok t ↦ then_success (exit_thread m cpu t)
]

unfoldable pub exit_this_thread : Manager → ℕ → Option Manager
exit_this_thread m cpu = exit_thread m cpu (local_at m cpu).this_thread

-- What wait_thread and wait_process come to: they return, or the thread sleeps until some thread ends,
-- or the kernel stops.
pub data Wait : Type 0 where
  returns : Code → Manager → Wait
  still_waits : Manager → Wait
  stops : Wait

-- The processor and the manager with which a sleeping thread goes on: what others do in between is free.
abbrev pub Wake : Type 0
Wake = ℕ × Manager

abbrev pub sleep_then_again : (Manager → Wait) → Option (Code × Manager) → Wait
sleep_then_again again none = stops
sleep_then_again again (some (c, m)) = if is_error c then returns c m else again m

abbrev pub freed_from : Option ℕ → List ℕ → List ℕ
freed_from none freed = freed
freed_from (some t) freed = t ∷ freed

abbrev pub reset_in : Manager → ℕ → ℕ → Option Process → Manager
reset_in m pid tid none = m
reset_in m pid tid (some p) = record m {
  processes = set m.processes pid (some (record p { threads = set p.threads tid none }));
  freed = freed_from (get_or p.threads tid none) m.freed;
}

-- `processes[pid]->threads[tid].reset()`, which destroys the thread.
abbrev pub reset_thread : Manager → ℕ → ℕ → Manager
reset_thread m pid tid = reset_in m pid tid (get_or m.processes pid none)

-- One round, with what follows when the thread slept.
abbrev pub wait_found : Manager → ℕ → (Manager → Wait) → Result ℕ → Wait
wait_found m cpu again (err e) = returns e m
wait_found m cpu again (ok t) =
    if not (m.threads t).zombie
    then sleep_then_again again (wait_event m cpu m.thread_joined_event)
    else returns success (reset_thread m (m.threads t).process (m.threads t).id)

-- The loop, with the wakes of the thread in order: it still sleeps when they have run out.
unfoldable pub wait_thread : List Wake → Manager → ℕ → ℕ → ℕ → Wait
wait_thread [] m cpu pid tid = wait_found m cpu still_waits (find_thread m pid tid)
wait_thread ((cpu', m') ∷ wakes) m cpu pid tid =
    wait_found m cpu (λ asleep. wait_thread wakes m' cpu' pid tid) (find_thread m pid tid)

abbrev pub wait_process_in : Manager → ℕ → ℕ → (Manager → Wait) → Option Process → Wait
wait_process_in m cpu pid again none = returns no_such_process m
wait_process_in m cpu pid again (some p) =
    if not (is_empty p.threads)
    then sleep_then_again again (wait_event m cpu m.thread_joined_event)
    else returns success (record m { processes = set m.processes pid none })

unfoldable pub wait_process : List Wake → Manager → ℕ → ℕ → Wait
wait_process [] m cpu pid = wait_process_in m cpu pid still_waits (get_or m.processes pid none)
wait_process ((cpu', m') ∷ wakes) m cpu pid =
    wait_process_in m cpu pid (λ asleep. wait_process wakes m' cpu' pid)
      (get_or m.processes pid none)
