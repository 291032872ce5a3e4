-- ===== src/Process/Switch.antt =====
-- src/process/manager.hpp: the operations of Manager that start, stop and switch threads.
pub mod Queues
pub mod Wakeup
pub mod Pick
pub mod Turn
pub mod Stop
pub mod Suspend
use klee.Base.{
  ℕ, ◌+◌, ◌-◌, ◌*◌, ◌/◌, ◌%◌, ◌^◌, Bool, true, false, not, List, [], ◌∷◌, Option, none, some,
  get_or, set, ◌==◌, if◌then◌else◌, Code, success, invalid_nice as invalid_nice_code, ◌&&◌,
}
use klee.Process.{Thread, ProcessorLocal, Manager, invalid_processor_number}
use klee.Process.Niceness.{Nice, nice_eq, is_valid_nice, invalid_nice}
use klee.Process.Local.{
  update, push_to_run_queue, erase_from_run_queue, move_between_run_queue, update_this_thread,
}

abbrev pub blank_local : ProcessorLocal
blank_local = record { this_thread = 0; run_queue = [] ∷ [] ∷ [] ∷ [] ∷ [] ∷ []; lapic_id = 0 }

-- `locals[i]`
abbrev pub local_at : Manager → ℕ → ProcessorLocal
local_at m i = get_or m.locals i blank_local

abbrev pub set_local : Manager → ℕ → ProcessorLocal → Manager
set_local m i l = record m { locals = set m.locals i l }

abbrev pub set_thread : Manager → ℕ → Thread → Manager
set_thread m t th = record m { threads = update m.threads t th }

unfoldable pub push_to : Manager → ℕ → ℕ → Manager
push_to m i t = set_local m i (push_to_run_queue (local_at m i) m.threads t)

unfoldable pub erase_from : Manager → ℕ → ℕ → Manager
erase_from m i t = set_local m i (erase_from_run_queue (local_at m i) m.threads t)

-- What local.update_this_thread(tick) leaves, and the thread that runs next.
unfoldable pub switch_thread : Manager → ℕ → Option Manager
switch_thread m cpu = elim (update_this_thread (local_at m cpu) m.threads m.tick) [
  | none ↦ none
  | some (l, h) ↦ some (set_local (record m { threads = h }) cpu l)
]

-- `local.move_between_run_queue(thread, nice)` on this processor's queues
unfoldable pub renice : Manager → ℕ → ℕ → Nice → Code × Manager
renice m cpu t nice =
    let (e, l, h) = move_between_run_queue (local_at m cpu) m.threads t nice in
    (e, set_local (record m { threads = h }) cpu l)

-- The thread as wakeup_thread leaves it.
abbrev pub woken : Thread → ℕ → Nice → Thread
woken th cpu nice = record th {
  running_on = cpu;
  nice = if nice_eq nice invalid_nice then th.nice else nice;
}

-- wakeup_thread(lock, thread, nice)
unfoldable pub wakeup_thread : Manager → ℕ → ℕ → Nice → Code × Manager
wakeup_thread m cpu t nice =
    if not ((m.threads t).running_on == invalid_processor_number)
    then if nice_eq nice invalid_nice then (success, m) else renice m cpu t nice
    else if not (nice_eq nice invalid_nice) && not (is_valid_nice nice)
    then (invalid_nice_code, m)
    else (success, push_to (set_thread m t (woken (m.threads t) cpu nice)) cpu t)

-- sleep_thread(lock, thread)
unfoldable pub sleep_thread : Manager → ℕ → ℕ → Option Manager
sleep_thread m cpu t =
    let th = m.threads t in
    let m' = set_thread m t (record th { running_on = invalid_processor_number }) in
    if th.running_on == invalid_processor_number
    then some m
    else if t == (local_at m cpu).this_thread
    then switch_thread m' cpu
    else some (erase_from m' th.running_on t)

-- suspend_thread_for_tick
unfoldable pub suspend_thread_for_tick : Manager → ℕ → ℕ → ℕ → Option Manager
suspend_thread_for_tick m cpu t wait_tick =
    let m' = set_thread m t (record (m.threads t) {
      suspend_from = if m.tick == 0 then 1 else m.tick;
      suspend_for = if m.tick == 0 then wait_tick - 1 else wait_tick;
    }) in
    if wait_tick == 0
    then some m
    else if t == (local_at m cpu).this_thread
    then switch_thread m' cpu
    else some m'

-- constants::context_switch_frequency
abbrev pub context_switch_frequency : ℕ
context_switch_frequency = 100

unfoldable pub ms_to_tick : ℕ → ℕ
ms_to_tick ms = ms * context_switch_frequency % 2 ^ 64 / 1000
