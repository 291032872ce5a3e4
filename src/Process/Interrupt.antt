-- ===== src/Process/Interrupt.antt =====
-- src/process/manager.hpp: the calls made by interrupt handlers, and the start of a processor and of
-- the manager. What the local APIC, the message queue and the lock answer are arguments.
pub mod Start
pub mod Expand
use mathlib.Core.List.{reverse}
use klee.Base.{
  ℕ, zero, suc, ◌+◌, ◌-◌, ◌*◌, ◌/◌, ◌%◌, ◌^◌, Bool, true, false, not, ◌&&◌, ◌||◌, List, [], ◌∷◌,
  ◌++◌, Option, none, some, get_or, set, length, replicate, take, ltb, ◌==◌, if◌then◌else◌, Code,
  success, is_error, ok, err, map,
}
use klee.Process.{Thread, ProcessorLocal, Manager, invalid_processor_number}
use klee.Process.Niceness.{Nice, pos, negsuc, invalid_nice}
use klee.Process.Switch.{
  local_at, set_local, set_thread, push_to, erase_from, switch_thread, wakeup_thread, blank_local,
}
use klee.Process.Event.{create_event}
use klee.Process.Table.{
  create_process, create_thread, wakeup_thread_of, thread_slot, find_alive_thread,
}

-- The state of migrate_threads: the thread between two processors, how many threads each processor
-- has, and whether the pass is the last.
pub record Migration : Type 0 where
  pub manager : Manager
  pub held : Option ℕ
  pub local_thread_num : List ℕ
  pub exit : Bool

abbrev pub num_at : List ℕ → ℕ → ℕ
num_at ns i = get_or ns i 0

-- The first thread of a queue that may move.
unfoldable pub pick_movable : Manager → ℕ → List ℕ → Option ℕ
pick_movable m this [] = none
pick_movable m this (t ∷ q) =
    if not (m.threads t).movable || (t == this) then pick_movable m this q else some t

-- The same over the queues, in the order of the list.
unfoldable pub pick_movable_of : Manager → ℕ → List (List ℕ) → Option ℕ
unfolding pick_movable
pick_movable_of m this [] = none
pick_movable_of m this (q ∷ qs) = elim (pick_movable m this q) [
  | none ↦ pick_movable_of m this qs
  | some t ↦ some t
]

-- Takes a thread from processor `i`, from its least urgent queue that has one to give.
unfoldable pub take_from : Migration → ℕ → Migration
unfolding pick_movable_of
take_from s i =
    let m = s.manager in
    let l = local_at m i in
    elim (pick_movable_of m l.this_thread (reverse l.run_queue)) [
      | none ↦ s
      | some t ↦ record {
        manager = erase_from m i t;
        held = some t;
        local_thread_num = set s.local_thread_num i (num_at s.local_thread_num i - 1);
        exit = false;
      }
    ]

-- Gives the held thread to processor `i`.
unfoldable pub give_to : Migration → ℕ → ℕ → Migration
give_to s i t =
    let m = s.manager in
    record s {
      manager = push_to (set_thread m t (record (m.threads t) { running_on = i })) i t;
      held = none;
      local_thread_num = set s.local_thread_num i (num_at s.local_thread_num i + 1);
    }

-- How many threads processor `i` is to have.
abbrev pub threshold : ℕ → ℕ → ℕ → ℕ
threshold average remainder i = if ltb i remainder then average + 1 else average

-- One round of the `for` loop of migrate_threads.
unfoldable pub migrate_at : ℕ → ℕ → Migration → ℕ → Migration
migrate_at average remainder s i = elim s.held [
  | none ↦
      if ltb (num_at s.local_thread_num i) (threshold average remainder i) then s else take_from s i
  | some t ↦
      if ltb (num_at s.local_thread_num i) (threshold average remainder i) then give_to s i t else s
]

unfoldable pub migrate_pass : ℕ → ℕ → ℕ → ℕ → Migration → Migration
unfolding migrate_at
migrate_pass average remainder zero i s = s
migrate_pass average remainder (suc rounds) i s =
    migrate_pass average remainder rounds (i + 1) (migrate_at average remainder s i)

-- The `goto loop`; `none` means that the fuel ran out.
unfoldable pub migrate_loop : ℕ → ℕ → ℕ → Migration → Option Migration
unfolding migrate_pass
migrate_loop average remainder zero s = none
migrate_loop average remainder (suc fuel) s =
    let s' =
      migrate_pass average remainder (length s.manager.locals) 0 (record s { exit = true }) in
    let rest = migrate_loop average remainder fuel s' in if s'.exit then some s' else rest

abbrev pub sum : List ℕ → ℕ
sum [] = 0
sum (n ∷ ns) = n + sum ns

abbrev pub thread_num : ProcessorLocal → ℕ
thread_num l = sum (map length l.run_queue)

unfoldable pub migrate_threads : ℕ → Manager → Option Manager
unfolding migrate_loop
migrate_threads fuel m =
    let nums = map thread_num m.locals in
    let total_threads = sum nums in
    let average = total_threads / length m.locals in
    let remainder = total_threads - average * length m.locals in
    elim (migrate_loop average remainder fuel
      (record { manager = m; held = none; local_thread_num = nums; exit = false })) [
        | none ↦ none
        | some s ↦ some s.manager
      ]

-- check_message_queue_and_wakeup_kernel; `pending` is `!kernel_message_queue.empty()`, and `none`
-- its fatal_assert.
unfoldable pub check_message_queue_and_wakeup_kernel : Manager → ℕ → Bool → Option Manager
check_message_queue_and_wakeup_kernel m cpu pending =
    let (e, m') = wakeup_thread m cpu m.event_processor invalid_nice in
    if not pending then some m else if is_error e then none else some m'

-- What a timer interrupt finds: the APIC's id, the first and last ids, whether the lock was free,
-- whether messages wait, and how many passes a migration may take.
pub record TimerInput : Type 0 where
  pub lapic_id : ℕ
  pub first_lapic_id : ℕ
  pub last_lapic_id : ℕ
  pub lock_free : Bool
  pub pending : Bool
  pub fuel : ℕ

-- The work of the first processor, with the lock taken.
abbrev timer_work : Manager → ℕ → TimerInput → Option Manager
timer_work m cpu w = elim (check_message_queue_and_wakeup_kernel m cpu w.pending) [
  | none ↦ none
  | some m' ↦ if m'.tick % 500 == 0 then migrate_threads w.fuel m' else some m'
]

-- The switch, and the APIC id of the next processor where the interrupt is passed on.
abbrev timer_switch : ℕ → TimerInput → Option Manager → Option (Manager × Option ℕ)
timer_switch cpu w none = none
timer_switch cpu w (some m) = elim (switch_thread m cpu) [
  | none ↦ none
  | some m' ↦
      some
        (m', if w.lapic_id == w.last_lapic_id then none else some (local_at m' (cpu + 1)).lapic_id)
]

unfoldable pub switch_thread_may_fail : Manager → ℕ → TimerInput → Option (Manager × Option ℕ)
switch_thread_may_fail m cpu w =
    let ticked = record m { tick = (m.tick + 1) % 2 ^ 64 } in
    if w.lapic_id == w.first_lapic_id
    then if not w.lock_free
      then some (ticked, none)
      else timer_switch cpu w (timer_work ticked cpu w)
    else timer_switch cpu w (some m)

-- post_kernel_message after the message is in the queue
unfoldable pub post_kernel_message : Manager → ℕ → Bool → Option Manager
post_kernel_message m cpu lock_free =
    let (e, m') = wakeup_thread m cpu m.event_processor invalid_nice in
    if not lock_free then some m else if is_error e then none else some m'

unfoldable pub expand_locals : Manager → ℕ → Manager
expand_locals m n = record m {
  locals = take n m.locals ++ replicate (n - length m.locals) blank_local;
}

-- Wakes the thread that was created, and marks it immovable.
start_woken : Manager → ℕ → ℕ → Nice → Option (ℕ × Manager)
start_woken m cpu tid nice =
    let (e, m') = wakeup_thread_of m cpu m.kernel_pid tid nice in
    if is_error e then none else elim (find_alive_thread m' m'.kernel_pid tid) [
      | err e ↦ none
      | ok t ↦ some (t, set_thread m' t (record (m'.threads t) { movable = false }))
    ]

-- Creates a thread of the kernel's process, wakes it, and marks it immovable: the thread, and the
-- manager after it.
unfoldable pub start_thread : Manager → ℕ → Nice → Option (ℕ × Manager)
unfolding start_woken
start_thread m cpu nice =
    let (r, m1) = create_thread m m.kernel_pid in
    elim r [ err e ↦ none | ok tid ↦ start_woken m1 cpu tid nice ]

abbrev set_current : Manager → ℕ → ℕ → Manager
set_current m cpu t = set_local m cpu (record (local_at m cpu) { this_thread = t })

unfoldable pub capture_context : Manager → ℕ → ℕ → Option Manager
unfolding start_thread
capture_context m cpu lapic_id =
    let m0 = set_local m cpu (record (local_at m cpu) { lapic_id = lapic_id }) in
    elim (start_thread m0 cpu (negsuc 1)) [
      | none ↦ none
      | some (t, m1) ↦ elim (start_thread (set_current m1 cpu t) cpu (pos 2)) [
        | none ↦ none
        | some (idle, m2) ↦ some m2
      ]
    ]

-- Before the constructor's body; what the thread memory holds is an argument.
abbrev pub empty_manager : (ℕ → Thread) → Manager
empty_manager h = record {
  tick = 0;
  threads = h;
  next_thread = 0;
  freed = [];
  processes = [];
  locals = blank_local ∷ [];
  events = [];
  thread_joined_event = 0;
  process_joined_event = 0;
  kernel_pid = 0;
  event_processor = 0;
}

-- The constructor, on the processor with number 0.
unfoldable pub new_manager : (ℕ → Thread) → ℕ → Option Manager
new_manager h lapic_id =
    let (joined, m1) = create_event (empty_manager h) in
    let (process_joined, m2) = create_event m1 in
    let (pid, m3) = create_process m2 in
    let m4 = record m3 {
      thread_joined_event = joined;
      process_joined_event = process_joined;
      kernel_pid = pid;
    } in
    elim (capture_context m4 0 lapic_id) [
      | none ↦ none
      | some m5 ↦ some (record m5 { event_processor = (local_at m5 0).this_thread })
    ]
