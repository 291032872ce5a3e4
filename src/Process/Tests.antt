-- ===== src/Process/Tests.antt =====
-- Runs of src/process/manager.hpp on the manager as constructed.
use klee.Base.{
  List, ℕ, ◌<◌, ◌≡◌, ◌≢◌, ◌⊎◌, refl, inl, true, false, [], ◌∷◌, Option, some, none, arith, length,
  Code, success, ok, get_or,
}
use klee.Util.DenseMap.{find_empty_slot, scan, place}
use klee.Process.{Thread, Manager, invalid_processor_number}
use klee.Process.Niceness.{pos, nice_eq}
use klee.Process.Local.{
  push_to_run_queue, erase_from_run_queue, erase_all, rotate, update_this_thread, pick, pick_from,
  should_skip,
}
use klee.Process.Switch.{
  local_at, set_thread, push_to, erase_from, wakeup_thread, sleep_thread, switch_thread,
  suspend_thread_for_tick,
}
use klee.Process.Switch.Wakeup.{IsScheduled, wakeup_thread-IsScheduled}
use klee.Process.Switch.Turn.{
  IsRunning, IsUrgent, switch_thread-IsScheduled, switch_thread-IsUrgent,
}
use klee.Process.Switch.Stop.{sleep_thread-IsScheduled}
use klee.Process.Switch.Suspend.{IsScheduled-IsLeaving}
use klee.Process.Event.{
  wait_event, push_thread_to_events, create_event, notify_event, wake_all, cancel_all,
  cancel_events_of_thread, exit_thread,
}
use klee.Process.Event.Linked.{IsLinked, push_thread_to_events-IsLinked}
use klee.Process.Event.Notify.{NotifiesEvent, notify_event-IsNotified}
use klee.Process.Event.Wait.{WaitsFor, push_thread_to_events-IsScheduled, wait_event-WaitsFor}
use klee.Process.Event.Exit.{exit_thread-IsLinked}
use klee.Process.Table.{
  new_thread, create_process, create_thread, find_thread, find_alive_thread, wakeup_thread_of,
  wait_thread, Wait, Wake, returns, still_waits, stops, thread_slot,
}
use klee.Process.Table.Names.{IsNamed, create_thread-find_thread}
use klee.Process.Table.Joined.{Joins, IsJoined, wait_thread-zombie}
use klee.Process.Interrupt.{start_thread, capture_context, new_manager, expand_locals}
use klee.Process.Interrupt.Start.{IsReady, started, started-IsReady, new_manager-IsReady}
use klee.Process.Interrupt.Expand.{expand_locals-IsScheduled}

abbrev blank_threads : ℕ → Thread
blank_threads t = new_thread 0 0

-- Threads 0 and 1 run on processor 0, thread 2 sleeps, and the events 0 and 1 are there.
abbrev booted : Manager
booted = started blank_threads 7

ready : IsReady booted
ready = started-IsReady blank_threads 7 λ t. refl

abbrev or_booted : Option Manager → Manager
or_booted none = booted
or_booted (some m) = m

-- After a wait of thread 0 for event 1, before it sleeps.
abbrev waiting : Manager
waiting = (push_thread_to_events booted 1 0).1

abbrev or_waiting : Option (Code × Manager) → Code × Manager
or_waiting none = (success, booted)
or_waiting (some r) = r

-- Thread 1 has ended.
abbrev ended : Manager
ended = set_thread booted 1 (record (booted.threads 1) { zombie = true })

-- It is found so by a thread that waits for it, which goes on on processor 0.
abbrev wakes : List Wake
wakes = (0, ended) ∷ []

abbrev or_ended : Wait → Manager
or_ended (returns c m) = m
or_ended (still_waits m) = m
or_ended stops = ended

-- What the runs below take from the state.
record Facts : Type 0 where
  here : 0 < length booted.locals
  size : length booted.locals ≡ 1
  asleep : (booted.threads 2).running_on ≡ invalid_processor_number
  elsewhere : (booted.threads 1).running_on ≡ 0
  wakeful : (booted.threads 1).suspend_from ≡ 0
  other : 2 ≢ (local_at booted 0).this_thread
  start : booted.tick ≡ 0
  alive : (booted.threads 0).zombie ≡ false
  alive_other : (booted.threads 1).zombie ≡ false
  events : length booted.events ≡ 2
  process :
      get_or booted.processes 0 none ≡ some (record { id = 0; threads = some 0 ∷ some 1 ∷ [] })
  found : find_alive_thread booted 0 1 ≡ ok 1
  switched : switch_thread booted 0 ≡ some (or_booted (switch_thread booted 0))
  slept : sleep_thread booted 0 0 ≡ some (or_booted (sleep_thread booted 0 0))
  suspended :
      suspend_thread_for_tick booted 0 1 5 ≡ some (or_booted (suspend_thread_for_tick booted 0 1 5))
  suspended_two :
      suspend_thread_for_tick booted 0 2 5 ≡ some (or_booted (suspend_thread_for_tick booted 0 2 5))
  current : (local_at booted 0).this_thread ≡ 0
  waited : wait_event booted 0 1 ≡ some (or_waiting (wait_event booted 0 1))
  joined :
      wait_thread wakes booted 0 0 1 ≡ returns success (or_ended (wait_thread wakes booted 0 0 1))
  exited : exit_thread booted 0 1 ≡ some (or_booted (exit_thread booted 0 1))

facts : Facts
unfolding started new_manager capture_context start_thread create_event create_process create_thread
    wakeup_thread_of find_alive_thread find_thread wakeup_thread push_to find_empty_slot scan place
    push_to_run_queue wait_event wait_thread push_thread_to_events switch_thread update_this_thread
    rotate pick pick_from should_skip erase_from_run_queue erase_all sleep_thread erase_from
    suspend_thread_for_tick exit_thread cancel_events_of_thread cancel_all notify_event wake_all
facts = record {
  here = omega arith;
  size = refl;
  asleep = refl;
  elsewhere = refl;
  wakeful = refl;
  other = λ e. absurd (omega (arith, e));
  start = refl;
  alive = refl;
  alive_other = refl;
  events = refl;
  process = refl;
  found = refl;
  switched = refl;
  slept = refl;
  suspended = refl;
  suspended_two = refl;
  current = refl;
  waited = refl;
  joined = refl;
  exited = refl;
}

wakeup_thread-IsScheduled_example : IsScheduled (wakeup_thread booted 0 2 (pos 1)).1
wakeup_thread-IsScheduled_example =
    wakeup_thread-IsScheduled booted 0 2 (pos 1) ready.scheduled facts.here (inl facts.asleep)

switch_thread-IsScheduled_example :
    IsScheduled (or_booted (switch_thread booted 0))
    × IsRunning (or_booted (switch_thread booted 0)) 0
switch_thread-IsScheduled_example =
    switch_thread-IsScheduled booted 0 (or_booted (switch_thread booted 0))
      (IsScheduled-IsLeaving booted 0 ready.scheduled facts.here ready.running) facts.here
      facts.switched

switch_thread-IsUrgent_example : IsUrgent booted 0 (switch_thread booted 0)
switch_thread-IsUrgent_example =
    switch_thread-IsUrgent booted 0
      (IsScheduled-IsLeaving booted 0 ready.scheduled facts.here ready.running) facts.here

sleep_thread-IsScheduled_example :
    IsScheduled (or_booted (sleep_thread booted 0 0))
    × IsRunning (or_booted (sleep_thread booted 0 0)) 0
    × (((or_booted (sleep_thread booted 0 0)).threads 0).running_on ≡ invalid_processor_number)
sleep_thread-IsScheduled_example =
    sleep_thread-IsScheduled booted 0 0 (or_booted (sleep_thread booted 0 0)) ready.scheduled
      facts.here ready.running facts.slept

-- With a second processor, which wakes thread 1 of the first one.
abbrev expanded : Manager
expanded = expand_locals booted 2

two_processors :
    IsScheduled expanded
    × (length expanded.locals ≡ 2)
    × ((i : ℕ) → local_at expanded i ≡ local_at booted i)
two_processors =
    expand_locals-IsScheduled booted 2 ready.scheduled (omega (arith, facts.size)) (omega arith)

elsewhere_expanded : (expanded.threads 1).running_on ≡ 0
unfolding expand_locals
elsewhere_expanded = facts.elsewhere

differs_expanded : nice_eq (expanded.threads 1).nice (pos 2) ≡ false
unfolding expand_locals started new_manager capture_context start_thread create_event create_process
    create_thread wakeup_thread_of find_alive_thread find_thread wakeup_thread push_to
    find_empty_slot scan place push_to_run_queue
differs_expanded = refl

IsLinked-waiting : IsLinked waiting
IsLinked-waiting = push_thread_to_events-IsLinked booted 1 0 ready.linked facts.alive

IsScheduled-waiting : IsScheduled waiting × (0 < length waiting.locals)
IsScheduled-waiting =
    let (v, locals, _) = push_thread_to_events-IsScheduled booted 1 0 ready.scheduled in
    (v, rw locals facts.here)

notify_event-IsNotified_example :
    NotifiesEvent waiting 0 1 (notify_event waiting 0 1)
    × IsScheduled (notify_event waiting 0 1).1
    × IsLinked (notify_event waiting 0 1).1
notify_event-IsNotified_example =
    notify_event-IsNotified waiting 0 1 IsScheduled-waiting.0 IsLinked-waiting IsScheduled-waiting.1

exit_thread-IsLinked_example :
    let m' = or_booted (exit_thread booted 0 1) in
    IsScheduled m'
    × IsLinked m'
    × IsRunning m' 0
    × ((m'.threads 1).zombie ≡ true)
    × ((m'.threads 1).running_on ≡ invalid_processor_number)
exit_thread-IsLinked_example =
    exit_thread-IsLinked booted 0 1 (or_booted (exit_thread booted 0 1)) ready.scheduled
      ready.linked ready.running facts.here facts.alive_other facts.exited

wait_event-WaitsFor_example :
    let r = or_waiting (wait_event booted 0 1) in
    WaitsFor booted 1 (local_at booted 0).this_thread r
    × IsScheduled r.1
    × IsLinked r.1
    × IsRunning r.1 0
wait_event-WaitsFor_example =
    wait_event-WaitsFor booted 0 1 (or_waiting (wait_event booted 0 1)) ready.scheduled ready.linked
      facts.here ready.running (rw facts.current facts.alive) facts.waited

create_thread-find_thread_example :
    (tid : ℕ) × let m' = (create_thread booted 0).1 in
      ((create_thread booted 0).0 ≡ ok tid)
      × (thread_slot booted 0 tid ≡ none)
      × (find_thread m' 0 tid ≡ ok booted.next_thread)
      × (m'.threads booted.next_thread ≡ new_thread tid 0)
      × ((i j : ℕ) → (0 ≢ i) ⊎ (tid ≢ j) → thread_slot m' i j ≡ thread_slot booted i j)
      × IsNamed m'
create_thread-find_thread_example =
    create_thread-find_thread booted 0 (record { id = 0; threads = some 0 ∷ some 1 ∷ [] })
      ready.named facts.process (omega arith)

IsNamed-ended : IsNamed ended
IsNamed-ended = record { own_name = λ i j t e. ground (arith, ready.named.own_name i j t e) }

wait_thread-zombie_example :
    (last : Manager) × (t : ℕ) × Joins 0 1 booted wakes last t
    × IsJoined 0 1 t last (or_ended (wait_thread wakes booted 0 0 1))
wait_thread-zombie_example =
    wait_thread-zombie wakes booted 0 0 1 (or_ended (wait_thread wakes booted 0 0 1)) ready.named
      (IsNamed-ended, tt) facts.joined

new_manager-IsReady_example : (m : Manager) × (new_manager blank_threads 7 ≡ some m) × IsReady m
new_manager-IsReady_example = new_manager-IsReady blank_threads 7 λ t. refl
