-- ===== src/Process/Event/Wait.antt =====
-- src/process/manager.hpp: wait_event.
use klee.Base.{
  ℕ, ◌+◌, ◌<◌, ◌≡◌, Code, ◌++◌, refl, sym, ap, ◌∙◌, ◌⊎◌, inl, inr, true, false, [], ◌∷◌, some,
  arith, length, ==_refl, Bool-cases, Option-cases, success, no_such_event,
}
use klee.Util.DenseMap.{contains}
use klee.Process.{Manager, invalid_processor_number}
use klee.Process.Switch.{local_at, sleep_thread}
use klee.Process.Switch.Queues.{count, count-push}
use klee.Process.Switch.Wakeup.{IsScheduled}
use klee.Process.Switch.Turn.{IsRunning}
use klee.Process.Event.{push_thread_to_events, wait_event, sleep_after, waiters, set_waiters}
use klee.Process.Event.Linked.{push_thread_to_events-IsLinked, IsLinked, waiters-set_waiters}
use klee.Process.Switch.Stop.{sleep_thread-IsScheduled}
use klee.Process.Event.Kept.{KeepsEvents-IsLinked, sleep_thread-KeepsEvents}
use klee.Process.Event.Notify.{set_events_of-IsScheduled}

-- Getting on an event's list changes no run queue.
pub push_thread_to_events-IsScheduled :
    (m : Manager) (e t : ℕ)
    → IsScheduled m
    → IsScheduled (push_thread_to_events m e t).1
      × ((push_thread_to_events m e t).1.locals ≡ m.locals)
      × ((u : ℕ)
          → ((push_thread_to_events m e t).1.threads u).running_on ≡ (m.threads u).running_on)
unfolding push_thread_to_events
push_thread_to_events-IsScheduled m e t v = elim (Bool-cases (contains m.events e)) [
  | inr absent ↦ rw absent (v, refl, λ u. refl)
  | inl there ↦ rw there (
    set_events_of-IsScheduled (set_waiters m e (waiters m e ++ t ∷ [])) t
        ((m.threads t).events ++ e ∷ [])
        (record {
          few = v.few;
          shaped = v.shaped;
          valid = v.valid;
          placed = v.placed;
          queued = v.queued;
        }),
    refl,
    λ u. ground arith,
  )
]

-- What waiting for event `e` comes to for thread `t`: nothing changes if the event is not there; or
-- the thread is once more on the event's list, and sleeps.
abbrev pub WaitsFor : Manager → ℕ → ℕ → Code × Manager → Type 0
WaitsFor m e t (c, m') =
    ((contains m.events e ≡ false) × (c ≡ no_such_event) × (m' ≡ m))
    ⊎ ((contains m.events e ≡ true)
        × (c ≡ success)
        × (count t (waiters m' e) ≡ count t (waiters m e) + 1)
        × ((m'.threads t).running_on ≡ invalid_processor_number))

sleep_success :
    (cpu t : ℕ) (m1 : Manager) (r : Code × Manager)
    → (local_at m1 cpu).this_thread ≡ t
    → sleep_after cpu (success, m1) ≡ some r
    → (r.0 ≡ success) × (sleep_thread m1 cpu t ≡ some r.1)
sleep_success cpu t m1 r own e =
    elim (Option-cases (sleep_thread m1 cpu (local_at m1 cpu).this_thread)) [
      | inl stops ↦ absurd (ground (arith, e, stops))
      | inr (m', slept) ↦
          let same : (success, m') ≡ r = ground (arith, e, slept) in
          rw (← same) (refl, rw (← own) slept)
    ]

push_absent :
    (m : Manager) (e t : ℕ)
    → contains m.events e ≡ false
    → push_thread_to_events m e t ≡ (no_such_event, m)
unfolding push_thread_to_events
push_absent m e t absent = rw absent refl

push_there :
    (m : Manager) (e t : ℕ)
    → contains m.events e ≡ true
    → (push_thread_to_events m e t ≡ (success, (push_thread_to_events m e t).1))
      × (count t (waiters (push_thread_to_events m e t).1 e) ≡ count t (waiters m e) + 1)
unfolding push_thread_to_events
push_there m e t there = rw there (
  refl,
  ap (count t) (waiters-set_waiters m e e (waiters m e ++ t ∷ []) there)
      ∙ rw (==_refl e) (count-push t t (waiters m e) ∙ rw (==_refl t) refl),
)

-- wait_event, called on a processor that runs a thread of its own, which is no zombie: where it
-- returns, either the event is not there and nothing changed, or the thread is once more on the
-- event's list and sleeps. The run queues are right, events and threads are linked,
-- and the processor runs a thread of its own.
pub wait_event-WaitsFor :
    (m : Manager) (cpu e : ℕ) (r : Code × Manager)
    → IsScheduled m
    → IsLinked m
    → cpu < length m.locals
    → IsRunning m cpu
    → (m.threads (local_at m cpu).this_thread).zombie ≡ false
    → wait_event m cpu e ≡ some r
    → WaitsFor m e (local_at m cpu).this_thread r
      × IsScheduled r.1
      × IsLinked r.1
      × IsRunning r.1 cpu
unfolding wait_event
wait_event-WaitsFor m cpu e r v k here on alive h =
    let t = (local_at m cpu).this_thread in
    let m1 = (push_thread_to_events m e t).1 in
    let (v1, locals, running) = push_thread_to_events-IsScheduled m e t v in
    let k1 = push_thread_to_events-IsLinked m e t k alive in
    elim (Bool-cases (contains m.events e)) [
      | inr absent ↦
          let p = ap (sleep_after cpu) (push_absent m e t absent) in
          let same : (no_such_event, m) ≡ r = ground (arith, sym p ∙ h) in
          rw (← same) (inl (absent, refl, refl), v, k, on)
      | inl there ↦
          let (p, count) = push_there m e t there in
          let own : (local_at m1 cpu).this_thread ≡ t = rw locals refl in
          let (done, slept) = sleep_success cpu t m1 r own (sym (ap (sleep_after cpu) p) ∙ h) in
          let here1 : cpu < length m1.locals = rw locals here in
          let on1 : IsRunning m1 cpu = ap (λ u. (m1.threads u).running_on) own ∙ running t ∙ on in
          let (v2, on2, off) = sleep_thread-IsScheduled m1 cpu t r.1 v1 here1 on1 slept in
          let kept = sleep_thread-KeepsEvents m1 cpu t r.1 slept in
          (
            inr (there, done, rw kept.events count, off),
            v2,
            KeepsEvents-IsLinked m1 r.1 kept k1,
            on2,
          )
    ]
