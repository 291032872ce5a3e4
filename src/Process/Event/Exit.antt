-- ===== src/Process/Event/Exit.antt =====
-- src/process/manager.hpp: exit_thread and cancel_events_of_thread.
use klee.Base.{
  ℕ, ◌<◌, ◌≡◌, refl, sym, ap, ◌∙◌, inl, inr, true, false, not, ◌&&◌, List, [], ◌∷◌, Option, none,
  some, arith, get_or, get_or-set_self, get_or-set_ne, length, length-set, dec_lt, get_or_past,
  ◌==◌, if◌then◌else◌, ==_refl, ==_ne, ℕ_discrete, Bool-cases, Option-cases,
}
use klee.Util.DenseMap.{contains}
use klee.Process.{Manager, invalid_processor_number}
use klee.Process.Local.{erase_all}
use klee.Process.Switch.{local_at, set_thread, sleep_thread}
use klee.Process.Switch.Queues.{count, count-erase_all}
use klee.Process.Switch.Wakeup.{IsScheduled}
use klee.Process.Switch.Turn.{IsRunning}
use klee.Process.Switch.Stop.{sleep_thread-IsScheduled}
use klee.Process.Event.{
  listed, waiters, set_waiters, cancel_all, cancel_events_of_thread, notify_event, exit_thread,
  end_thread,
}
use klee.Process.Event.Linked.{IsLinked, waiters-set_waiters, contains-lt}
use klee.Process.Event.Kept.{KeepsEvents-IsLinked, sleep_thread-KeepsEvents}
use klee.Process.Event.Notify.{notify_event-IsNotified}

-- The state after the loop of cancel_events_of_thread.
record IsCancelled (m : Manager) (es : List ℕ) (t : ℕ) (d : List (Option (List ℕ))) : Type 0 where
  done : cancel_all m es t ≡ some (record m { events = d })
  kept : (e : ℕ) → contains d e ≡ contains m.events e
  left :
      (e u : ℕ)
      → count u (listed (get_or d e none))
        ≡ (if (u == t) && not (count e es == 0) then 0 else count u (waiters m e))

contains-set_waiters :
    (m : Manager) (e f : ℕ) (ts : List ℕ)
    → contains m.events e ≡ true
    → contains (set_waiters m e ts).events f ≡ contains m.events f
contains-set_waiters m e f ts h = elim (ℕ_discrete e f) [
  | yes p ↦
      rw (← p, get_or-set_self m.events e (some ts) none (contains-lt m.events e h))
        (ground (arith, length-set m.events e (some ts)))
  | no p ↦ rw (get_or-set_ne m.events e f (some ts) none p, length-set m.events e (some ts)) refl
]

-- The loop finds each event that the thread lists, and takes the thread off its list.
cancel_all-IsCancelled :
    (m : Manager) (es : List ℕ) (t : ℕ)
    → ((e : ℕ) → 0 < count e es → contains m.events e ≡ true)
    → (d : List (Option (List ℕ))) × IsCancelled m es t d
unfolding cancel_all count
cancel_all-IsCancelled m [] t all =
    (m.events, record { done = refl; kept = λ e. refl; left = λ e u. ground arith })
cancel_all-IsCancelled m (x ∷ es) t all =
    let m1 = set_waiters m x (erase_all (waiters m x) t) in
    let there : contains m.events x ≡ true = all x (ground arith) in
    let kept1 : (e : ℕ) → contains m1.events e ≡ contains m.events e =
      λ e. contains-set_waiters m x e (erase_all (waiters m x) t) there in
    let (d, c) = cancel_all-IsCancelled m1 es t (λ e pos. kept1 e ∙ all e (ground arith)) in
    (
      d,
      record {
        done = rw there c.done;
        kept = λ e. c.kept e ∙ kept1 e;
        left = λ e u.
            c.left e u
            ∙ rw (waiters-set_waiters m x e (erase_all (waiters m x) t) there)
                (elim (ℕ_discrete x e) [
                  | yes p ↦ rw (p, ==_refl e) (ground (arith, count-erase_all u t (waiters m e)))
                  | no p ↦ rw (==_ne x e p) (ground arith)
                ]);
      },
    )

abbrev zombie_state : Manager → ℕ → Manager
zombie_state m t = set_thread m t (record (m.threads t) { zombie = true })

-- A listed event is there.
contains-listed : (m : Manager) (e t : ℕ) → 0 < count t (waiters m e) → contains m.events e ≡ true
unfolding count
contains-listed m e t pos = elim (dec_lt e (length m.events)) [
  | no ge ↦ absurd (
      ground (arith, ap (λ o. count t (listed o)) (get_or_past m.events e none (omega arith)), pos))
  | yes lt ↦ elim (Option-cases (get_or m.events e none)) [
    | inl h ↦ absurd (ground (arith, pos, h))
    | inr (ts, h) ↦ ground (arith, h)
  ]
]

cancelled-IsLinked :
    (m : Manager) (t : ℕ) (d : List (Option (List ℕ)))
    → IsLinked m
    → (m.threads t).zombie ≡ false
    → IsCancelled (zombie_state m t) (m.threads t).events t d
    → IsLinked (record (zombie_state m t) { events = d })
cancelled-IsLinked m t d k alive c = record {
  linked = λ e u a. elim (ℕ_discrete u t) [
    | yes p ↦ absurd (ground (arith, p))
    | no p ↦ c.left e u ∙ rw (==_ne u t p) (k.linked e u (rw (==_ne u t p) at a))
  ];
  dead = λ e u z. elim (ℕ_discrete u t) [
    | yes p ↦ c.left e u ∙ rw (p, ==_refl t) (ground (arith, k.linked e t alive))
    | no p ↦ c.left e u ∙ rw (==_ne u t p) (k.dead e u (rw (==_ne u t p) at z))
  ];
}

-- A notification leaves the processors' threads where they are, and no thread ends by it.
notify_event-kept :
    (m : Manager) (cpu e : ℕ)
    → IsScheduled m
    → IsLinked m
    → cpu < length m.locals
    → IsRunning m cpu
    → let m' = (notify_event m cpu e).1 in
      (cpu < length m'.locals)
      × IsRunning m' cpu
      × ((t : ℕ) → (m'.threads t).zombie ≡ (m.threads t).zombie)
unfolding notify_event
notify_event-kept m cpu e v k here on = elim (Bool-cases (contains m.events e)) [
  | inr absent ↦ rw absent (here, on, λ t. refl)
  | inl there ↦ elim (notify_event-IsNotified m cpu e v k here).0 [
    | inl (absent, _, _) ↦ absurd (ground (arith, there, absent))
    | inr (_, _, n) ↦
        let found = rw there at n in
        rw there (
          omega (arith, found.locals, here),
          rw (found.current cpu)
              (ground (arith, found.running (local_at m cpu).this_thread, v.few)),
          found.zombies,
        )
  ]
]

exit_thread_lem :
    (m : Manager) (cpu t : ℕ) (d : List (Option (List ℕ)))
    → IsCancelled (zombie_state m t) (m.threads t).events t d
    → let m' = record (zombie_state m t) { events = d } in
      exit_thread m cpu t ≡ sleep_thread (notify_event m' cpu m'.thread_joined_event).1 cpu t
unfolding exit_thread cancel_events_of_thread
exit_thread_lem m cpu t d c =
    let done : cancel_events_of_thread (zombie_state m t) t
        ≡ some (record (zombie_state m t) { events = d }) =
      rw (==_refl t) c.done in
    ap (end_thread cpu t) done

cancelled :
    (m : Manager) (t : ℕ)
    → IsLinked m
    → (m.threads t).zombie ≡ false
    → (d : List (Option (List ℕ))) × IsCancelled (zombie_state m t) (m.threads t).events t d
cancelled m t k alive =
    cancel_all-IsCancelled (zombie_state m t) (m.threads t).events t
      λ e pos. contains-listed m e t (omega (arith, k.linked e t alive, pos))

-- cancel_events_of_thread, called by exit_thread for a thread that is no zombie, does not stop the
-- kernel, and leaves events and threads linked: the thread is on no event's list.
pub cancel_events_of_thread-IsLinked :
    (m : Manager) (t : ℕ)
    → IsLinked m
    → (m.threads t).zombie ≡ false
    → (m' : Manager) × (cancel_events_of_thread
          (set_thread m t (record (m.threads t) { zombie = true }))
          t
        ≡ some m')
      × IsLinked m'
      × ((e : ℕ) → count t (waiters m' e) ≡ 0)
unfolding cancel_events_of_thread
cancel_events_of_thread-IsLinked m t k alive =
    let (d, c) = cancelled m t k alive in
    let k' = cancelled-IsLinked m t d k alive c in
    (
      record (zombie_state m t) { events = d },
      rw (==_refl t) c.done,
      k',
      λ e. k'.dead e t (rw (==_refl t) refl),
    )

-- Where exit_thread returns, called for a thread that is no zombie, the thread is a zombie and runs
-- nowhere; the run queues are right, events and threads linked, so that no event lists the thread,
-- and the processor runs a thread of its own.
pub exit_thread-IsLinked :
    (m : Manager) (cpu t : ℕ) (m' : Manager)
    → IsScheduled m
    → IsLinked m
    → IsRunning m cpu
    → cpu < length m.locals
    → (m.threads t).zombie ≡ false
    → exit_thread m cpu t ≡ some m'
    → IsScheduled m'
      × IsLinked m'
      × IsRunning m' cpu
      × ((m'.threads t).zombie ≡ true)
      × ((m'.threads t).running_on ≡ invalid_processor_number)
exit_thread-IsLinked m cpu t m' v k on here alive e =
    let (d, c) = cancelled m t k alive in
    let m2 = record (zombie_state m t) { events = d } in
    let v2 : IsScheduled m2 = record {
      few = v.few;
      shaped = v.shaped;
      valid = λ u. ground (arith, v.valid u);
      placed = λ u. ground (arith, v.placed u);
      queued = λ i q u lt. ground (arith, v.queued i q u lt);
    } in
    let k2 = cancelled-IsLinked m t d k alive c in
    let on2 : IsRunning m2 cpu = ground arith in
    let done = notify_event-IsNotified m2 cpu m2.thread_joined_event v2 k2 here in
    let (here3, on3, zombies) = notify_event-kept m2 cpu m2.thread_joined_event v2 k2 here on2 in
    let m3 = (notify_event m2 cpu m2.thread_joined_event).1 in
    let slept : sleep_thread m3 cpu t ≡ some m' = sym (exit_thread_lem m cpu t d c) ∙ e in
    let (v4, on4, off) = sleep_thread-IsScheduled m3 cpu t m' done.1 here3 on3 slept in
    let kept = sleep_thread-KeepsEvents m3 cpu t m' slept in
    (
      v4,
      KeepsEvents-IsLinked m3 m' kept done.2,
      on4,
      kept.zombies t ∙ zombies t ∙ rw (==_refl t) refl,
      off,
    )
