-- ===== src/Process/Event/Notify.antt =====
-- src/process/manager.hpp: notify_event.
use klee.Base.{
  ℕ, ◌<◌, ◌≡◌, Code, ◌≢◌, refl, sym, ap, ◌∙◌, ◌⊎◌, inl, inr, true, false, not, ◌&&◌, List, [], ◌∷◌,
  none, arith, get_or, length, length-set, dec_lt, set_past, ◌==◌, if◌then◌else◌, ==_refl, ==_ne,
  ℕ_discrete, Bool-cases, success, no_such_event,
}
use klee.Util.DenseMap.{contains}
use klee.Process.{Manager, invalid_processor_number}
use klee.Process.Niceness.{invalid_nice}
use klee.Process.Local.{erase_all, push_to_run_queue}
use klee.Process.Switch.{local_at, set_thread, wakeup_thread, woken, push_to}
use klee.Process.Switch.Queues.{count, count-erase_all, local_at-set_local}
use klee.Process.Switch.Wakeup.{IsScheduled, wakeup_thread-IsScheduled}
use klee.Process.Event.{listed, waiters, set_waiters, set_events_of, wake_all, notify_event}
use klee.Process.Event.Linked.{IsLinked, waiters-set_waiters}

-- What a call of wakeup_thread without a niceness changes.
record IsWoken (m : Manager) (cpu t : ℕ) (m' : Manager) : Type 0 where
  locals : length m'.locals ≡ length m.locals
  events : m'.events ≡ m.events
  lists : (u : ℕ) → (m'.threads u).events ≡ (m.threads u).events
  zombies : (u : ℕ) → (m'.threads u).zombie ≡ (m.threads u).zombie
  others : (u : ℕ) → u ≢ t → (m'.threads u).running_on ≡ (m.threads u).running_on
  awake : (m'.threads t).running_on ≡ (
      if (m.threads t).running_on == invalid_processor_number
      then cpu
      else (m.threads t).running_on)
  current : (i : ℕ) → (local_at m' i).this_thread ≡ (local_at m i).this_thread

wakeup_thread-success : (m : Manager) (cpu t : ℕ) → (wakeup_thread m cpu t invalid_nice).0 ≡ success
unfolding wakeup_thread
wakeup_thread-success m cpu t =
    elim (Bool-cases ((m.threads t).running_on == invalid_processor_number)) [
      | inl sleeps ↦ rw sleeps refl
      | inr runs ↦ rw runs refl
    ]

this_thread-push_to :
    (m : Manager) (cpu t i : ℕ)
    → (local_at (push_to m cpu t) i).this_thread ≡ (local_at m i).this_thread
unfolding push_to push_to_run_queue
this_thread-push_to m cpu t i = elim (dec_lt cpu (length m.locals)) [
  | no ge ↦
      rw (set_past m.locals cpu (push_to_run_queue (local_at m cpu) m.threads t) (omega arith)) refl
  | yes lt ↦
      rw (local_at-set_local m cpu i (push_to_run_queue (local_at m cpu) m.threads t) lt)
        (elim (ℕ_discrete cpu i) [
          | yes p ↦ rw (p, ==_refl i) refl
          | no p ↦ rw (==_ne cpu i p) refl
        ])
]

wakeup_thread-IsWoken :
    (m : Manager) (cpu t : ℕ) → IsWoken m cpu t (wakeup_thread m cpu t invalid_nice).1
unfolding wakeup_thread push_to
wakeup_thread-IsWoken m cpu t =
    elim (Bool-cases ((m.threads t).running_on == invalid_processor_number)) [
      | inl sleeps ↦ rw sleeps (record {
        locals = length-set m.locals cpu _;
        events = refl;
        lists = λ u. ground (arith);
        zombies = λ u. ground (arith);
        others = λ u p. rw (==_ne u t p) refl;
        awake = rw (==_refl t, sleeps) refl;
        current = λ i.
            this_thread-push_to (set_thread m t (woken (m.threads t) cpu invalid_nice)) cpu t i;
      })
      | inr runs ↦ rw runs (record {
        locals = refl;
        events = refl;
        lists = λ u. refl;
        zombies = λ u. refl;
        others = λ u p. refl;
        awake = rw runs refl;
        current = λ i. refl;
      })
    ]

-- Writing a thread's list of events does not touch the run queues.
pub set_events_of-IsScheduled :
    (m : Manager) (t : ℕ) (es : List ℕ) → IsScheduled m → IsScheduled (set_events_of m t es)
set_events_of-IsScheduled m t es v = record {
  few = v.few;
  shaped = v.shaped;
  valid = λ u. ground (arith, v.valid u);
  placed = λ u. ground (arith, v.placed u);
  queued = λ i q u lt. ground (arith, v.queued i q u lt);
}

-- A processor for a thread that may sleep.
abbrev pub awake_on : ℕ → ℕ → ℕ
awake_on cpu i = if i == invalid_processor_number then cpu else i

-- What waking the threads `ts` of event `e` changes.
pub record IsNotified (m : Manager) (cpu e : ℕ) (ts : List ℕ) (m' : Manager) : Type 0 where
  pub locals : length m'.locals ≡ length m.locals
  pub events : m'.events ≡ m.events
  pub current : (i : ℕ) → (local_at m' i).this_thread ≡ (local_at m i).this_thread
  pub zombies : (u : ℕ) → (m'.threads u).zombie ≡ (m.threads u).zombie
  pub lists :
      (f u : ℕ)
      → count f (m'.threads u).events
        ≡ (if (e == f) && not (count u ts == 0) then 0 else count f (m.threads u).events)
  pub running :
      (u : ℕ)
      → (m'.threads u).running_on ≡ (
          if count u ts == 0
          then (m.threads u).running_on
          else awake_on cpu (m.threads u).running_on)

zombie-set_events_of :
    (m : Manager) (t : ℕ) (es : List ℕ) (u : ℕ)
    → ((set_events_of m t es).threads u).zombie ≡ (m.threads u).zombie
zombie-set_events_of m t es u = ground arith

lists_step :
    (m : Manager) (e t f u : ℕ) (ts : List ℕ)
    → (if (e == f) && not (count u ts == 0)
        then 0
        else count f ((set_events_of m t (erase_all (m.threads t).events e)).threads u).events)
      ≡ (if (e == f) && not (count u (t ∷ ts) == 0) then 0 else count f (m.threads u).events)
unfolding count
lists_step m e t f u ts = elim (ℕ_discrete u t) [
  | yes p ↦ rw (p, ==_refl t) (ground (arith, count-erase_all f e (m.threads t).events))
  | no p ↦ rw (==_ne u t p, ==_ne t u (λ q. p (sym q))) (ground arith)
]

wake_all-IsNotified :
    (m : Manager) (cpu e : ℕ) (ts : List ℕ)
    → IsScheduled m
    → cpu < length m.locals
    → ((wake_all m cpu e ts).0 ≡ success)
      × IsScheduled (wake_all m cpu e ts).1
      × IsNotified m cpu e ts (wake_all m cpu e ts).1
unfolding wake_all count
wake_all-IsNotified m cpu e [] v here = (
  refl,
  v,
  record {
    locals = refl;
    events = refl;
    zombies = λ u. refl;
    lists = λ f u. ground arith;
    running = λ u. refl;
    current = λ i. refl;
  },
)
wake_all-IsNotified m cpu e (t ∷ ts) v here =
    let m1 = set_events_of m t (erase_all (m.threads t).events e) in
    let m2 = (wakeup_thread m1 cpu t invalid_nice).1 in
    let w = wakeup_thread-IsWoken m1 cpu t in
    let v1 = set_events_of-IsScheduled m t (erase_all (m.threads t).events e) v in
    let v2 = wakeup_thread-IsScheduled m1 cpu t invalid_nice v1 here (inr (inl refl)) in
    let (done, v3, n) = wake_all-IsNotified m2 cpu e ts v2 (omega (arith, w.locals, here)) in
    rw (wakeup_thread-success m1 cpu t) (
      done,
      v3,
      record {
        locals = n.locals ∙ w.locals;
        events = n.events ∙ w.events;
        current = λ i. n.current i ∙ w.current i;
        zombies = λ u. n.zombies u ∙ w.zombies u ∙ zombie-set_events_of m t _ u;
        lists = λ f u. n.lists f u ∙ rw (w.lists u) (lists_step m e t f u ts);
        running = λ u. n.running u ∙ (elim (ℕ_discrete u t) [
          | yes p ↦ rw (p, ==_refl t, w.awake) (ground (arith, v.few, here))
          | no p ↦ rw (w.others u p, ==_ne t u (λ q. p (sym q)), ==_ne u t p) (ground arith)
        ]);
      },
    )

notified-IsLinked :
    (m : Manager) (cpu e : ℕ) (m' : Manager)
    → IsLinked m
    → contains m.events e ≡ true
    → IsNotified (set_waiters m e []) cpu e (waiters m e) m'
    → IsLinked m'
unfolding count
notified-IsLinked m cpu e m' k there n = record {
  linked = λ f u a. ap (count u) (same f) ∙ (elim (ℕ_discrete e f) [
    | yes p ↦
        let both = k.linked e u (sym (n.zombies u) ∙ a) in
        rw (p, ==_refl f) (ground (arith, n.lists f u, both, p))
    | no p ↦
        let both = k.linked f u (sym (n.zombies u) ∙ a) in
        rw (==_ne e f p) (ground (arith, n.lists f u, both, ==_ne e f p))
  ]);
  dead = λ f u z. ap (count u) (same f) ∙ (elim (Bool-cases (e == f)) [
    | inl h ↦ rw h refl
    | inr h ↦ rw h (k.dead f u (sym (n.zombies u) ∙ z))
  ]);
}
  where
    same : (f : ℕ) → waiters m' f ≡ (if e == f then [] else waiters m f)
    same f = ap (λ d. listed (get_or d f none)) n.events ∙ waiters-set_waiters m e f [] there

-- What notifying event `e` of `m` comes to: nothing changes if the event is not there; or all of
-- the threads that waited are woken.
abbrev pub NotifiesEvent : Manager → ℕ → ℕ → Code × Manager → Type 0
NotifiesEvent m cpu e (c, m') =
    ((contains m.events e ≡ false) × (c ≡ no_such_event) × (m' ≡ m))
    ⊎ ((contains m.events e ≡ true)
        × (c ≡ success)
        × IsNotified (set_waiters m e []) cpu e (waiters m e) m')

-- notify_event changes nothing if the event is not there. Otherwise it succeeds, nobody waits for
-- the event any more, the threads that waited for it no longer list it and run, and all else of
-- threads' lists and processors stays. The run queues stay right, and so does the linking of events
-- and threads.
pub notify_event-IsNotified :
    (m : Manager) (cpu e : ℕ)
    → IsScheduled m
    → IsLinked m
    → cpu < length m.locals
    → NotifiesEvent m cpu e (notify_event m cpu e)
      × IsScheduled (notify_event m cpu e).1
      × IsLinked (notify_event m cpu e).1
unfolding notify_event
notify_event-IsNotified m cpu e v k here = elim (Bool-cases (contains m.events e)) [
  | inr absent ↦ rw absent (inl (refl, refl, refl), v, k)
  | inl there ↦
      let m1 = set_waiters m e [] in
      let v1 : IsScheduled m1 = record {
        few = v.few;
        shaped = v.shaped;
        valid = v.valid;
        placed = v.placed;
        queued = v.queued;
      } in
      let (done, v2, n) = wake_all-IsNotified m1 cpu e (waiters m e) v1 here in
      rw there (
        inr (refl, done, n),
        v2,
        notified-IsLinked m cpu e (wake_all m1 cpu e (waiters m e)).1 k there n,
      )
]
