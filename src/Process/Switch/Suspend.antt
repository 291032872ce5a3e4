-- ===== src/Process/Switch/Suspend.antt =====
-- src/process/manager.hpp: suspend_thread_for_tick.
use klee.Base.{
  ℕ, ◌+◌, ◌-◌, ◌≤◌, ◌<◌, ◌≡◌, ◌≢◌, refl, sym, ◌∙◌, inl, inr, false, some, arith, length, ◌==◌,
  if◌then◌else◌, ==_refl, ==_ne, ℕ_discrete, Bool-cases, ◌^◌, ltb, le→ltb_false,
}
use klee.Process.{Thread, Manager}
use klee.Process.Local.{should_skip, elapsed}
use klee.Process.Switch.{local_at, set_thread, suspend_thread_for_tick}
use klee.Process.Switch.Wakeup.{IsScheduled, share}
use klee.Process.Switch.Turn.{IsRunning, IsLeaving, switch_thread-IsScheduled}

-- A thread that is written without changing where it runs or its niceness.
set_thread-share :
    (m : Manager) (t u i q : ℕ) (th : Thread)
    → th.running_on ≡ (m.threads t).running_on
    → th.nice ≡ (m.threads t).nice
    → share ((set_thread m t th).threads u) i q ≡ share (m.threads u) i q
set_thread-share m t u i q th e f = elim (ℕ_discrete u t) [
  | yes p ↦ rw (p, ==_refl t) (rw (e, f))
  | no p ↦ rw (==_ne u t p)
]

-- Writing the fields that say until when a thread is suspended keeps the run queues right.
suspended-IsScheduled :
    (m : Manager) (t : ℕ) (th : Thread)
    → IsScheduled m
    → th.running_on ≡ (m.threads t).running_on
    → th.nice ≡ (m.threads t).nice
    → IsScheduled (set_thread m t th)
suspended-IsScheduled m t th v e f = record {
  few = v.few;
  shaped = v.shaped;
  valid = λ u. elim (ℕ_discrete u t) [
    | yes p ↦ rw (p, ==_refl t, f) (v.valid t)
    | no p ↦ rw (==_ne u t p) (v.valid u)
  ];
  placed = λ u. elim (ℕ_discrete u t) [
    | yes p ↦ rw (p, ==_refl t, e) (v.placed t)
    | no p ↦ rw (==_ne u t p) (v.placed u)
  ];
  queued = λ i q u lt. v.queued i q u lt ∙ sym (set_thread-share m t u i q th e f);
}

suspended-IsRunning :
    (m : Manager) (cpu t : ℕ) (th : Thread)
    → th.running_on ≡ (m.threads t).running_on
    → IsRunning m cpu
    → IsRunning (set_thread m t th) cpu
suspended-IsRunning m cpu t th e on = elim (ℕ_discrete (local_at m cpu).this_thread t) [
  | yes p ↦ rw (p, ==_refl t) (e ∙ (rw p at on))
  | no p ↦ rw (==_ne _ t p) on
]

-- A processor that runs a thread of its own may switch from it.
pub IsScheduled-IsLeaving :
    (m : Manager) (cpu : ℕ)
    → IsScheduled m
    → cpu < length m.locals
    → IsRunning m cpu
    → IsLeaving m cpu
IsScheduled-IsLeaving m cpu v here on =
    let t = (local_at m cpu).this_thread in
    record {
      few = v.few;
      shaped = v.shaped;
      valid = v.valid;
      placed = v.placed;
      others = λ i q u lt e. v.queued i q u lt;
      away = λ i q lt e. ground (arith, v.queued i q t lt);
      own_queue = λ q e. ground (arith, v.queued cpu q t here);
      state = inr on;
    }

-- suspend_thread_for_tick, called on a processor that runs a thread of its own, keeps the run queues
-- right and leaves the processor with a thread of its own: a suspended thread stays in its queue.
pub suspend_thread_for_tick-IsScheduled :
    (m : Manager) (cpu t wait_tick : ℕ) (m' : Manager)
    → IsScheduled m
    → cpu < length m.locals
    → IsRunning m cpu
    → suspend_thread_for_tick m cpu t wait_tick ≡ some m'
    → IsScheduled m' × IsRunning m' cpu
unfolding suspend_thread_for_tick
suspend_thread_for_tick-IsScheduled m cpu t wait_tick m' v here on e =
    let th = record (m.threads t) {
      suspend_from = if m.tick == 0 then 1 else m.tick;
      suspend_for = if m.tick == 0 then wait_tick - 1 else wait_tick;
    } in
    let kept = suspended-IsScheduled m t th v refl refl in
    let still = suspended-IsRunning m cpu t th refl on in
    elim (Bool-cases (wait_tick == 0)) [
      | inl now ↦ let same : m ≡ m' = ground (arith, e) in rw (← same) (v, on)
      | inr later ↦ elim (Bool-cases (t == (local_at m cpu).this_thread)) [
        | inl own ↦
            switch_thread-IsScheduled (set_thread m t th) cpu m'
              (IsScheduled-IsLeaving (set_thread m t th) cpu kept here still) here
              (ground (arith, e))
        | inr other ↦
            let same : set_thread m t th ≡ m' = ground (arith, e) in rw (← same) (kept, still)
      ]
    ]

-- The thread as suspend_thread_for_tick leaves it.
abbrev suspended : Manager → ℕ → ℕ → Thread
suspended m t wait_tick = record (m.threads t) {
  suspend_from = if m.tick == 0 then 1 else m.tick;
  suspend_for = if m.tick == 0 then wait_tick - 1 else wait_tick;
}

suspended_thread :
    (m : Manager) (cpu t wait_tick : ℕ) (m' : Manager)
    → t ≢ (local_at m cpu).this_thread
    → 0 < wait_tick
    → suspend_thread_for_tick m cpu t wait_tick ≡ some m'
    → m'.threads t ≡ suspended m t wait_tick
unfolding suspend_thread_for_tick
suspended_thread m cpu t wait_tick m' other pos e =
    let now : (wait_tick == 0) ≡ false = ==_ne wait_tick 0 (omega arith) in
    let own : (t == (local_at m cpu).this_thread) ≡ false = ==_ne t _ other in
    let same : set_thread m t (suspended m t wait_tick) ≡ m' = ground (arith, e, now, own) in
    rw (← same) (rw (==_refl t))

skip_nonzero :
    (tick later w : ℕ) (th : Thread)
    → th.suspend_from ≡ tick
    → th.suspend_for ≡ w
    → 0 < tick
    → tick ≤ later
    → later < 2 ^ 64
    → should_skip th later ≡ ltb later (tick + w)
unfolding should_skip
skip_nonzero tick later w th e f pos ge small =
    let gone : elapsed later tick ≡ later - tick = omega arith in
    rw (e, f, ==_ne tick 0 (omega arith), gone) (ground arith)

-- After another thread is suspended for at least one tick, it is skipped at each later tick, other
-- than tick 0, exactly until the ticks asked for have passed.
suspended_until :
    (m : Manager) (cpu t wait_tick : ℕ) (m' : Manager) (later : ℕ)
    → t ≢ (local_at m cpu).this_thread
    → 0 < wait_tick
    → suspend_thread_for_tick m cpu t wait_tick ≡ some m'
    → m.tick ≤ later
    → 0 < later
    → later < 2 ^ 64
    → should_skip (m'.threads t) later ≡ ltb later (m.tick + wait_tick)
suspended_until m cpu t wait_tick m' later other pos e ge some_tick small =
    rw (suspended_thread m cpu t wait_tick m' other pos e) (elim (ℕ_discrete m.tick 0) [
      | no running ↦
          skip_nonzero m.tick later wait_tick (suspended m t wait_tick)
            (rw (==_ne m.tick 0 running)) (rw (==_ne m.tick 0 running)) (omega arith) ge small
      | yes start ↦
          let sum : m.tick + wait_tick ≡ 1 + (wait_tick - 1) = omega arith in
          rw sum (
            skip_nonzero 1 later (wait_tick - 1) (suspended m t wait_tick) (rw start) (rw start)
              (omega arith) some_tick small)
    ])

-- A thread that is suspended at tick 0 is not skipped at tick 0, however long it is suspended for.
pub not_suspended_at_zero :
    (m : Manager) (cpu t wait_tick : ℕ) (m' : Manager)
    → t ≢ (local_at m cpu).this_thread
    → 0 < wait_tick
    → wait_tick < 2 ^ 64
    → m.tick ≡ 0
    → suspend_thread_for_tick m cpu t wait_tick ≡ some m'
    → should_skip (m'.threads t) 0 ≡ false
unfolding should_skip
not_suspended_at_zero m cpu t wait_tick m' other pos small start e =
    rw (suspended_thread m cpu t wait_tick m' other pos e, start) (le→ltb_false _ _ (omega arith))
