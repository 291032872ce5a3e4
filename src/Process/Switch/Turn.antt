-- ===== src/Process/Switch/Turn.antt =====
-- src/process/manager.hpp: a context switch, Manager::switch_thread.
use klee.Base.{
  ℕ, ◌<◌, ◌≡◌, ◌≢◌, sym, ap, ◌∙◌, ◌⊎◌, true, false, Option, none, some, arith, length, ==_refl,
  ==_ne, ℕ_discrete,
}
use klee.Process.{Thread, ProcessorLocal, Manager, invalid_processor_number}
use klee.Process.Niceness.{queues}
use klee.Process.Local.{
  update, index_of, erase_from_run_queue, rotate, update_this_thread, pick, should_skip,
}
use klee.Process.Switch.{local_at, set_local, switch_thread}
use klee.Process.Switch.Queues.{
  occ, occ_in, occ_in-rotate, length-erase, length-push, rotate_lem, local_at-set_local,
}
use klee.Process.Switch.Pick.{pick-Picked, Picked}
use klee.Process.Switch.Wakeup.{IsScheduled, share, set_local-IsScheduled}

-- The processor runs a thread that is its own.
abbrev pub IsRunning : Manager → ℕ → Type 0
IsRunning m cpu = (m.threads (local_at m cpu).this_thread).running_on ≡ cpu

-- The invariant with an exception: this processor's thread may have been put to sleep while it
-- still stands in its queue, or run.
pub record IsLeaving (m : Manager) (cpu : ℕ) : Type 0 where
  pub few : length m.locals < invalid_processor_number
  pub shaped : (i : ℕ) → i < length m.locals → length (local_at m i).run_queue ≡ queues
  pub valid : (t : ℕ) → index_of m.threads t < queues
  pub placed :
      (t : ℕ)
      → ((m.threads t).running_on ≡ invalid_processor_number)
        ⊎ ((m.threads t).running_on < length m.locals)
  pub others :
      (i q u : ℕ)
      → i < length m.locals
      → u ≢ (local_at m cpu).this_thread
      → occ m i q u ≡ share (m.threads u) i q
  pub away : (i q : ℕ) → i < length m.locals → i ≢ cpu → occ m i q (local_at m cpu).this_thread ≡ 0
  pub own_queue :
      (q : ℕ)
      → q ≢ index_of m.threads (local_at m cpu).this_thread
      → occ m cpu q (local_at m cpu).this_thread ≡ 0
  pub state :
      ((m.threads (local_at m cpu).this_thread).running_on ≡ invalid_processor_number)
      ⊎ ((m.threads (local_at m cpu).this_thread).running_on ≡ cpu)

length-rotate :
    (l : ProcessorLocal) (h : ℕ → Thread) → length (rotate l h).run_queue ≡ length l.run_queue
length-rotate l h = ground (
  arith,
  ap (λ (k : ProcessorLocal). length k.run_queue) (rotate_lem l h),
  length-erase l h l.this_thread,
  length-push (erase_from_run_queue l h l.this_thread) h l.this_thread,
)

-- Only suspend_from changes.
share-resumed :
    (h : ℕ → Thread) (t u i q : ℕ)
    → share (update h t (record (h t) { suspend_from = 0 }) u) i q ≡ share (h u) i q
share-resumed h t u i q = elim (ℕ_discrete u t) [
  | yes e ↦ rw (e, ==_refl t)
  | no e ↦ rw (==_ne u t e)
]

-- What the rotated queues hold, and the state in which thread `t` then runs.
module _ (m : Manager) (cpu : ℕ) (v : IsLeaving m cpu) (here : cpu < length m.locals) where
  pub turned : ProcessorLocal
  turned = rotate (local_at m cpu) m.threads

  rotated : (q u : ℕ) → occ_in turned q u ≡ share (m.threads u) cpu q
  unfolding turned
  rotated q u =
      let c = (local_at m cpu).this_thread in
      let room : index_of m.threads c < length (local_at m cpu).run_queue =
        omega (arith, v.valid c, v.shaped cpu here) in
      let turn = occ_in-rotate (local_at m cpu) m.threads q u room in
      elim (ℕ_discrete u c) [
        | no e ↦ ground (arith, turn, v.others cpu q u here e)
        | yes e ↦ rw e (ground (arith, rw e at turn, v.own_queue q, v.few))
      ]

  elsewhere : (i q u : ℕ) → i < length m.locals → i ≢ cpu → occ m i q u ≡ share (m.threads u) i q
  elsewhere i q u lt apart =
      let c = (local_at m cpu).this_thread in
      elim (ℕ_discrete u c) [
        | no e ↦ v.others i q u lt e
        | yes e ↦ rw e (ground (arith, v.away i q lt apart, v.few))
      ]

  pub resumed : ℕ → Manager
  resumed t =
      set_local
        (record m { threads = update m.threads t (record (m.threads t) { suspend_from = 0 }) }) cpu
        (record turned { this_thread = t })

  resumed-IsScheduled : (t : ℕ) → IsScheduled (resumed t)
  unfolding resumed turned
  resumed-IsScheduled t =
      set_local-IsScheduled m _ cpu _ v.few v.shaped here
        (length-rotate (local_at m cpu) m.threads ∙ v.shaped cpu here)
        (λ u. ground (arith, v.valid u)) (λ u. ground (arith, v.placed u))
        (λ q u. rotated q u ∙ sym (share-resumed m.threads t u cpu q))
        (λ i q u lt apart. elsewhere i q u lt apart ∙ sym (share-resumed m.threads t u i q))

  resumed-IsRunning : (q t : ℕ) → 0 < occ_in turned q t → IsRunning (resumed t) cpu
  unfolding resumed turned
  resumed-IsRunning q t pos =
      let h = update m.threads t (record (m.threads t) { suspend_from = 0 }) in
      rw
        (local_at-set_local (record m { threads = h }) cpu cpu (record turned { this_thread = t })
          here)
        (rw (==_refl cpu) (rw (==_refl t) (ground (arith, rotated q t))))

  -- What a switch on this processor gives, for a pick from its rotated queues.
  split_pick :
      (r : Option ℕ) (m' : Manager)
      → Picked m.threads m.tick turned.run_queue r
      → (elim r [ none ↦ none | some t ↦ some (resumed t) ]) ≡ some m'
      → IsScheduled m' × IsRunning m' cpu
  split_pick none m' f e = absurd (cc)
  split_pick (some t) m' (q, pos, run, before) e =
      let same : resumed t ≡ m' = cc in
      rw (← same) (resumed-IsScheduled t, resumed-IsRunning q t pos)

  pub switch_cases :
      switch_thread m cpu
      ≡ (elim (pick m.threads m.tick turned.run_queue) [ none ↦ none | some t ↦ some (resumed t) ])
  unfolding switch_thread update_this_thread resumed turned
  switch_cases = ground arith

-- A context switch leaves each queue right and the processor with a thread of its own, also where
-- the thread that it switches from has just been put to sleep.
pub switch_thread-IsScheduled :
    (m : Manager) (cpu : ℕ) (m' : Manager)
    → IsLeaving m cpu
    → cpu < length m.locals
    → switch_thread m cpu ≡ some m'
    → IsScheduled m' × IsRunning m' cpu
switch_thread-IsScheduled m cpu m' v here e =
    split_pick m cpu v here _ m' (pick-Picked m.threads m.tick (turned m cpu v here).run_queue)
      (sym (switch_cases m cpu v here) ∙ e)

running_on-resumed :
    (m : Manager) (cpu u : ℕ) (v : IsLeaving m cpu) (here : cpu < length m.locals)
    → (r : Option ℕ) (m' : Manager)
    → (elim r [ none ↦ none | some t ↦ some (resumed m cpu v here t) ]) ≡ some m'
    → (m'.threads u).running_on ≡ (m.threads u).running_on
unfolding resumed
running_on-resumed m cpu u v here none m' e = absurd (cc)
running_on-resumed m cpu u v here (some t) m' e =
    let same : resumed m cpu v here t ≡ m' = cc in
    rw (← same) (elim (ℕ_discrete u t) [ yes p ↦ rw (p, ==_refl t) | no p ↦ rw (==_ne u t p) ])

-- A switch changes no thread's processor.
pub running_on-switch_thread :
    (m : Manager) (cpu u : ℕ) (m' : Manager)
    → IsLeaving m cpu
    → cpu < length m.locals
    → switch_thread m cpu ≡ some m'
    → (m'.threads u).running_on ≡ (m.threads u).running_on
running_on-switch_thread m cpu u m' v here e =
    running_on-resumed m cpu u v here _ m' (sym (switch_cases m cpu v here) ∙ e)

-- What a context switch on processor `cpu` is to give, in terms of the threads alone. It runs a
-- thread of the processor that is not suspended, such that every more urgent thread of the processor
-- is; it stops the kernel only if all threads of the processor are suspended.
abbrev pub IsUrgent : Manager → ℕ → Option Manager → Type 0
IsUrgent m cpu none =
    (u : ℕ) → (m.threads u).running_on ≡ cpu → should_skip (m.threads u) m.tick ≡ true
IsUrgent m cpu (some m') =
    let t = (local_at m' cpu).this_thread in
    ((m.threads t).running_on ≡ cpu)
    × (should_skip (m.threads t) m.tick ≡ false)
    × ((u : ℕ)
        → (m.threads u).running_on ≡ cpu
        → index_of m.threads u < index_of m.threads t
        → should_skip (m.threads u) m.tick ≡ true)

module _ (m : Manager) (cpu : ℕ) (v : IsLeaving m cpu) (here : cpu < length m.locals) where
  stands :
      (u : ℕ)
      → (m.threads u).running_on ≡ cpu
      → 0 < occ_in (turned m cpu v here) (index_of m.threads u) u
  stands u e = ground (arith, rotated m cpu v here (index_of m.threads u) u)

  split-IsUrgent :
      (r : Option ℕ)
      → Picked m.threads m.tick (turned m cpu v here).run_queue r
      → IsUrgent m cpu (elim r [ none ↦ none | some t ↦ some (resumed m cpu v here t) ])
  unfolding resumed
  split-IsUrgent none all = λ u e. all (index_of m.threads u) u (stands u e)
  split-IsUrgent (some t) (q, pos, run, before) =
      let h = update m.threads t (record (m.threads t) { suspend_from = 0 }) in
      let own : ((m.threads t).running_on ≡ cpu) × (index_of m.threads t ≡ q) =
        ground (arith, rotated m cpu v here q t) in
      rw
        (local_at-set_local (record m { threads = h }) cpu cpu
          (record (turned m cpu v here) { this_thread = t }) here)
        (rw (==_refl cpu) (
          own.0,
          run,
          λ u e lt. before (index_of m.threads u) (omega (arith, own.1)) u (stands u e),
        ))

-- A context switch on a processor runs a thread of that processor that is not suspended, such that
-- every more urgent thread of the processor is suspended. It stops the kernel only where all threads
-- of the processor are suspended.
pub switch_thread-IsUrgent :
    (m : Manager) (cpu : ℕ)
    → IsLeaving m cpu
    → cpu < length m.locals
    → IsUrgent m cpu (switch_thread m cpu)
switch_thread-IsUrgent m cpu v here =
    rw (switch_cases m cpu v here)
      (split-IsUrgent m cpu v here _ (pick-Picked m.threads m.tick (turned m cpu v here).run_queue))
