-- ===== src/Process/Switch/Stop.antt =====
-- src/process/manager.hpp: sleep_thread.
use klee.Base.{
  ℕ, ◌<◌, ◌≡◌, ◌≢◌, sym, ◌∙◌, inl, inr, some, arith, length, ◌==◌, ==_refl, ==_ne, ==_iff,
  ℕ_discrete, Bool-cases, subst,
}
use klee.Process.{Manager, invalid_processor_number}
use klee.Process.Local.{index_of, erase_from_run_queue}
use klee.Process.Switch.{local_at, set_thread, erase_from, switch_thread, sleep_thread}
use klee.Process.Switch.Queues.{occ_in-erase, length-erase, local_at-set_local}
use klee.Process.Switch.Wakeup.{IsScheduled, set_local-IsScheduled}
use klee.Process.Switch.Turn.{
  IsRunning, IsLeaving, switch_thread-IsScheduled, running_on-switch_thread,
}

abbrev asleep_state : Manager → ℕ → Manager
asleep_state m t = set_thread m t (record (m.threads t) { running_on = invalid_processor_number })

-- This processor's own thread, put to sleep, is ready to leave.
asleep-IsLeaving :
    (m : Manager) (cpu : ℕ)
    → IsScheduled m
    → cpu < length m.locals
    → IsRunning m cpu
    → let t = (local_at m cpu).this_thread in IsLeaving (asleep_state m t) cpu
asleep-IsLeaving m cpu v here on =
    let t = (local_at m cpu).this_thread in
    record {
      few = v.few;
      shaped = v.shaped;
      valid = λ u. ground (arith, v.valid u);
      placed = λ u. ground (arith, v.placed u);
      others = λ i q u lt e. rw (==_ne u t e) (v.queued i q u lt);
      away = λ i q lt e. ground (arith, v.queued i q t lt);
      own_queue = λ q e. ground (arith, v.queued cpu q t here);
      state = inl (rw (==_refl t));
    }

-- Another thread, taken out of the queue that it stands in.
module _ (m : Manager) (cpu t : ℕ) (v : IsScheduled m) (here : cpu < length m.locals)
    (on : IsRunning m cpu) (there : (m.threads t).running_on < length m.locals)
    (other : t ≢ (local_at m cpu).this_thread) where
  removed-IsScheduled : IsScheduled (erase_from (asleep_state m t) (m.threads t).running_on t)
  unfolding erase_from
  removed-IsScheduled =
      let j = (m.threads t).running_on in
      let l = local_at m j in
      let room : index_of m.threads t < length l.run_queue =
        omega (arith, v.valid t, v.shaped j there) in
      let room' : index_of (asleep_state m t).threads t < length l.run_queue =
        rw (==_refl t) room in
      set_local-IsScheduled m (asleep_state m t).threads j _ v.few v.shaped there
        (length-erase l (asleep_state m t).threads t ∙ v.shaped j there)
        (λ u. ground (arith, v.valid u)) (λ u. ground (arith, v.placed u))
        (λ q u.
          let erase = rw (==_refl t) at (occ_in-erase l (asleep_state m t).threads t q u room') in
          ground (arith, erase, v.queued j q u there, v.few))
        (λ i q u lt apart. ground (arith, v.queued i q u lt, v.few))

  removed-IsRunning : IsRunning (erase_from (asleep_state m t) (m.threads t).running_on t) cpu
  unfolding erase_from erase_from_run_queue
  removed-IsRunning =
      let j = (m.threads t).running_on in
      rw
        (local_at-set_local (asleep_state m t) j cpu
          (erase_from_run_queue (local_at m j) (asleep_state m t).threads t) there)
        (elim (ℕ_discrete j cpu) [
          | yes e ↦ rw (e, ==_refl cpu) (rw (==_ne _ t (λ p. other (sym p))) on)
          | no e ↦ rw (==_ne j cpu e) (rw (==_ne _ t (λ p. other (sym p))) on)
        ])

removed-asleep :
    (m : Manager) (t : ℕ)
    → ((erase_from (asleep_state m t) (m.threads t).running_on t).threads t).running_on
      ≡ invalid_processor_number
unfolding erase_from
removed-asleep m t = rw (==_refl t)

sleep_own :
    (m : Manager) (cpu t : ℕ) (m' : Manager)
    → IsScheduled m
    → cpu < length m.locals
    → IsRunning m cpu
    → (local_at m cpu).this_thread ≡ t
    → switch_thread (asleep_state m t) cpu ≡ some m'
    → IsScheduled m' × IsRunning m' cpu × ((m'.threads t).running_on ≡ invalid_processor_number)
sleep_own m cpu t m' v here on own =
    subst
      (λ x.
        switch_thread (asleep_state m x) cpu ≡ some m'
        → IsScheduled m'
          × IsRunning m' cpu
          × ((m'.threads x).running_on ≡ invalid_processor_number))
      own
      λ e.
        let c = (local_at m cpu).this_thread in
        let leaving = asleep-IsLeaving m cpu v here on in
        let done = switch_thread-IsScheduled (asleep_state m c) cpu m' leaving here e in
        (
          done.0,
          done.1,
          running_on-switch_thread (asleep_state m c) cpu c m' leaving here e ∙ rw (==_refl c),
        )

-- sleep_thread, called on a processor that runs a thread of its own, keeps the run queues right and
-- leaves the processor with a thread of its own, and the thread that it is given sleeps after it.
pub sleep_thread-IsScheduled :
    (m : Manager) (cpu t : ℕ) (m' : Manager)
    → IsScheduled m
    → cpu < length m.locals
    → IsRunning m cpu
    → sleep_thread m cpu t ≡ some m'
    → IsScheduled m' × IsRunning m' cpu × ((m'.threads t).running_on ≡ invalid_processor_number)
unfolding sleep_thread
sleep_thread-IsScheduled m cpu t m' v here on e =
    elim (Bool-cases ((m.threads t).running_on == invalid_processor_number)) [
      | inl asleep ↦ let same : m ≡ m' = ground arith in rw (← same) (v, on, (==_iff _ _).0 asleep)
      | inr runs ↦ elim (ℕ_discrete t (local_at m cpu).this_thread) [
        | yes own ↦ sleep_own m cpu t m' v here on (sym own) (ground (arith, e))
        | no other ↦
            let there : (m.threads t).running_on < length m.locals = ground (arith, v.placed t) in
            let same : erase_from (asleep_state m t) (m.threads t).running_on t ≡ m' =
              ground (arith, e) in
            rw (← same) (
              removed-IsScheduled m cpu t v here on there other,
              removed-IsRunning m cpu t v here on there other,
              removed-asleep m t,
            )
      ]
    ]
