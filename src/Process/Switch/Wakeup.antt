-- ===== src/Process/Switch/Wakeup.antt =====
-- src/process/manager.hpp: which threads the run queues are to hold, and Manager::wakeup_thread.
use klee.Base.{
  ℕ, ◌<◌, ◌≡◌, ◌≢◌, refl, sym, ap, ◌∙◌, ◌⊎◌, inl, inr, true, false, not, ◌&&◌, arith, set, length,
  length-set, ◌==◌, if◌then◌else◌, ==_refl, ==_ne, ==_iff, ℕ_discrete, Bool-cases, set-get_or,
}
use klee.Process.{Thread, ProcessorLocal, Manager, invalid_processor_number}
use klee.Process.Niceness.{
  queues, nice_to_index, Nice, is_valid_nice, invalid_nice, nice_eq, nice_to_index-lt,
  is_valid_nice-given,
}
use klee.Process.Local.{
  update, index_of, push_to_run_queue, erase_from_run_queue, move_between_run_queue,
}
use klee.Process.Switch.{
  local_at, set_local, set_thread, push_to, blank_local, wakeup_thread, woken, renice,
}
use klee.Process.Switch.Queues.{
  occ, occ_in, length-push, length-erase, shaped-set_local, occ_in-push, occ_in-erase,
  local_at-set_local,
}

-- How often thread `t` is to stand in queue `q` of processor `i`: once where it runs.
abbrev pub share : Thread → ℕ → ℕ → ℕ
share th i q = if (th.running_on == i) && (nice_to_index th.nice == q) then 1 else 0

pub record IsScheduled (m : Manager) : Type 0 where
  pub few : length m.locals < invalid_processor_number
  pub shaped : (i : ℕ) → i < length m.locals → length (local_at m i).run_queue ≡ queues
  pub valid : (t : ℕ) → index_of m.threads t < queues
  pub placed :
      (t : ℕ)
      → ((m.threads t).running_on ≡ invalid_processor_number)
        ⊎ ((m.threads t).running_on < length m.locals)
  pub queued : (i q t : ℕ) → i < length m.locals → occ m i q t ≡ share (m.threads t) i q

-- The invariant after a write to the threads' memory and to one processor's queues.
pub set_local-IsScheduled :
    (m : Manager) (h : ℕ → Thread) (cpu : ℕ) (l : ProcessorLocal)
    → length m.locals < invalid_processor_number
    → ((i : ℕ) → i < length m.locals → length (local_at m i).run_queue ≡ queues)
    → cpu < length m.locals
    → length l.run_queue ≡ queues
    → ((t : ℕ) → nice_to_index (h t).nice < queues)
    → ((t : ℕ)
        → ((h t).running_on ≡ invalid_processor_number) ⊎ ((h t).running_on < length m.locals))
    → ((q u : ℕ) → occ_in l q u ≡ share (h u) cpu q)
    → ((i q u : ℕ) → i < length m.locals → i ≢ cpu → occ m i q u ≡ share (h u) i q)
    → IsScheduled (set_local (record m { threads = h }) cpu l)
set_local-IsScheduled m h cpu l few shaped here five valid placed own other = record {
  few = omega (arith, few, same);
  shaped = λ i lt.
      shaped-set_local (record m { threads = h }) cpu l queues here five i
        (shaped i (omega (arith, same)));
  valid = valid;
  placed = λ t. ground (arith, placed t, same);
  queued = λ i q u lt.
      ap (λ k. occ_in k q u) (local_at-set_local (record m { threads = h }) cpu i l here)
      ∙ (elim (ℕ_discrete cpu i) [
        | yes e ↦ rw (e, ==_refl i) (rw e at (own q u))
        | no e ↦ rw (==_ne cpu i e) (other i q u (omega (arith, same)) (λ p. e (sym p)))
      ]);
}
  where
    same : length (set m.locals cpu l) ≡ length m.locals
    same = length-set m.locals cpu l

-- A sleeping thread `t`, written as `th` and put into a queue of processor `cpu`.
add-IsScheduled :
    (m : Manager) (cpu t : ℕ) (th : Thread)
    → IsScheduled m
    → cpu < length m.locals
    → (m.threads t).running_on ≡ invalid_processor_number
    → th.running_on ≡ cpu
    → nice_to_index th.nice < queues
    → IsScheduled (push_to (set_thread m t th) cpu t)
unfolding push_to
add-IsScheduled m cpu t th v here asleep on fine =
    let h = update m.threads t th in
    let room : index_of h t < length (local_at m cpu).run_queue =
      rw (==_refl t) (omega (arith, v.shaped cpu here)) in
    set_local-IsScheduled m h cpu _ v.few v.shaped here
      (length-push (local_at m cpu) h t ∙ v.shaped cpu here) (λ u. ground (arith, v.valid u))
      (λ u. ground (arith, v.placed u))
      (λ q u.
        let push = rw (==_refl t) at (occ_in-push (local_at m cpu) h t q u room) in
        ground (arith, push, v.queued cpu q u here, v.few))
      (λ i q u lt apart. ground (arith, v.queued i q u lt, v.few))

-- A thread `t` that runs on `cpu`, moved to the queue of another niceness.
renice-IsScheduled :
    (m : Manager) (cpu t : ℕ) (nice : Nice)
    → IsScheduled m
    → cpu < length m.locals
    → (m.threads t).running_on ≡ cpu
    → IsScheduled (renice m cpu t nice).1
unfolding renice move_between_run_queue
renice-IsScheduled m cpu t nice v here on = elim (Bool-cases (is_valid_nice nice)) [
  | inr wrong ↦ rw (wrong, set-get_or m.locals cpu blank_local) v
  | inl right ↦ elim (Bool-cases (nice_eq (m.threads t).nice nice)) [
    | inl same ↦ rw (right, same, set-get_or m.locals cpu blank_local) v
    | inr differs ↦
        rw (right, differs)
          (let l = erase_from_run_queue (local_at m cpu) m.threads t in
            let h = update m.threads t (record (m.threads t) { nice = nice }) in
            let fine = nice_to_index-lt nice right in
            let five : length l.run_queue ≡ queues =
              length-erase (local_at m cpu) m.threads t ∙ v.shaped cpu here in
            let room : index_of h t < length l.run_queue = rw (==_refl t) (omega (arith, five)) in
            set_local-IsScheduled m h cpu _ v.few v.shaped here (length-push l h t ∙ five)
              (λ u. ground (arith, v.valid u)) (λ u. ground (arith, v.placed u))
              (λ q u.
                let push = rw (==_refl t) at (occ_in-push l h t q u room) in
                let erase =
                  occ_in-erase (local_at m cpu) m.threads t q u
                    (omega (arith, v.valid t, v.shaped cpu here)) in
                ground (arith, push, erase, v.queued cpu q u here))
              (λ i q u lt apart. ground (arith, v.queued i q u lt)))
  ]
]

-- wakeup_thread keeps the run queues right: a thread stands once in the queue of its processor and
-- niceness while it runs, and nowhere while it sleeps. If it runs already, this is so when no
-- niceness is given or the thread runs on the processor that makes the call.
pub wakeup_thread-IsScheduled :
    (m : Manager) (cpu t : ℕ) (nice : Nice)
    → IsScheduled m
    → cpu < length m.locals
    → ((m.threads t).running_on ≡ invalid_processor_number)
      ⊎ (nice_eq nice invalid_nice ≡ true)
      ⊎ ((m.threads t).running_on ≡ cpu)
    → IsScheduled (wakeup_thread m cpu t nice).1
unfolding wakeup_thread
wakeup_thread-IsScheduled m cpu t nice v here how =
    elim (Bool-cases ((m.threads t).running_on == invalid_processor_number)) [
      | inr runs ↦ elim (Bool-cases (nice_eq nice invalid_nice)) [
        | inl keep ↦ rw (runs, keep) v
        | inr change ↦ rw (runs, change) (renice-IsScheduled m cpu t nice v here (ground arith))
      ]
      | inl sleeps ↦
          elim (Bool-cases (not (nice_eq nice invalid_nice) && not (is_valid_nice nice))) [
            | inl wrong ↦ rw (sleeps, wrong) v
            | inr right ↦
                rw (sleeps, right)
                  (add-IsScheduled m cpu t (woken (m.threads t) cpu nice) v here
                    ((==_iff _ _).0 sleeps) refl (ground (arith, v.valid t, nice_to_index-lt nice)))
          ]
    ]

-- A thread that runs on another processor `j`, woken with a valid niceness that it does not have,
-- then stands in a queue of the calling processor and still in its queue of processor `j`, so two
-- processors can run it at once.
pub wakeup_thread_twice :
    (m : Manager) (cpu t j : ℕ) (nice : Nice)
    → IsScheduled m
    → cpu < length m.locals
    → j < length m.locals
    → j ≢ cpu
    → (m.threads t).running_on ≡ j
    → is_valid_nice nice ≡ true
    → nice_eq (m.threads t).nice nice ≡ false
    → let m' = (wakeup_thread m cpu t nice).1 in
      (occ m' j (index_of m.threads t) t ≡ 1) × (occ m' cpu (nice_to_index nice) t ≡ 1)
unfolding wakeup_thread renice move_between_run_queue
wakeup_thread_twice m cpu t j nice v here there apart on right differs =
    let l = erase_from_run_queue (local_at m cpu) m.threads t in
    let h = update m.threads t (record (m.threads t) { nice = nice }) in
    let m' = record m { threads = h } in
    let runs : ((m.threads t).running_on == invalid_processor_number) ≡ false =
      ==_ne _ _ (omega (arith, v.few)) in
    let fine = nice_to_index-lt nice right in
    let five : length l.run_queue ≡ queues =
      length-erase (local_at m cpu) m.threads t ∙ v.shaped cpu here in
    let room : index_of h t < length l.run_queue = rw (==_refl t) (omega (arith, five)) in
    let push = rw (==_refl t) at (occ_in-push l h t (nice_to_index nice) t room) in
    let erase =
      occ_in-erase (local_at m cpu) m.threads t (nice_to_index nice) t
        (omega (arith, v.valid t, v.shaped cpu here)) in
    let left = v.queued j (index_of m.threads t) t there in
    let absent = v.queued cpu (nice_to_index nice) t here in
    rw (runs, is_valid_nice-given nice right, right, differs)
      (
        ap (λ k. occ_in k (index_of m.threads t) t)
              (local_at-set_local m' cpu j (push_to_run_queue l h t) here)
            ∙ rw (==_ne cpu j (λ e. apart (sym e))) (ground (arith, left)),
        ap (λ k. occ_in k (nice_to_index nice) t)
              (local_at-set_local m' cpu cpu (push_to_run_queue l h t) here)
            ∙ rw (==_refl cpu) (ground (arith, push, erase, absent)),
      )
