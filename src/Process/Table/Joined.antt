-- ===== src/Process/Table/Joined.antt =====
-- src/process/manager.hpp: what a wait for a thread does when the thread has ended.
use klee.Base.{
  ℕ, zero, suc, ◌≡◌, ◌≢◌, refl, sym, ap, ◌∙◌, ◌⊎◌, inl, inr, true, false, List, [], ◌∷◌, Option,
  none, some, arith, get_or, set, get_or-set_ne, Bool-cases, Option-cases, Code, success, is_error,
  Result, ok, err,
}
use klee.Process.{Manager}
use klee.Process.Table.{
  slot_of, thread_slot, find_thread, wait_thread, wait_found, reset_thread, reset_in,
  sleep_then_again, returns, still_waits, Wait, Wake, freed_from,
}
use klee.Process.Table.Names.{IsNamed, find_thread_lem, slot_new, slot_old}

get_or-set-none : (d : List (Option ℕ)) (i : ℕ) → get_or (set d i none) i none ≡ none
get_or-set-none [] i = refl
get_or-set-none (x ∷ d) (suc i) = get_or-set-none d i
get_or-set-none (x ∷ d) zero = refl

find_thread-fails : (m : Manager) (pid tid : ℕ) → find_thread m pid tid ≢ err success
unfolding find_thread
find_thread-fails m pid tid h = elim (Option-cases (get_or m.processes pid none)) [
  | inl absent ↦ ground (arith, absent)
  | inr (p, there) ↦ elim (Option-cases (get_or p.threads tid none)) [
    | inl absent ↦ ground (arith, there, absent)
    | inr (t, found) ↦ ground (arith, there, found)
  ]
]

-- The states that a wait for a thread looks at, until the one in which it finds the thread dead.
pub data Joins (pid tid : ℕ) : Manager → List Wake → Manager → ℕ → Type 0 where
  at_once :
      {wakes : List Wake} (m : Manager) (t : ℕ)
      → find_thread m pid tid ≡ ok t
      → (m.threads t).zombie ≡ true
      → Joins pid tid m wakes m t
  later :
      {m last : Manager} {u : ℕ} {wakes : List Wake} (cpu' : ℕ) (m' : Manager) (t : ℕ)
      → find_thread m pid tid ≡ ok t
      → (m.threads t).zombie ≡ false
      → Joins pid tid m' wakes last u
      → Joins pid tid m ((cpu', m') ∷ wakes) last u

-- What a wait does to the state in which it finds thread `t` dead.
pub record IsJoined (pid tid t : ℕ) (m m' : Manager) : Type 0 where
  pub name_free : thread_slot m' pid tid ≡ none
  pub others_kept : (i j : ℕ) → (pid ≢ i) ⊎ (tid ≢ j) → thread_slot m' i j ≡ thread_slot m i j
  pub destroyed : m'.freed ≡ t ∷ m.freed
  pub threads_kept : m'.threads ≡ m.threads

abbrev pub AllNamed : List Wake → Type 0
AllNamed [] = Unit {0}
AllNamed ((cpu, m) ∷ wakes) = IsNamed m × AllNamed wakes

sleep_then_again-success :
    (again : Manager → Wait) (o : Option (Code × Manager)) (m : Manager)
    → sleep_then_again again o ≡ returns success m
    → (asleep : Manager) × (again asleep ≡ returns success m)
sleep_then_again-success again none m h = cc
sleep_then_again-success again (some (c, m')) m h = elim (Bool-cases (is_error c)) [
  | inl e ↦ let same : c ≡ success = ground (arith, e, h) in absurd (ground (arith, same, e))
  | inr e ↦ (m', rw e at h)
]

-- A round that ends with success, and one that goes on.
wait_found_success :
    (m : Manager) (cpu : ℕ) (again : Manager → Wait) (r : Result ℕ) (m' : Manager)
    → r ≢ err success
    → wait_found m cpu again r ≡ returns success m'
    → (t : ℕ) × (r ≡ ok t)
      × ((((m.threads t).zombie ≡ true)
            × (reset_thread m (m.threads t).process (m.threads t).id ≡ m'))
          ⊎ (((m.threads t).zombie ≡ false)
              × ((asleep : Manager) × (again asleep ≡ returns success m'))))
wait_found_success m cpu again (err e) m' fails h =
    let same : e ≡ success = ground arith in absurd (fails (ap err same))
wait_found_success m cpu again (ok t) m' fails h = elim (Bool-cases (m.threads t).zombie) [
  | inl dead ↦ (t, refl, inl (dead, ground arith))
  | inr alive ↦ (t, refl, inr (alive, sleep_then_again-success again _ m' (rw alive at h)))
]

reset_thread-IsJoined :
    (m : Manager) (pid tid t : ℕ) (m' : Manager)
    → IsNamed m
    → find_thread m pid tid ≡ ok t
    → reset_thread m (m.threads t).process (m.threads t).id ≡ m'
    → IsJoined pid tid t m m'
reset_thread-IsJoined m pid tid t m' v found same =
    let slot = find_thread_lem m pid tid t found in
    let (process, id, below) = v.own_name pid tid t slot in
    elim (Option-cases (get_or m.processes pid none)) [
      | inl absent ↦ absurd (ground (arith, slot, absent))
      | inr (p, there) ↦
          let q = record p { threads = set p.threads tid none } in
          let own : get_or p.threads tid none ≡ some t =
            sym (ap (λ o. slot_of o tid) there) ∙ slot in
          let m2 = record m {
            processes = set m.processes pid (some q);
            freed = freed_from (get_or p.threads tid none) m.freed;
          } in
          let is : m2 ≡ m' = sym (ap (reset_in m pid tid) there) ∙ (rw (process, id) at same) in
          let free : get_or q.threads tid none ≡ none = get_or-set-none p.threads tid in
          let kept = λ (i : ℕ) (apart : tid ≢ i). get_or-set_ne p.threads tid i none none apart in
          rw (← is) (record {
            name_free = slot_new m m2 pid tid p q none there refl free kept;
            others_kept = slot_old m m2 pid tid p q none there refl free kept;
            destroyed = ap (λ o. freed_from o m.freed) own;
            threads_kept = refl;
          })
    ]

-- Where wait_thread returns with success, it has looked at the thread of that name whenever it woke up
-- and found it alive, up to a state in which the thread is a zombie. The manager that it returns is
-- that state, in which the thread is destroyed and its name is free, every other name keeps its
-- thread, and no other thread changes. In all states that it looks at, threads have the names under
-- which they are found; what others do while it sleeps is free otherwise.
pub wait_thread-zombie :
    (wakes : List Wake) (m : Manager) (cpu pid tid : ℕ) (m' : Manager)
    → IsNamed m
    → AllNamed wakes
    → wait_thread wakes m cpu pid tid ≡ returns success m'
    → (last : Manager) × (t : ℕ) × Joins pid tid m wakes last t × IsJoined pid tid t last m'
unfolding wait_thread
wait_thread-zombie [] m cpu pid tid m' v vs h =
    let (t, found, end) =
      wait_found_success m cpu still_waits (find_thread m pid tid) m' (find_thread-fails m pid tid)
        h in
    elim end [
      | inl (dead, same) ↦
          (m, t, at_once m t found dead, reset_thread-IsJoined m pid tid t m' v found same)
      | inr (alive, (asleep, e)) ↦ absurd (cc)
    ]
wait_thread-zombie ((cpu', m1) ∷ wakes) m cpu pid tid m' v (v1, vs) h =
    let (t, found, end) =
      wait_found_success m cpu (λ asleep. wait_thread wakes m1 cpu' pid tid) (find_thread m pid tid)
        m' (find_thread-fails m pid tid) h in
    elim end [
      | inl (dead, same) ↦
          (m, t, at_once m t found dead, reset_thread-IsJoined m pid tid t m' v found same)
      | inr (alive, (asleep, e)) ↦
          let (last, u, joins, joined) = wait_thread-zombie wakes m1 cpu' pid tid m' v1 vs e in
          (last, u, later cpu' m1 t found alive joins, joined)
    ]
