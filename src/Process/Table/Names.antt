-- ===== src/Process/Table/Names.antt =====
-- src/process/manager.hpp: a thread is found by the number of its process and its own number.
use klee.Base.{
  ℕ, ◌+◌, ◌^◌, ◌<◌, ◌≡◌, ◌≢◌, refl, sym, ap, ◌∙◌, ◌⊎◌, inl, inr, Option, none, some, arith, get_or,
  set, length, get_or-set_self, get_or-set_ne, dec_lt, get_or_past, ◌==◌, ==_refl, ==_ne,
  ℕ_discrete, Bool-cases, Option-cases, success, ok,
}
use klee.Util.DenseMap.{find_empty_slot}
use klee.Util.DenseMap.Slots.{find_empty_slot-IsSlot}
use klee.Process.{Thread, Process, Manager, invalid_processor_number}
use klee.Process.Niceness.{Nice, invalid_nice}
use klee.Process.Local.{update}
use klee.Process.Switch.{wakeup_thread, push_to}
use klee.Process.Table.{
  slot_of, thread_slot, find_thread, find_alive_thread, create_thread, created, create_in,
  wakeup_thread_of, wakeup_found, new_thread,
}

-- The table names a thread by what the thread itself says, and memory after next_thread is unused.
pub record IsNamed (m : Manager) : Type 0 where
  pub own_name :
      (pid tid t : ℕ)
      → thread_slot m pid tid ≡ some t
      → ((m.threads t).process ≡ pid) × ((m.threads t).id ≡ tid) × (t < m.next_thread)

pub find_thread_lem :
    (m : Manager) (pid tid t : ℕ) → find_thread m pid tid ≡ ok t → thread_slot m pid tid ≡ some t
unfolding find_thread
find_thread_lem m pid tid t h = elim (Option-cases (get_or m.processes pid none)) [
  | inl absent ↦ absurd (ground (arith, absent))
  | inr (p, there) ↦ elim (Option-cases (get_or p.threads tid none)) [
    | inl absent ↦ absurd (ground (arith, there, absent))
    | inr (u, found) ↦ ground (arith, there, found)
  ]
]

find_thread_of :
    (m : Manager) (pid tid t : ℕ) → thread_slot m pid tid ≡ some t → find_thread m pid tid ≡ ok t
unfolding find_thread
find_thread_of m pid tid t h = elim (Option-cases (get_or m.processes pid none)) [
  | inl absent ↦ absurd (ground (arith, absent))
  | inr (p, there) ↦ ground (arith, there)
]

-- Slots of one process's list, written anew.
module _ (m m' : Manager) (pid tid : ℕ) (p q : Process) (o : Option ℕ)
    (there : get_or m.processes pid none ≡ some p)
    (written : m'.processes ≡ set m.processes pid (some q)) (slot : get_or q.threads tid none ≡ o)
    (kept : (i : ℕ) → tid ≢ i → get_or q.threads i none ≡ get_or p.threads i none) where
  in_table : pid < length m.processes
  in_table = elim (dec_lt pid (length m.processes)) [
    | yes lt ↦ lt
    | no ge ↦ absurd (ground (arith, there, get_or_past m.processes pid none (omega arith)))
  ]

  pub slot_new : thread_slot m' pid tid ≡ o
  slot_new =
      ap (λ d. slot_of (get_or d pid none) tid) written
      ∙ ap (λ c. slot_of c tid) (get_or-set_self m.processes pid (some q) none in_table)
      ∙ slot

  pub slot_old : (i j : ℕ) → (pid ≢ i) ⊎ (tid ≢ j) → thread_slot m' i j ≡ thread_slot m i j
  slot_old i j other = ap (λ d. slot_of (get_or d i none) j) written ∙ (elim (ℕ_discrete pid i) [
    | no e ↦ ap (λ c. slot_of c j) (get_or-set_ne m.processes pid i (some q) none e)
    | yes e ↦
        let apart : tid ≢ j = ground (arith, other) in
        rw (← e) (
          ap (λ c. slot_of c j) (get_or-set_self m.processes pid (some q) none in_table)
          ∙ kept j apart
          ∙ sym (ap (λ c. slot_of c j) there))
  ])

old_name :
    (m : Manager) (v : IsNamed m) (th : Thread) (i j u : ℕ)
    → thread_slot m i j ≡ some u
    → ((update m.threads m.next_thread th u).process ≡ i)
      × ((update m.threads m.next_thread th u).id ≡ j)
      × (u < m.next_thread + 1)
old_name m v th i j u h =
    let (process, id, below) = v.own_name i j u h in
    rw (==_ne u m.next_thread (omega (arith, below))) (process, id, omega (arith, below))

new_name :
    (m : Manager) (t u i j tid pid : ℕ)
    → some t ≡ some u
    → m.threads t ≡ new_thread tid pid
    → pid ≡ i
    → tid ≡ j
    → ((m.threads u).process ≡ i) × ((m.threads u).id ≡ j) × (u < t + 1)
new_name m t u i j tid pid h fresh e e' =
    let same : t ≡ u = ground arith in rw (← same, fresh) (e, e', omega arith)

-- create_thread, for a process that is there: the new thread gets a number that no thread of the
-- process has, is found under it, sleeps with niceness 0 and is no zombie; every other number keeps
-- its thread, and names keep agreeing with what the threads say.
pub create_thread-find_thread :
    (m : Manager) (pid : ℕ) (p : Process)
    → IsNamed m
    → get_or m.processes pid none ≡ some p
    → length p.threads + 1 < 2 ^ 32
    → (tid : ℕ) × let m' = (create_thread m pid).1 in
        ((create_thread m pid).0 ≡ ok tid)
        × (thread_slot m pid tid ≡ none)
        × (find_thread m' pid tid ≡ ok m.next_thread)
        × (m'.threads m.next_thread ≡ new_thread tid pid)
        × ((i j : ℕ) → (pid ≢ i) ⊎ (tid ≢ j) → thread_slot m' i j ≡ thread_slot m i j)
        × IsNamed m'
unfolding create_thread find_thread
create_thread-find_thread m pid p v there few =
    let done : create_thread m pid ≡ create_in m pid (some p) = ap (create_in m pid) there in
    let s = find_empty_slot-IsSlot p.threads few in
    let (tid, d) = find_empty_slot p.threads in
    let t = m.next_thread in
    let q = record p { threads = set d tid (some t) } in
    let m' = created m pid p in
    let new = get_or-set_self d tid (some t) none s.in_range in
    let old = λ (i : ℕ) (apart : tid ≢ i). get_or-set_ne d tid i (some t) none apart ∙ s.kept i in
    let found = slot_new m m' pid tid p q (some t) there refl new old in
    let kept = slot_old m m' pid tid p q (some t) there refl new old in
    let fresh : m'.threads t ≡ new_thread tid pid = rw (==_refl t) refl in
    rw done (
      tid,
      (
        refl,
        ap (λ o. slot_of o tid) there ∙ s.unused,
        find_thread_of m' pid tid t found,
        fresh,
        kept,
        record {
          own_name = λ i j u h. elim (ℕ_discrete pid i) [
            | no e ↦ old_name m v (new_thread tid pid) i j u (sym (kept i j (inl e)) ∙ h)
            | yes e ↦ elim (ℕ_discrete tid j) [
              | no e' ↦ old_name m v (new_thread tid pid) i j u (sym (kept i j (inr e')) ∙ h)
              | yes e' ↦
                  new_name m' t u i j tid pid
                    (sym found ∙ ap (λ x. thread_slot m' x tid) e ∙ ap (thread_slot m' i) e' ∙ h)
                    fresh e e'
            ]
          ];
        },
      ),
    )

woken_nice :
    (m : Manager) (cpu t : ℕ)
    → cpu ≢ invalid_processor_number
    → let (c, m') = wakeup_thread m cpu t invalid_nice in
      (c ≡ success)
      × ((m'.threads t).nice ≡ (m.threads t).nice)
      × ((m'.threads t).running_on ≢ invalid_processor_number)
unfolding wakeup_thread push_to
woken_nice m cpu t apart =
    elim (Bool-cases ((m.threads t).running_on == invalid_processor_number)) [
      | inl sleeps ↦ rw sleeps (rw (==_refl t) (refl, refl, apart))
      | inr runs ↦ rw runs (refl, refl, λ e. absurd (ground (arith, e)))
    ]

-- wakeup_thread(pid, tid, nice) does not look at the niceness that it is given: a thread that is
-- found and no zombie runs afterwards, and keeps its own niceness.
pub wakeup_thread_of-nice :
    (m : Manager) (cpu pid tid t : ℕ) (nice : Nice)
    → cpu ≢ invalid_processor_number
    → find_alive_thread m pid tid ≡ ok t
    → let (c, m') = wakeup_thread_of m cpu pid tid nice in
      (c ≡ success)
      × ((m'.threads t).nice ≡ (m.threads t).nice)
      × ((m'.threads t).running_on ≢ invalid_processor_number)
unfolding wakeup_thread_of
wakeup_thread_of-nice m cpu pid tid t nice apart found =
    let is : wakeup_thread_of m cpu pid tid nice ≡ wakeup_thread m cpu t invalid_nice =
      ap (wakeup_found m cpu) found in
    rw is (woken_nice m cpu t apart)
