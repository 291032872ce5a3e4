-- ===== src/Process/Switch/Queues.antt =====
-- src/process/manager.hpp: what the run queues hold after each write to them, by counting.
use klee.Base.{
  ℕ, ◌+◌, ◌<◌, ◌≡◌, ap, ◌∙◌, inl, inr, ◌&&◌, List, [], ◌∷◌, ◌++◌, arith, length, length-set,
  get_or-set_self, get_or-set_ne, ◌==◌, if◌then◌else◌, ==_refl, ==_ne, ℕ_discrete, Bool-cases,
}
use klee.Process.{Thread, ProcessorLocal, Manager, invalid_processor_number}
use klee.Process.Local.{
  erase_all, index_of, queue_at, push_to_run_queue, erase_from_run_queue, rotate, set_queue,
}
use klee.Process.Switch.{local_at, set_local, push_to, erase_from, blank_local}

-- How often the thread stands in the queue.
unfoldable pub count : ℕ → List ℕ → ℕ
count t [] = 0
count t (x ∷ c) = (if x == t then 1 else 0) + count t c

pub count-push :
    (t u : ℕ) (c : List ℕ) → count t (c ++ u ∷ []) ≡ count t c + (if u == t then 1 else 0)
unfolding count
count-push t u [] = ground arith
count-push t u (x ∷ c) = ground (arith, count-push t u c)

pub count-erase_all :
    (t u : ℕ) (c : List ℕ) → count t (erase_all c u) ≡ (if u == t then 0 else count t c)
unfolding count erase_all
count-erase_all t u [] = ground arith
count-erase_all t u (x ∷ c) = ground (arith, count-erase_all t u c)

-- Queue `q` of a processor, and of processor `i`.
abbrev pub occ_in : ProcessorLocal → ℕ → ℕ → ℕ
occ_in l q t = count t (queue_at l q)

abbrev pub occ : Manager → ℕ → ℕ → ℕ → ℕ
occ m i q t = occ_in (local_at m i) q t

queue_at-set_queue :
    (l : ProcessorLocal) (p q : ℕ) (c : List ℕ)
    → p < length l.run_queue
    → queue_at (set_queue l p c) q ≡ (if p == q then c else queue_at l q)
queue_at-set_queue l p q c h = elim (ℕ_discrete p q) [
  | yes e ↦ rw (e, ==_refl q) (get_or-set_self l.run_queue q c [] (rw (← e) h))
  | no e ↦ rw (==_ne p q e) (get_or-set_ne l.run_queue p q c [] e)
]

pushed :
    (l : ProcessorLocal) (p q t u : ℕ)
    → count u (if p == q then queue_at l p ++ t ∷ [] else queue_at l q)
      ≡ occ_in l q u + (if (p == q) && (t == u) then 1 else 0)
pushed l p q t u = elim (ℕ_discrete p q) [
  | yes e ↦ rw (e, ==_refl q) (count-push u t (queue_at l q))
  | no e ↦ rw (==_ne p q e) (omega arith)
]

erased :
    (l : ProcessorLocal) (p q t u : ℕ)
    → count u (if p == q then erase_all (queue_at l p) t else queue_at l q)
      ≡ (if (p == q) && (t == u) then 0 else occ_in l q u)
erased l p q t u = elim (ℕ_discrete p q) [
  | yes e ↦ rw (e, ==_refl q) (count-erase_all u t (queue_at l q))
  | no e ↦ rw (==_ne p q e)
]

pub occ_in-push :
    (l : ProcessorLocal) (h : ℕ → Thread) (t q u : ℕ)
    → index_of h t < length l.run_queue
    → occ_in (push_to_run_queue l h t) q u
      ≡ occ_in l q u + (if (index_of h t == q) && (t == u) then 1 else 0)
unfolding push_to_run_queue
occ_in-push l h t q u lt =
    ap (count u) (queue_at-set_queue l (index_of h t) q (queue_at l (index_of h t) ++ t ∷ []) lt)
    ∙ pushed l (index_of h t) q t u

pub occ_in-erase :
    (l : ProcessorLocal) (h : ℕ → Thread) (t q u : ℕ)
    → index_of h t < length l.run_queue
    → occ_in (erase_from_run_queue l h t) q u
      ≡ (if (index_of h t == q) && (t == u) then 0 else occ_in l q u)
unfolding erase_from_run_queue
occ_in-erase l h t q u lt =
    ap (count u)
      (queue_at-set_queue l (index_of h t) q (erase_all (queue_at l (index_of h t)) t) lt)
    ∙ erased l (index_of h t) q t u

pub local_at-set_local :
    (m : Manager) (i j : ℕ) (l : ProcessorLocal)
    → i < length m.locals
    → local_at (set_local m i l) j ≡ (if i == j then l else local_at m j)
local_at-set_local m i j l h = elim (ℕ_discrete i j) [
  | yes e ↦ rw (e, ==_refl j) (get_or-set_self m.locals j l blank_local (rw (← e) h))
  | no e ↦ rw (==_ne i j e) (get_or-set_ne m.locals i j l blank_local e)
]

-- Putting a processor with five queues keeps five queues everywhere.
pub shaped-set_local :
    (m : Manager) (i : ℕ) (l : ProcessorLocal) (n : ℕ)
    → i < length m.locals
    → length l.run_queue ≡ n
    → (j : ℕ) → length (local_at m j).run_queue ≡ n
    → length (local_at (set_local m i l) j).run_queue ≡ n
shaped-set_local m i l n h e j f =
    rw (local_at-set_local m i j l h)
      (elim (Bool-cases (i == j)) [ inl here ↦ rw here e | inr there ↦ rw there f ])

here_or_there :
    (l : ProcessorLocal) (m : Manager) (i j q u : ℕ)
    → occ_in (if i == j then l else local_at m j) q u
      ≡ (if i == j then occ_in l q u else occ m j q u)
here_or_there l m i j q u = elim (Bool-cases (i == j)) [ inl h ↦ rw h | inr h ↦ rw h ]

pub occ-push_to :
    (m : Manager) (i t j q u : ℕ)
    → i < length m.locals
    → index_of m.threads t < length (local_at m i).run_queue
    → occ (push_to m i t) j q u
      ≡ occ m j q u + (if (i == j) && (index_of m.threads t == q) && (t == u) then 1 else 0)
unfolding push_to
occ-push_to m i t j q u h lt =
    ap (λ l. occ_in l q u)
      (local_at-set_local m i j (push_to_run_queue (local_at m i) m.threads t) h)
    ∙ here_or_there _ m i j q u
    ∙ (elim (ℕ_discrete i j) [
      | yes e ↦ rw (e, ==_refl j) (rw e at (occ_in-push (local_at m i) m.threads t q u lt))
      | no e ↦ rw (==_ne i j e) (omega arith)
    ])

pub occ-erase_from :
    (m : Manager) (i t j q u : ℕ)
    → i < length m.locals
    → index_of m.threads t < length (local_at m i).run_queue
    → occ (erase_from m i t) j q u
      ≡ (if (i == j) && (index_of m.threads t == q) && (t == u) then 0 else occ m j q u)
unfolding erase_from
occ-erase_from m i t j q u h lt =
    ap (λ l. occ_in l q u)
      (local_at-set_local m i j (erase_from_run_queue (local_at m i) m.threads t) h)
    ∙ here_or_there _ m i j q u
    ∙ (elim (ℕ_discrete i j) [
      | yes e ↦ rw (e, ==_refl j) (rw e at (occ_in-erase (local_at m i) m.threads t q u lt))
      | no e ↦ rw (==_ne i j e)
    ])

pub length-erase :
    (l : ProcessorLocal) (h : ℕ → Thread) (t : ℕ)
    → length (erase_from_run_queue l h t).run_queue ≡ length l.run_queue
unfolding erase_from_run_queue
length-erase l h t = length-set l.run_queue (index_of h t) _

pub length-push :
    (l : ProcessorLocal) (h : ℕ → Thread) (t : ℕ)
    → length (push_to_run_queue l h t).run_queue ≡ length l.run_queue
unfolding push_to_run_queue
length-push l h t = length-set l.run_queue (index_of h t) _

pub rotate_lem :
    (l : ProcessorLocal) (h : ℕ → Thread)
    → rotate l h ≡ (
        if (h l.this_thread).running_on == invalid_processor_number
        then erase_from_run_queue l h l.this_thread
        else push_to_run_queue (erase_from_run_queue l h l.this_thread) h l.this_thread)
unfolding rotate push_to_run_queue
rotate_lem l h = ground arith

-- update_this_thread first moves this thread to the end of its queue, or out of it.
pub occ_in-rotate :
    (l : ProcessorLocal) (h : ℕ → Thread) (q u : ℕ)
    → index_of h l.this_thread < length l.run_queue
    → occ_in (rotate l h) q u ≡ (
        if (index_of h l.this_thread == q) && (l.this_thread == u)
        then (if (h l.this_thread).running_on == invalid_processor_number then 0 else 1)
        else occ_in l q u)
occ_in-rotate l h q u lt = ground (
  arith,
  ap (λ k. occ_in k q u) (rotate_lem l h),
  occ_in-erase l h l.this_thread q u lt,
  occ_in-push (erase_from_run_queue l h l.this_thread) h l.this_thread q u,
  length-erase l h l.this_thread,
)
