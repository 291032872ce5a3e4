-- ===== src/Process/Local.antt =====
-- src/process/manager.hpp: ProcessorLocal, the run queues of one processor. The threads' memory is
-- an argument, and is returned where a method writes to a thread.
use klee.Base.{
  ℕ, ◌+◌, ◌-◌, ◌%◌, ◌^◌, Bool, false, not, List, [], ◌∷◌, ◌++◌, Option, none, some, get_or, set,
  ltb, ◌==◌, if◌then◌else◌, Code, success, invalid_nice as invalid_nice_code,
}
use klee.Process.{Thread, ProcessorLocal, invalid_processor_number}
use klee.Process.Niceness.{Nice, nice_to_index, nice_eq, is_valid_nice}

-- Writes one thread.
abbrev pub update : (ℕ → Thread) → ℕ → Thread → ℕ → Thread
update h t th u = if u == t then th else h u

unfoldable pub erase_all : List ℕ → ℕ → List ℕ
erase_all [] v = []
erase_all (x ∷ c) v = let rest = erase_all c v in if x == v then rest else x ∷ rest

-- `tick - suspend_from` in 64 bits
abbrev pub elapsed : ℕ → ℕ → ℕ
elapsed tick from = (2 ^ 64 + tick - from) % 2 ^ 64

unfoldable pub should_skip : Thread → ℕ → Bool
should_skip th tick =
    if th.suspend_from == 0 then false else ltb (elapsed tick th.suspend_from) th.suspend_for

abbrev pub index_of : (ℕ → Thread) → ℕ → ℕ
index_of h t = nice_to_index (h t).nice

abbrev pub queue_at : ProcessorLocal → ℕ → List ℕ
queue_at l q = get_or l.run_queue q []

abbrev pub set_queue : ProcessorLocal → ℕ → List ℕ → ProcessorLocal
set_queue l q c = record l { run_queue = set l.run_queue q c }

unfoldable pub push_to_run_queue : ProcessorLocal → (ℕ → Thread) → ℕ → ProcessorLocal
push_to_run_queue l h t = set_queue l (index_of h t) (queue_at l (index_of h t) ++ t ∷ [])

unfoldable pub erase_from_run_queue : ProcessorLocal → (ℕ → Thread) → ℕ → ProcessorLocal
erase_from_run_queue l h t = set_queue l (index_of h t) (erase_all (queue_at l (index_of h t)) t)

unfoldable pub move_between_run_queue :
    ProcessorLocal → (ℕ → Thread) → ℕ → Nice → Code × ProcessorLocal × (ℕ → Thread)
move_between_run_queue l h t nice =
    if not (is_valid_nice nice)
    then (invalid_nice_code, l, h)
    else if nice_eq (h t).nice nice
    then (success, l, h)
    else let l' = erase_from_run_queue l h t in
      let h' = update h t (record (h t) { nice = nice }) in (success, push_to_run_queue l' h' t, h')

-- The two loops of update_this_thread: the first thread of the queues, in order, not to be skipped.
unfoldable pub pick_from : (ℕ → Thread) → ℕ → List ℕ → Option ℕ
pick_from h tick [] = none
pick_from h tick (t ∷ q) = if not (should_skip (h t) tick) then some t else pick_from h tick q

unfoldable pub pick : (ℕ → Thread) → ℕ → List (List ℕ) → Option ℕ
unfolding pick_from
pick h tick [] = none
pick h tick (q ∷ qs) = elim (pick_from h tick q) [ some t ↦ some t | none ↦ pick h tick qs ]

-- The first block of update_this_thread: this thread goes to the end of its queue, or out of it.
unfoldable pub rotate : ProcessorLocal → (ℕ → Thread) → ProcessorLocal
rotate l h =
    let c = l.this_thread in
    let erased = erase_from_run_queue l h c in
    if not ((h c).running_on == invalid_processor_number)
    then set_queue erased (index_of h c) (queue_at erased (index_of h c) ++ c ∷ [])
    else erased

unfoldable pub update_this_thread :
    ProcessorLocal → (ℕ → Thread) → ℕ → Option (ProcessorLocal × (ℕ → Thread))
update_this_thread l h tick =
    let l' = rotate l h in
    elim (pick h tick l'.run_queue) [
      | none ↦ none
      | some t ↦
          some (record l' { this_thread = t }, update h t (record (h t) { suspend_from = 0 }))
    ]
