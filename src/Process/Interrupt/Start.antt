-- ===== src/Process/Interrupt/Start.antt =====
-- src/process/manager.hpp: the manager that the constructor leaves.
use klee.Base.{
  ℕ, zero, suc, ◌<◌, ◌≡◌, ◌≢◌, refl, ◌⊎◌, inl, inr, false, List, [], ◌∷◌, Option, none, some, arith,
  ltb, get_or, length, ◌&&◌, ◌==◌, if◌then◌else◌, ==_ne, ℕ_discrete, Bool-cases,
}
use klee.Util.DenseMap.{find_empty_slot, scan, place}
use klee.Process.{Thread, ProcessorLocal, Manager, invalid_processor_number}
use klee.Process.Niceness.{nice_to_index}
use klee.Process.Local.{push_to_run_queue}
use klee.Process.Switch.{wakeup_thread, push_to}
use klee.Process.Switch.Queues.{count}
use klee.Process.Switch.Wakeup.{IsScheduled}
use klee.Process.Switch.Turn.{IsRunning}
use klee.Process.Event.{create_event, listed}
use klee.Process.Event.Linked.{IsLinked}
use klee.Process.Table.{
  create_process, create_thread, wakeup_thread_of, find_alive_thread, find_thread, new_thread,
  slot_of,
}
use klee.Process.Table.Names.{IsNamed}
use klee.Process.Interrupt.{new_manager, capture_context, start_thread, empty_manager}

-- A thread as the constructor leaves it: awake, of niceness 0, and not to be moved.
abbrev kernel_thread : ℕ → Thread
kernel_thread tid = record (new_thread tid 0) { running_on = 0; movable = false }

module _ (h : ℕ → Thread) (lapic_id : ℕ) where
  abbrev or_empty : Option Manager → Manager
  or_empty none = empty_manager h
  or_empty (some m) = m

  -- What the constructor returns; it does not stop.
  unfoldable pub started : Manager
  started = or_empty (new_manager h lapic_id)

  record IsStarted : Type 0 where
    done : new_manager h lapic_id ≡ some started
    locals :
        started.locals
        ≡ record {
          this_thread = 0;
          run_queue = [] ∷ [] ∷ (0 ∷ 1 ∷ []) ∷ [] ∷ [] ∷ [];
          lapic_id = lapic_id;
        }
          ∷ []
    events : started.events ≡ some [] ∷ some [] ∷ []
    processes : started.processes ≡ some (record { id = 0; threads = some 0 ∷ some 1 ∷ [] }) ∷ []
    next_thread : started.next_thread ≡ 2
    first : started.threads 0 ≡ kernel_thread 0
    second : started.threads 1 ≡ kernel_thread 1
    others : (u : ℕ) → u ≢ 0 → u ≢ 1 → started.threads u ≡ h u

  started-IsStarted : IsStarted
  unfolding started new_manager capture_context start_thread create_event create_process
      create_thread wakeup_thread_of find_alive_thread find_thread wakeup_thread push_to
      find_empty_slot scan place push_to_run_queue
  started-IsStarted = record {
    done = refl;
    locals = refl;
    events = refl;
    processes = refl;
    next_thread = refl;
    first = refl;
    second = refl;
    others = λ u zeroth first. rw (==_ne u 0 zeroth, ==_ne u 1 first) refl;
  }

-- What holds of every thread: which run, of the ones that the constructor made.
runs_on : ℕ → ℕ
runs_on t = if ltb t 2 then 0 else invalid_processor_number

record IsKernelThread (t : ℕ) (th : Thread) : Type 0 where
  nice : nice_to_index th.nice ≡ 2
  events : th.events ≡ []
  zombie : th.zombie ≡ false
  running_on : th.running_on ≡ runs_on t

started-IsKernelThread :
    (h : ℕ → Thread) (lapic_id : ℕ)
    → ((t : ℕ) → h t ≡ new_thread 0 0)
    → (t : ℕ) → IsKernelThread t ((started h lapic_id).threads t)
unfolding runs_on
started-IsKernelThread h lapic_id blank t =
    let s = started-IsStarted h lapic_id in
    elim (ℕ_discrete t 0) [
      | yes e ↦
          rw (e, s.first) (record { nice = refl; events = refl; zombie = refl; running_on = refl })
      | no e ↦ elim (ℕ_discrete t 1) [
        | yes f ↦
            rw (f, s.second)
              (record { nice = refl; events = refl; zombie = refl; running_on = refl })
        | no f ↦
            rw (s.others t e f, blank t)
              (record {
                nice = refl;
                events = refl;
                zombie = refl;
                running_on = ground (arith, e, f);
              })
      ]
    ]

middle_queue :
    (q t : ℕ)
    → count t (get_or ([] ∷ [] ∷ (0 ∷ 1 ∷ []) ∷ [] ∷ [] ∷ []) q [])
      ≡ (if (runs_on t == 0) && (2 == q) then 1 else 0)
unfolding count runs_on
middle_queue zero t = ground arith
middle_queue (suc zero) t = ground arith
middle_queue (suc (suc zero)) t = ground arith
middle_queue (suc (suc (suc zero))) t = ground arith
middle_queue (suc (suc (suc (suc zero)))) t = ground arith
middle_queue (suc (suc (suc (suc (suc q))))) t = ground arith

unwaited : (e : ℕ) → listed (get_or (some [] ∷ some [] ∷ []) e none) ≡ []
unwaited zero = refl
unwaited (suc zero) = refl
unwaited (suc (suc e)) = refl

one_local :
    (ls : List ProcessorLocal) (l : ProcessorLocal) (i : ℕ) → ls ≡ l ∷ [] → i < length ls → i ≡ 0
one_local ls l i e lt = let lt' : i < length (l ∷ []) = rw e at lt in omega (arith, lt')

placed_on :
    (m : Manager) (t : ℕ) (l : ProcessorLocal)
    → m.locals ≡ l ∷ []
    → (m.threads t).running_on ≡ runs_on t
    → ((m.threads t).running_on ≡ invalid_processor_number)
      ⊎ ((m.threads t).running_on < length m.locals)
unfolding runs_on
placed_on m t l e on =
    rw (on, e)
      (elim (Bool-cases (ltb t 2)) [ inl h ↦ rw h (inr (omega arith)) | inr h ↦ rw h (inl refl) ])

two_names :
    (i j t : ℕ)
    → slot_of (get_or (some (record { id = 0; threads = some 0 ∷ some 1 ∷ [] }) ∷ []) i none) j
      ≡ some t
    → (i ≡ 0) × (j ≡ t) × (t < 2)
two_names zero zero t e = ground arith
two_names zero (suc zero) t e = ground arith
two_names zero (suc (suc j)) t e = absurd (ground arith)
two_names (suc i) j t e = absurd (ground arith)

named :
    (m : Manager) (i j t : ℕ)
    → m.threads 0 ≡ kernel_thread 0
    → m.threads 1 ≡ kernel_thread 1
    → m.next_thread ≡ 2
    → (i ≡ 0) × (j ≡ t) × (t < 2)
    → ((m.threads t).process ≡ i) × ((m.threads t).id ≡ j) × (t < m.next_thread)
named m i j zero zeroth first next (e, f, lt) =
    rw (e, f, zeroth) (refl, refl, rw next (omega arith))
named m i j (suc zero) zeroth first next (e, f, lt) =
    rw (e, f, first) (refl, refl, rw next (omega arith))
named m i j (suc (suc t)) zeroth first next (e, f, lt) = absurd (omega arith)

-- The invariants that the constructor establishes.
pub record IsReady (m : Manager) : Type 0 where
  pub scheduled : IsScheduled m
  pub linked : IsLinked m
  pub named : IsNamed m
  pub running : IsRunning m 0

pub started-IsReady :
    (h : ℕ → Thread) (lapic_id : ℕ)
    → ((t : ℕ) → h t ≡ new_thread 0 0)
    → IsReady (started h lapic_id)
unfolding count
started-IsReady h lapic_id blank =
    let s = started-IsStarted h lapic_id in
    let m = started h lapic_id in
    let th = started-IsKernelThread h lapic_id blank in
    record {
      scheduled = record {
        few = rw s.locals (omega arith);
        shaped = λ i lt. rw (s.locals, one_local m.locals _ i s.locals lt) refl;
        valid = λ t. rw (th t).nice (omega arith);
        placed = λ t. placed_on m t _ s.locals (th t).running_on;
        queued = λ i q t lt.
            rw (one_local m.locals _ i s.locals lt, s.locals, (th t).running_on, (th t).nice)
              (middle_queue q t);
      };
      linked = record {
        linked = λ e t a. rw (s.events, unwaited e, (th t).events) refl;
        dead = λ e t z. rw (s.events, unwaited e) refl;
      };
      named = record {
        own_name = λ i j t e.
            named m i j t s.first s.second s.next_thread (two_names i j t (rw s.processes at e));
      };
      running = rw s.locals (rw s.first refl);
    }

-- The constructor, given thread memory in which every thread sleeps with niceness 0, waits for
-- nothing and is no zombie, returns a manager whose run queues are right, whose events and threads
-- are linked, whose names are the threads' own, and whose first processor runs a thread of its own.
pub new_manager-IsReady :
    (h : ℕ → Thread) (lapic_id : ℕ)
    → ((t : ℕ) → h t ≡ new_thread 0 0)
    → (m : Manager) × (new_manager h lapic_id ≡ some m) × IsReady m
new_manager-IsReady h lapic_id blank =
    (started h lapic_id, (started-IsStarted h lapic_id).done, started-IsReady h lapic_id blank)
