-- ===== src/Process.antt =====
-- src/process/process.hpp and manager.hpp: threads, processes, events and the scheduler.
--
-- A `Thread*` is a number, and `Manager.threads` is the memory that it points into; freed memory is
-- not reused. Registers, stacks and page tables are left out: a context switch is the change of the
-- processor's `this_thread`. Each operation runs with the manager's locks held and is one step, in
-- which `cpu` is `smp::get_processor_number()`. Where the source stops the kernel by fatal_error or
-- fatal_assert the result is `none`.
mod Tests
pub mod Niceness
pub mod Local
pub mod Switch
pub mod Event
pub mod Table
pub mod Interrupt
use klee.Base.{ℕ, ◌+◌, ◌-◌, ◌^◌, Bool, List, [], Option, get_or, set, ◌==◌, if◌then◌else◌}
use Niceness.{Nice}

-- smp::invalid_processor_number
abbrev pub invalid_processor_number : ℕ
invalid_processor_number = 2 ^ 64 - 1

pub record Thread : Type 0 where
  pub id : ℕ
  pub process : ℕ
  pub running_on : ℕ
  pub events : List ℕ
  pub nice : Nice
  pub suspend_from : ℕ
  pub suspend_for : ℕ
  pub zombie : Bool
  pub movable : Bool

pub record Process : Type 0 where
  pub id : ℕ
  pub threads : List (Option ℕ)

-- ProcessorLocal
pub record ProcessorLocal : Type 0 where
  pub this_thread : ℕ
  pub run_queue : List (List ℕ)
  pub lapic_id : ℕ

pub record Manager : Type 0 where
  pub tick : ℕ
  pub threads : ℕ → Thread
  pub next_thread : ℕ
  -- the threads that were destroyed, the last one first
  pub freed : List ℕ
  pub processes : List (Option Process)
  pub locals : List ProcessorLocal
  pub events : List (Option (List ℕ))
  pub thread_joined_event : ℕ
  pub process_joined_event : ℕ
  pub kernel_pid : ℕ
  pub event_processor : ℕ
