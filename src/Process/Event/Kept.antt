-- ===== src/Process/Event/Kept.antt =====
-- src/process/manager.hpp: events and threads when a thread is switched or sleeps.
use klee.Base.{ℕ, ◌≡◌, refl, sym, ◌∙◌, inl, inr, some, arith, ◌==◌, Bool-cases, Option-cases}
use klee.Process.{Manager, invalid_processor_number}
use klee.Process.Local.{update, update_this_thread, rotate, pick}
use klee.Process.Switch.{local_at, set_local, set_thread, switch_thread, sleep_thread, erase_from}
use klee.Process.Event.Linked.{IsLinked}

-- Nothing changes of what the events and the threads list, nor which threads are zombies.
pub record KeepsEvents (m m' : Manager) : Type 0 where
  pub events : m'.events ≡ m.events
  pub lists : (u : ℕ) → (m'.threads u).events ≡ (m.threads u).events
  pub zombies : (u : ℕ) → (m'.threads u).zombie ≡ (m.threads u).zombie

pub KeepsEvents-IsLinked : (m m' : Manager) → KeepsEvents m m' → IsLinked m → IsLinked m'
KeepsEvents-IsLinked m m' k v = record {
  linked = λ e u a. rw (k.events, k.lists u) (v.linked e u (sym (k.zombies u) ∙ a));
  dead = λ e u z. rw k.events (v.dead e u (sym (k.zombies u) ∙ z));
}

switch_thread-KeepsEvents :
    (m : Manager) (cpu : ℕ) (m' : Manager) → switch_thread m cpu ≡ some m' → KeepsEvents m m'
unfolding switch_thread update_this_thread
switch_thread-KeepsEvents m cpu m' e =
    let l = rotate (local_at m cpu) m.threads in
    elim (Option-cases (pick m.threads m.tick l.run_queue)) [
      | inl nobody ↦ absurd (ground arith)
      | inr (t, found) ↦
          let h = update m.threads t (record (m.threads t) { suspend_from = 0 }) in
          let same : set_local (record m { threads = h }) cpu (record l { this_thread = t }) ≡ m' =
            ground arith in
          rw (← same)
            (record { events = refl; lists = λ u. ground arith; zombies = λ u. ground arith })
    ]

pub sleep_thread-KeepsEvents :
    (m : Manager) (cpu t : ℕ) (m' : Manager) → sleep_thread m cpu t ≡ some m' → KeepsEvents m m'
unfolding sleep_thread erase_from
sleep_thread-KeepsEvents m cpu t m' e =
    let m1 = set_thread m t (record (m.threads t) { running_on = invalid_processor_number }) in
    let lists : (u : ℕ) → (m1.threads u).events ≡ (m.threads u).events = λ u. ground arith in
    let zombies : (u : ℕ) → (m1.threads u).zombie ≡ (m.threads u).zombie = λ u. ground arith in
    elim (Bool-cases ((m.threads t).running_on == invalid_processor_number)) [
      | inl asleep ↦
          let same : m ≡ m' = ground arith in
          rw (← same) (record { events = refl; lists = λ u. refl; zombies = λ u. refl })
      | inr runs ↦ elim (Bool-cases (t == (local_at m cpu).this_thread)) [
        | inr other ↦
            let same : erase_from m1 (m.threads t).running_on t ≡ m' = ground arith in
            rw (← same) (record { events = refl; lists = lists; zombies = zombies })
        | inl own ↦
            let k = switch_thread-KeepsEvents m1 cpu m' (ground arith) in
            record {
              events = k.events;
              lists = λ u. k.lists u ∙ lists u;
              zombies = λ u. k.zombies u ∙ zombies u;
            }
      ]
    ]
