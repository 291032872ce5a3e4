-- ===== src/Terminal/Swap.antt =====
-- src/terminal.hpp: the loop of terminal_main, which asks the frame buffer to show what the shell has
-- drawn, one swap at a time. What is drawn is counted: `drawn` is how often the shell has drawn, and
-- `shown` says up to which of these the frame buffer got the image.
pub mod Shown
use klee.Base.{
  ℕ, zero, suc, ◌+◌, ◌-◌, Bool, true, false, List, [], ◌∷◌, Option, none, some, if◌then◌else◌,
}

-- The events, the loop's variables, and the device.
pub record Loop : Type 0 where
  pub refresh : Bool
  pub fb_event : Bool
  pub shell_exit : Bool
  pub swap_done : Bool
  pub swap_pending : Bool
  pub exit : Bool
  pub returned : Bool
  pub drawn : ℕ
  pub shown : ℕ
  pub in_flight : ℕ

-- EventsWaiter::wait: the first event that is set. Without one the thread waits.
abbrev pub first_set : List Bool → Option ℕ
first_set [] = none
first_set (true ∷ es) = some 0
first_set (false ∷ es) = elim (first_set es) [ none ↦ none | some i ↦ some (suc i) ]

-- The copy into the device's buffer and `Swap`. An error returns from terminal_main.
abbrev pub swap : Bool → Loop → Loop
swap true l = record l { shown = l.drawn; in_flight = l.in_flight + 1 }
swap false l = record l { shown = l.drawn; returned = true }

unfoldable pub on_refresh : Bool → Loop → Loop
on_refresh ok l =
    let reset = record l { refresh = false } in
    if l.swap_done
    then swap ok (record reset { swap_done = false })
    else record reset { swap_pending = true }

unfoldable pub on_fb_event : Bool → Loop → Loop
on_fb_event ok l =
    let reset = record l { fb_event = false } in
    if l.swap_pending
    then swap ok (record reset { swap_pending = false })
    else record reset { swap_done = true }

abbrev pub on_event : Bool → Loop → Option ℕ → Loop
on_event ok l none = l
on_event ok l (some zero) = on_refresh ok l
on_event ok l (some (suc zero)) = on_fb_event ok l
on_event ok l (some (suc (suc i))) = record l { exit = true }

-- One round of the loop. `ok` says whether the device takes a swap.
unfoldable pub round : Bool → Loop → Loop
round ok l = on_event ok l (first_set (l.refresh ∷ l.fb_event ∷ l.shell_exit ∷ []))

abbrev pub start : Loop
start = record {
  refresh = false;
  fb_event = false;
  shell_exit = false;
  swap_done = true;
  swap_pending = false;
  exit = false;
  returned = false;
  drawn = 0;
  shown = 0;
  in_flight = 0;
}
