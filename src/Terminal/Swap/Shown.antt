-- ===== src/Terminal/Swap/Shown.antt =====
-- src/terminal.hpp: no drawing is lost between the shell, the loop of terminal_main and the device.
use klee.Base.{
  ℕ, ◌+◌, ◌-◌, ◌≤◌, ◌<◌, ◌≡◌, ◌⊎◌, inl, inr, refl, sym, ap, ◌∙◌, subst, Bool, true, false, [], ◌∷◌,
  arith, Bool-cases, if◌then◌else◌,
}
use klee.Terminal.Swap.{Loop, start, round, on_refresh, on_fb_event, on_event, first_set, swap}

-- The shell draws and asks for a refresh, it ends, the device has done a swap, or the loop takes a
-- round, while it has not returned.
pub data Step : Loop → Loop → Type 0 where
  draws : {l : Loop} → Step l (record l { drawn = l.drawn + 1; refresh = true })
  ends : {l : Loop} → Step l (record l { shell_exit = true })
  completes :
      {l : Loop}
      → 0 < l.in_flight
      → Step l (record l { in_flight = l.in_flight - 1; fb_event = true })
  turns : {l : Loop} (ok : Bool) → l.exit ≡ false → l.returned ≡ false → Step l (round ok l)

pub data Reachable : Loop → Type 0 where
  begins : Reachable start
  goes : {l l' : Loop} → Reachable l → Step l l' → Reachable l'

abbrev pub bit : Bool → ℕ
bit true = 1
bit false = 0

-- While terminal_main runs: a swap is with the device, or its event is set, exactly when swap_done is
-- false; what is not shown yet will be, since an event or the flag of the loop says so.
pub record IsLive (l : Loop) : Type 0 where
  pub one_swap : l.in_flight + bit l.fb_event + bit l.swap_done ≡ 1
  pub pending : bit l.swap_pending + bit l.swap_done ≤ 1
  pub kept : (l.shown ≡ l.drawn) ⊎ (1 ≤ bit l.refresh + bit l.swap_pending)

pub data IsShowing (l : Loop) : Type 0 where
  over : l.returned ≡ true → IsShowing l
  live : IsLive l → IsShowing l

on_refresh-IsShowing : (ok : Bool) (l : Loop) → IsLive l → IsShowing (on_refresh ok l)
unfolding on_refresh
on_refresh-IsShowing ok l v = elim (Bool-cases l.swap_done) [
  | inl h ↦
      subst
        (λ b. IsShowing (
          if b
          then swap ok (record l { refresh = false; swap_done = false })
          else record l { refresh = false; swap_pending = true }))
        (sym h) (swapped ok (ap bit h))
  | inr h ↦
      subst
        (λ b. IsShowing (
          if b
          then swap ok (record l { refresh = false; swap_done = false })
          else record l { refresh = false; swap_pending = true }))
        (sym h) (waiting (ap bit h))
]
  where
    swapped :
        (ok : Bool)
        → bit l.swap_done ≡ 1
        → IsShowing (swap ok (record l { refresh = false; swap_done = false }))
    swapped true h = live record {
      one_swap = omega (arith, v.one_swap, h);
      pending = omega (arith, v.pending);
      kept = inl refl;
    }
    swapped false h = over refl

    waiting : bit l.swap_done ≡ 0 → IsShowing (record l { refresh = false; swap_pending = true })
    waiting h =
        live record { one_swap = v.one_swap; pending = omega (arith, h); kept = inr (omega arith) }

on_fb_event-IsShowing :
    (ok : Bool) (l : Loop) → l.fb_event ≡ true → IsLive l → IsShowing (on_fb_event ok l)
unfolding on_fb_event
on_fb_event-IsShowing ok l s v = elim (Bool-cases l.swap_pending) [
  | inl h ↦
      subst
        (λ b. IsShowing (
          if b
          then swap ok (record l { fb_event = false; swap_pending = false })
          else record l { fb_event = false; swap_done = true }))
        (sym h) (swapped ok)
  | inr h ↦
      subst
        (λ b. IsShowing (
          if b
          then swap ok (record l { fb_event = false; swap_pending = false })
          else record l { fb_event = false; swap_done = true }))
        (sym h) (finished (ap bit h))
]
  where
    set : bit l.fb_event ≡ 1
    set = ap bit s

    swapped :
        (ok : Bool) → IsShowing (swap ok (record l { fb_event = false; swap_pending = false }))
    swapped true = live record {
      one_swap = omega (arith, v.one_swap, set);
      pending = omega (arith, v.pending);
      kept = inl refl;
    }
    swapped false = over refl

    finished : bit l.swap_pending ≡ 0 → IsShowing (record l { fb_event = false; swap_done = true })
    finished h = live record {
      one_swap = omega (arith, v.one_swap, set);
      pending = omega (arith, h);
      kept = v.kept;
    }

exit-IsShowing : (l : Loop) → IsLive l → IsShowing (record l { exit = true })
exit-IsShowing l v = live record { one_swap = v.one_swap; pending = v.pending; kept = v.kept }

round-IsShowing : (ok : Bool) (l : Loop) → IsLive l → IsShowing (round ok l)
unfolding round
round-IsShowing ok l v = elim (Bool-cases l.refresh) [
  | inl r ↦
      subst (λ b. IsShowing (on_event ok l (first_set (b ∷ l.fb_event ∷ l.shell_exit ∷ []))))
        (sym r) (on_refresh-IsShowing ok l v)
  | inr r ↦
      subst (λ b. IsShowing (on_event ok l (first_set (b ∷ l.fb_event ∷ l.shell_exit ∷ []))))
        (sym r)
        (elim (Bool-cases l.fb_event) [
          | inl f ↦
              subst (λ b. IsShowing (on_event ok l (first_set (false ∷ b ∷ l.shell_exit ∷ []))))
                (sym f) (on_fb_event-IsShowing ok l f v)
          | inr f ↦
              subst (λ b. IsShowing (on_event ok l (first_set (false ∷ b ∷ l.shell_exit ∷ []))))
                (sym f)
                (elim (Bool-cases l.shell_exit) [
                  | inl x ↦
                      subst (λ b. IsShowing (on_event ok l (first_set (false ∷ false ∷ b ∷ []))))
                        (sym x) (exit-IsShowing l v)
                  | inr x ↦
                      subst (λ b. IsShowing (on_event ok l (first_set (false ∷ false ∷ b ∷ []))))
                        (sym x) (live v)
                ])
        ])
]

clash : false ≡ true → ⊥
clash e = omega (arith, ap bit e)

one-Step : {l l' : Loop} → Step l l' → IsShowing l → IsShowing l'
unfolding round
one-Step draws (over e) = over e
one-Step draws (live v) =
    live record { one_swap = v.one_swap; pending = v.pending; kept = inr (omega arith) }
one-Step ends (over e) = over e
one-Step ends (live v) = live record { one_swap = v.one_swap; pending = v.pending; kept = v.kept }
one-Step (completes p) (over e) = over e
one-Step (completes p) (live v) =
    live record { one_swap = omega (arith, v.one_swap); pending = v.pending; kept = v.kept }
one-Step (turns ok x r) (over e) = absurd (clash (sym r ∙ e))
one-Step {l = l} (turns ok x r) (live v) = round-IsShowing ok l v

-- In every state that drawings, completions and rounds of the loop lead to, in any order, unless the
-- device refused a swap and terminal_main returned: at most one swap is with the device, and what is
-- not shown yet will be, since a refresh is asked for or a swap is due.
pub round-IsReachable : {l : Loop} → Reachable l → IsShowing l
round-IsReachable begins =
    live record { one_swap = omega arith; pending = omega arith; kept = inl refl }
round-IsReachable (goes r s) = one-Step s (round-IsReachable r)

-- When nothing is left to do, so that no refresh is asked for, no swap is with the device and no event
-- of one is set, what is shown is what the shell drew last, unless terminal_main returned.
pub Reachable-shown :
    {l : Loop}
    → Reachable l
    → l.returned ≡ false
    → l.refresh ≡ false
    → l.fb_event ≡ false
    → l.in_flight ≡ 0
    → l.shown ≡ l.drawn
Reachable-shown {l = l} r n f e i = elim (round-IsReachable r) [
  | over o ↦ absurd (clash (sym n ∙ o))
  | live v ↦ elim v.kept [
    | inl k ↦ k
    | inr k ↦ absurd (omega (arith, v.one_swap, v.pending, ap bit f, ap bit e, i))
  ]
]
