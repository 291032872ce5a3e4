-- ===== src/Process/Interrupt/Expand.antt =====
-- src/process/manager.hpp: expand_locals.
use klee.Base.{
  ℕ, zero, suc, ◌-◌, ◌<◌, ◌≤◌, ◌≡◌, refl, ap, ◌∙◌, List, [], ◌∷◌, ◌++◌, arith, get_or, get_or_past,
  take, replicate, length, length-append, length-replicate, dec_lt,
}
use klee.Process.{Manager, invalid_processor_number}
use klee.Process.Niceness.{queues}
use klee.Process.Switch.{local_at, blank_local}
use klee.Process.Switch.Queues.{count, occ, occ_in}
use klee.Process.Switch.Wakeup.{IsScheduled, share}
use klee.Process.Interrupt.{expand_locals}

module _ {ℓ} {A : Type ℓ} where
  take_beyond : (n : ℕ) (xs : List A) → length xs ≤ n → take n xs ≡ xs
  take_beyond zero [] h = refl
  take_beyond zero (x ∷ xs) h = absurd (omega arith)
  take_beyond (suc n) [] h = refl
  take_beyond (suc n) (x ∷ xs) h = ap (◌∷◌ x) (take_beyond n xs (omega arith))

  get_or-replicate : (n i : ℕ) (d : A) → get_or (replicate n d) i d ≡ d
  get_or-replicate zero i d = refl
  get_or-replicate (suc n) zero d = refl
  get_or-replicate (suc n) (suc i) d = get_or-replicate n i d

  get_or_padded : (xs : List A) (n i : ℕ) (d : A) → get_or (xs ++ replicate n d) i d ≡ get_or xs i d
  get_or_padded [] n i d = get_or-replicate n i d
  get_or_padded (x ∷ xs) n zero d = refl
  get_or_padded (x ∷ xs) n (suc i) d = get_or_padded xs n i d

blank_queue : (q t : ℕ) → occ_in blank_local q t ≡ 0
unfolding count
blank_queue zero t = refl
blank_queue (suc zero) t = refl
blank_queue (suc (suc zero)) t = refl
blank_queue (suc (suc (suc zero))) t = refl
blank_queue (suc (suc (suc (suc zero)))) t = refl
blank_queue (suc (suc (suc (suc (suc q))))) t = refl

-- Giving the manager more processors, fewer than the invalid number, keeps the run queues right, and
-- each processor as it was.
pub expand_locals-IsScheduled :
    (m : Manager) (n : ℕ)
    → IsScheduled m
    → length m.locals ≤ n
    → n < invalid_processor_number
    → IsScheduled (expand_locals m n)
      × (length (expand_locals m n).locals ≡ n)
      × ((i : ℕ) → local_at (expand_locals m n) i ≡ local_at m i)
unfolding expand_locals
expand_locals-IsScheduled m n v more few =
    let old = length m.locals in
    let size : length (take n m.locals ++ replicate (n - old) blank_local) ≡ n =
      rw (take_beyond n m.locals more) (
        omega (
          arith,
          length-append m.locals (replicate (n - old) blank_local),
          length-replicate (n - old) blank_local,
        )) in
    let same : (i : ℕ) → local_at (expand_locals m n) i ≡ local_at m i =
      λ i. rw (take_beyond n m.locals more) (get_or_padded m.locals (n - old) i blank_local) in
    (
      record {
        few = omega (arith, size);
        shaped = λ i lt. rw (same i) (shaped_at m i v);
        valid = v.valid;
        placed = λ t. ground (arith, v.placed t, size);
        queued = λ i q t lt.
            ap (λ l. occ_in l q t) (same i) ∙ queued_at m i q t v (omega (arith, lt, size));
      },
      size,
      same,
    )
  where
    shaped_at : (m : Manager) (i : ℕ) → IsScheduled m → length (local_at m i).run_queue ≡ queues
    shaped_at m i v = elim (dec_lt i (length m.locals)) [
      | yes lt ↦ v.shaped i lt
      | no ge ↦ rw (get_or_past m.locals i blank_local (omega arith)) refl
    ]

    queued_at :
        (m : Manager) (i q t : ℕ)
        → IsScheduled m
        → i < invalid_processor_number
        → occ m i q t ≡ share (m.threads t) i q
    queued_at m i q t v small = elim (dec_lt i (length m.locals)) [
      | yes lt ↦ v.queued i q t lt
      | no ge ↦
          ap (λ l. occ_in l q t) (get_or_past m.locals i blank_local (omega arith))
          ∙ blank_queue q t
          ∙ (ground (arith, v.placed t))
    ]
