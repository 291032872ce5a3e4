-- ===== src/Util/CriticalQueue/Order.antt =====
-- src/util/critical-queue.hpp: what swap hands over.
use klee.Base.{
  ◌≡◌, refl, sym, ap, ◌∙◌, true, List, [], ◌∷◌, ◌++◌, Bool-cases, inl, inr, append_assoc,
  append_nil,
}
use klee.Util.CriticalQueue.{CriticalQueue, buffer, push, swap, empty}

module _ {ℓ} {T : Type ℓ} where
  abbrev pub push_all : CriticalQueue T → List T → CriticalQueue T
  push_all q [] = q
  push_all q (x ∷ xs) = push_all (push q x) xs

  pushed-push :
      (q : CriticalQueue T) (x : T) → buffer (push q x) (push q x).flip ≡ buffer q q.flip ++ x ∷ []
  unfolding push
  pushed-push q x = elim (Bool-cases q.flip) [ inl h ↦ rw (h) refl | inr h ↦ rw (h) refl ]

  pushed-push_all :
      (q : CriticalQueue T) (xs : List T)
      → buffer (push_all q xs) (push_all q xs).flip ≡ buffer q q.flip ++ xs
  pushed-push_all q [] = sym (append_nil (buffer q q.flip))
  pushed-push_all q (x ∷ xs) =
      pushed-push_all (push q x) xs
      ∙ ap (λ b. b ++ xs) (pushed-push q x)
      ∙ append_assoc (buffer q q.flip) (x ∷ []) xs

  swapped : (q : CriticalQueue T) → (swap q).0 ≡ buffer q q.flip
  unfolding swap
  swapped q = elim (Bool-cases q.flip) [ inl h ↦ rw h refl | inr h ↦ rw h refl ]

  fresh : (q : CriticalQueue T) → buffer (swap q).1 (swap q).1.flip ≡ []
  unfolding swap
  fresh q = elim (Bool-cases q.flip) [ inl h ↦ rw h refl | inr h ↦ rw h refl ]

  -- What is pushed after a swap is handed over by the next swap, all of it, in order and nothing else,
  -- and the queue then says that it is empty.
  pub swap-push_all :
      (q : CriticalQueue T) (xs : List T)
      → ((swap (push_all (swap q).1 xs)).0 ≡ xs) × (empty (swap (push_all (swap q).1 xs)).1 ≡ true)
  unfolding empty swap
  swap-push_all q xs = (
    swapped (push_all (swap q).1 xs) ∙ pushed-push_all (swap q).1 xs ∙ ap (λ b. b ++ xs) (fresh q),
    refl,
  )
