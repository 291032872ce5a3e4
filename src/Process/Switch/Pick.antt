-- ===== src/Process/Switch/Pick.antt =====
-- src/process/manager.hpp: which thread ProcessorLocal::update_this_thread picks.
use klee.Base.{
  ℕ, zero, suc, ◌<◌, ◌≡◌, inl, inr, true, false, List, [], ◌∷◌, Option, none, some, arith, get_or,
  Bool-cases, ℕ_discrete,
}
use klee.Process.{Thread}
use klee.Process.Local.{should_skip, pick_from, pick}
use klee.Process.Switch.Queues.{count}

-- Every thread of the queue is to be skipped.
abbrev pub AllSkipped : (ℕ → Thread) → ℕ → List ℕ → Type 0
AllSkipped h tick c = (u : ℕ) → 0 < count u c → should_skip (h u) tick ≡ true

abbrev PickedFrom : (ℕ → Thread) → ℕ → List ℕ → Option ℕ → Type 0
PickedFrom h tick c none = AllSkipped h tick c
PickedFrom h tick c (some t) = (0 < count t c) × (should_skip (h t) tick ≡ false)

AllSkipped-cons :
    (h : ℕ → Thread) (tick t : ℕ) (c : List ℕ)
    → should_skip (h t) tick ≡ true
    → AllSkipped h tick c
    → AllSkipped h tick (t ∷ c)
unfolding count
AllSkipped-cons h tick t c e all u pos = elim (ℕ_discrete t u) [
  | yes p ↦ rw (← p) e
  | no p ↦ all u (ground arith)
]

PickedFrom-cons :
    (h : ℕ → Thread) (tick t : ℕ) (c : List ℕ) (r : Option ℕ)
    → should_skip (h t) tick ≡ true
    → PickedFrom h tick c r
    → PickedFrom h tick (t ∷ c) r
unfolding count
PickedFrom-cons h tick t c none e all = AllSkipped-cons h tick t c e all
PickedFrom-cons h tick t c (some u) e (pos, f) = (omega arith, f)

pick_from-PickedFrom :
    (h : ℕ → Thread) (tick : ℕ) (c : List ℕ) → PickedFrom h tick c (pick_from h tick c)
unfolding pick_from count
pick_from-PickedFrom h tick [] = λ u pos. absurd (omega arith)
pick_from-PickedFrom h tick (t ∷ c) = elim (Bool-cases (should_skip (h t) tick)) [
  | inl skip ↦ rw skip (PickedFrom-cons h tick t c _ skip (pick_from-PickedFrom h tick c))
  | inr run ↦ rw run (ground arith, run)
]

-- The pick over the queues, most urgent first: some thread of a queue that is not to be skipped,
-- where all threads of the queues before it are; or all threads of all queues are to be skipped.
abbrev pub Picked : (ℕ → Thread) → ℕ → List (List ℕ) → Option ℕ → Type 0
Picked h tick qs none = (q : ℕ) → AllSkipped h tick (get_or qs q [])
Picked h tick qs (some t) =
    (q : ℕ) × (0 < count t (get_or qs q []))
    × (should_skip (h t) tick ≡ false)
    × ((p : ℕ) → p < q → AllSkipped h tick (get_or qs p []))

Picked-cons :
    (h : ℕ → Thread) (tick : ℕ) (c : List ℕ) (qs : List (List ℕ)) (r : Option ℕ)
    → AllSkipped h tick c
    → Picked h tick qs r
    → Picked h tick (c ∷ qs) r
Picked-cons h tick c qs none all rest = elim [ zero ↦ all | suc q ↦ rest q ]
Picked-cons h tick c qs (some t) all (q, pos, run, before) =
    (suc q, pos, run, elim [ zero ↦ λ lt. all | suc p ↦ λ lt. before p (omega arith) ])

pub pick-Picked :
    (h : ℕ → Thread) (tick : ℕ) (qs : List (List ℕ)) → Picked h tick qs (pick h tick qs)
unfolding pick count
pick-Picked h tick [] = λ q u pos. absurd (omega arith)
pick-Picked h tick (c ∷ qs) =
    split (pick_from h tick c) (pick_from-PickedFrom h tick c) (pick-Picked h tick qs)
  where
    split :
        (r : Option ℕ)
        → PickedFrom h tick c r
        → Picked h tick qs (pick h tick qs)
        → Picked h tick (c ∷ qs) (elim r [ some t ↦ some t | none ↦ pick h tick qs ])
    split none all rest = Picked-cons h tick c qs _ all rest
    split (some t) f rest = (0, f.0, f.1, λ p lt. absurd (omega arith))
