-- ===== src/Memory/Allocator/Restore.antt =====
-- src/memory/allocator.hpp and frame.hpp: what an owner of frames gives back.
use klee.Base.{
  ℕ, ◌+◌, ◌-◌, ◌≤◌, ◌<◌, ◌≡◌, sym, ◌∙◌, true, false, some, arith, ok, ◌==◌, ==_ne, if◌then◌else◌,
  Bool-cases, inl, inr,
}
use klee.Memory.Bitmap.{BitmapMemoryManager, get_bit, set_bits, frames_limit}
use klee.Memory.Bitmap.Laws.{get_bit-set_bits, frames_limit-set_bits, within}
use klee.Memory.Allocator.{SmartFrameId, nullframe, allocate, deallocate, free, move_assign}
use klee.Memory.Allocator.First.{IsFreeRun, allocate_first}

-- The bitmap has a bit for every frame of the range, and no frame has the null id.
pub record IsValid (m : BitmapMemoryManager) : Type 0 where
  pub ordered : m.range_begin ≤ m.range_end
  pub in_map : m.range_end < frames_limit m
  pub small : m.range_end < nullframe

-- A freed run reads free, and every other frame as before.
free_bit :
    (m : BitmapMemoryManager) (s frames g : ℕ)
    → s + frames ≤ frames_limit m
    → get_bit (set_bits (set_bits m s frames true) s frames false) g
      ≡ (if within s frames g then false else get_bit m g)
free_bit m s frames g h = ground (
  arith,
  get_bit-set_bits m s frames true g h,
  get_bit-set_bits (set_bits m s frames true) s frames false g,
  frames_limit-set_bits m s frames true,
)

run_bit :
    (m : BitmapMemoryManager) (s frames g : ℕ)
    → IsFreeRun m frames s
    → (if within s frames g then false else get_bit m g) ≡ get_bit m g
run_bit m s frames g run = elim (Bool-cases (within s frames g)) [
  | inr out ↦ rw out
  | inl hit ↦
      let below : (s ≤ g) × (g < s + frames) = ground arith in
      let e : s + (g - s) ≡ g = omega arith in
      rw hit (sym (rw e at ((run.1 (g - s) (omega arith)).1)))
]

-- What `free-allocate` says of one frame `g`.
abbrev pub RestoredAfter : BitmapMemoryManager → ℕ → SmartFrameId → BitmapMemoryManager → ℕ → Type 0
RestoredAfter m frames s m' g =
    (get_bit m' g ≡ (if within s.id frames g then true else get_bit m g))
    × ((within s.id frames g ≡ true) → get_bit m g ≡ false)
    × ((free s m').0.id ≡ nullframe)
    × (get_bit (free s m').1 g ≡ get_bit m g)

free_run :
    (m : BitmapMemoryManager) (k frames g : ℕ)
    → IsValid m
    → 0 < frames
    → IsFreeRun m frames k
    → RestoredAfter m frames (record { id = k; frames = frames }) (set_bits m k frames true) g
unfolding free deallocate
free_run m k frames g v pos run =
    let last : k + (frames - 1) ≤ m.range_end = (run.1 (frames - 1) (omega arith)).0 in
    let fits : k + frames ≤ frames_limit m = omega (arith, v.in_map) in
    let given : (k == nullframe) ≡ false = ==_ne k nullframe (omega (arith, v.small)) in
    (
      get_bit-set_bits m k frames true g fits,
      (λ hit. rw hit at (sym (run_bit m k frames g run))),
      rw given,
      rw given (free_bit m k frames g fits ∙ run_bit m k frames g run),
    )

-- If allocate gives out `frames` frames of a valid manager, at least one, then each of them was
-- free and reads taken after the call, no other frame changes, and freeing the handle makes every
-- frame read as it did before the call and leaves the null handle.
pub free-allocate :
    (m : BitmapMemoryManager) (frames : ℕ) (s : SmartFrameId) (m' : BitmapMemoryManager) (g : ℕ)
    → IsValid m
    → 0 < frames
    → allocate m frames ≡ some (ok s, m')
    → RestoredAfter m frames s m' g
free-allocate m frames s m' g v pos e = elim (allocate_first m frames v.ordered) [
  | inr (f, _) ↦ absurd (cc)
  | inl (k, f, run, _) ↦
      let same_id : s ≡ record { id = k; frames = frames } = cc in
      let same_map : m' ≡ set_bits m k frames true = cc in
      rw (same_id, same_map) (free_run m k frames g v pos run)
]

-- Move-assignment frees what this handle owned, takes over what the other one owned, and leaves the
-- other one the null handle, so that its destructor frees nothing.
pub move_assign_owner :
    (this o : SmartFrameId) (m : BitmapMemoryManager)
    → let (this', o', m') = move_assign this o m in
      (this' ≡ o) × (o'.id ≡ nullframe) × (m' ≡ (free this m).1) × ((free o' m').1 ≡ m')
unfolding move_assign free
move_assign_owner this o m = ground arith
