-- ===== src/Memory/Init/Reserved.antt =====
-- src/memory/allocator.hpp: the frames of descriptors that are not available.
use klee.Base.{
  ℕ, ◌+◌, ◌-◌, ◌*◌, ◌/◌, ◌≤◌, ◌<◌, ◌≡◌, ◌⊎◌, inl, inr, refl, ap, ◌∙◌, true, false, List, [], ◌∷◌,
  ◌++◌, arith, ltb, length, Bool-cases, some, ok, dec_lt, dec_le,
}
use klee.Memory.Bitmap.{BitmapMemoryManager, get_bit, set_bits, frames_limit, bytes_per_frame}
use klee.Memory.Bitmap.Laws.{get_bit-set_bits, frames_limit-set_bits, get_bit-set_range}
use klee.Memory.Allocator.{SmartFrameId, allocate}
use klee.Memory.Allocator.First.{allocate_first}
use klee.Memory.Init.{
  MemoryDescriptor, mark_gap, mark, mark_all, new_manager, is_available_memory_type, uefi_page_size,
}

-- The descriptor ends inside the frames that the bitmap covers.
abbrev pub Fits : ℕ → MemoryDescriptor → Type 0
Fits limit d = d.physical_start + d.number_of_pages * uefi_page_size ≤ limit * bytes_per_frame

abbrev pub AllFit : ℕ → List MemoryDescriptor → Type 0
AllFit limit [] = Unit {0}
AllFit limit (d ∷ ds) = Fits limit d × AllFit limit ds

-- Marking keeps what is taken, and the bitmap's size.
abbrev Kept : BitmapMemoryManager → BitmapMemoryManager → Type 0
Kept m m' =
    (frames_limit m' ≡ frames_limit m) × ((f : ℕ) → get_bit m f ≡ true → get_bit m' f ≡ true)

set_bits-Kept :
    (m : BitmapMemoryManager) (begin n : ℕ)
    → begin + n ≤ frames_limit m
    → Kept m (set_bits m begin n true)
set_bits-Kept m begin n h = (
  frames_limit-set_bits m begin n true,
  λ f e. ground (arith, get_bit-set_bits m begin n true f h),
)

mark_gap-Kept :
    (m : BitmapMemoryManager) (a s : ℕ)
    → s ≤ frames_limit m * bytes_per_frame
    → Kept m (mark_gap m a s)
unfolding mark_gap
mark_gap-Kept m a s h = elim (Bool-cases (ltb a s)) [
  | inl gap ↦ rw gap (set_bits-Kept m (a / 4096) ((s - a) / 4096) (ground arith))
  | inr joined ↦ rw joined (refl, λ f e. e)
]

Kept-trans : (a b c : BitmapMemoryManager) → Kept a b → Kept b c → Kept a c
Kept-trans a b c (n, f) (k, g) = (k ∙ n, λ i e. g i (f i e))

mark-Kept :
    (d : MemoryDescriptor) (m : BitmapMemoryManager) (a : ℕ)
    → Fits (frames_limit m) d
    → Kept m (mark d (m, a)).0
unfolding mark
mark-Kept d m a h =
    let gap = mark_gap-Kept m a d.physical_start (omega arith) in
    elim (Bool-cases (is_available_memory_type d.type)) [
      | inl free ↦ rw free gap
      | inr held ↦ rw held (
          Kept-trans m (mark_gap m a d.physical_start) _ gap (
            set_bits-Kept _ (d.physical_start / 4096) (d.number_of_pages * 4096 / 4096)
              (omega (arith, gap.0))))
    ]

mark_all-Kept :
    (ds : List MemoryDescriptor) (m : BitmapMemoryManager) (a : ℕ)
    → AllFit (frames_limit m) ds
    → Kept m (mark_all ds (m, a)).0
unfolding mark_all
mark_all-Kept [] m a h = (refl, λ f e. e)
mark_all-Kept (d ∷ ds) m a h =
    let one = mark-Kept d m a h.0 in
    Kept-trans m (mark d (m, a)).0 _ one
      (mark_all-Kept ds (mark d (m, a)).0 (mark d (m, a)).1 (rw one.0 h.1))

-- Whether frame `f` lies in the descriptor.
abbrev pub Covers : MemoryDescriptor → ℕ → Type 0
Covers d f =
    (d.physical_start / bytes_per_frame ≤ f)
    × (f < d.physical_start / bytes_per_frame + d.number_of_pages)

mark-Covers :
    (d : MemoryDescriptor) (m : BitmapMemoryManager) (a f : ℕ)
    → Fits (frames_limit m) d
    → is_available_memory_type d.type ≡ false
    → Covers d f
    → get_bit (mark d (m, a)).0 f ≡ true
unfolding mark
mark-Covers d m a f h held c =
    let gap = mark_gap-Kept m a d.physical_start (omega arith) in
    rw held (
      ground (
        arith,
        get_bit-set_bits (mark_gap m a d.physical_start) (d.physical_start / 4096)
            (d.number_of_pages * 4096 / 4096) true f (omega (arith, gap.0)),
      ))

mark_all-Covers :
    (before : List MemoryDescriptor) (d : MemoryDescriptor) (after : List MemoryDescriptor)
    → (m : BitmapMemoryManager) (a f : ℕ) → AllFit (frames_limit m) (before ++ d ∷ after)
    → is_available_memory_type d.type ≡ false
    → Covers d f
    → get_bit (mark_all (before ++ d ∷ after) (m, a)).0 f ≡ true
unfolding mark_all
mark_all-Covers [] d after m a f h held c =
    let one = mark-Kept d m a h.0 in
    (mark_all-Kept after (mark d (m, a)).0 (mark d (m, a)).1 (rw one.0 h.1)).1 f
      (mark-Covers d m a f h.0 held c)
mark_all-Covers (b ∷ before) d after m a f h held c =
    let one = mark-Kept b m a h.0 in
    mark_all-Covers before d after (mark b (m, a)).0 (mark b (m, a)).1 f (rw one.0 h.1) held c

-- After construction, every frame of a descriptor that the map does not call available is taken,
-- wherever the descriptor stands in the map and whatever the bitmap held before, if every descriptor
-- ends within what the bitmap covers.
pub new_manager-reserved :
    (allocation_map : List ℕ) (before after : List MemoryDescriptor) (d : MemoryDescriptor) (f : ℕ)
    → AllFit (length allocation_map * 64) (before ++ d ∷ after)
    → is_available_memory_type d.type ≡ false
    → Covers d f
    → get_bit (new_manager allocation_map (before ++ d ∷ after)) f ≡ true
unfolding new_manager
new_manager-reserved allocation_map before after d f h held c =
    get_bit-set_range _ _ _ f ∙ mark_all-Covers before d after _ 0 f h held c

-- The frames that allocate gives out, called on the manager as constructed from a map whose
-- descriptors end within what the bitmap covers, all come before or after any given frame of a
-- descriptor that the map does not call available, if the manager's range does not end before it
-- begins.
pub allocate-reserved :
    (allocation_map : List ℕ) (before after : List MemoryDescriptor) (d : MemoryDescriptor) (f : ℕ)
    → (frames : ℕ) (s : SmartFrameId) (m' : BitmapMemoryManager)
    → AllFit (length allocation_map * 64) (before ++ d ∷ after)
    → is_available_memory_type d.type ≡ false
    → Covers d f
    → (new_manager allocation_map (before ++ d ∷ after)).range_begin
      ≤ (new_manager allocation_map (before ++ d ∷ after)).range_end
    → allocate (new_manager allocation_map (before ++ d ∷ after)) frames ≡ some (ok s, m')
    → (f < s.id) ⊎ (s.id + frames ≤ f)
allocate-reserved allocation_map before after d f frames s m' h held c o e =
    elim (allocate_first (new_manager allocation_map (before ++ d ∷ after)) frames o) [
      | inr (g, _) ↦ absurd (cc)
      | inl (k, g, run, _) ↦
          let same : s ≡ record { id = k; frames = frames } = cc in
          let same_id : s.id ≡ k = ap (λ (x : SmartFrameId). x.id) same in
          elim (dec_lt f s.id) [
            | yes lt ↦ inl lt
            | no ge ↦ elim (dec_le (s.id + frames) f) [
              | yes le ↦ inr le
              | no gt ↦
                  let at_f : k + (f - k) ≡ f = omega arith in
                  let free = rw at_f at ((run.1 (f - k) (omega arith)).1) in
                  let full = new_manager-reserved allocation_map before after d f h held c in
                  absurd (cc)
            ]
          ]
    ]
