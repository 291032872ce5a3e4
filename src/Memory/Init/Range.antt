-- ===== src/Memory/Init/Range.antt =====
-- src/memory/allocator.hpp: the end of the range. The constructor sets it to the first frame after
-- the last available memory, and the loops of allocate and allocate_single include it.
use klee.Base.{
  ℕ, ◌+◌, ◌-◌, ◌*◌, ◌/◌, ◌≤◌, ◌<◌, ◌≡◌, ◌∙◌, refl, ap, inl, inr, true, false, List, [], ◌∷◌, arith,
  ltb, if◌then◌else◌, length, Bool-cases,
}
use klee.Memory.Bitmap.{BitmapMemoryManager, get_bit, set_bits, frames_limit, bytes_per_frame}
use klee.Memory.Bitmap.Laws.{
  get_bit-set_bits, frames_limit-set_bits, get_bit-set_range, range-set_range,
}
use klee.Memory.Allocator.First.{IsFreeRun}
use klee.Memory.Init.{
  MemoryDescriptor, mark_gap, mark, mark_all, blank, new_manager, is_available_memory_type,
  physical_end, uefi_page_size,
}

-- Every descriptor ends at or before `limit`, which is the end of the last available one.
abbrev pub AllBelow : ℕ → List MemoryDescriptor → Type 0
AllBelow limit [] = Unit {0}
AllBelow limit (d ∷ ds) =
    (d.physical_start + d.number_of_pages * uefi_page_size ≤ limit) × AllBelow limit ds

-- `available_end` after the loop
unfoldable pub available_end_after : List MemoryDescriptor → ℕ → ℕ
available_end_after [] a = a
available_end_after (d ∷ ds) a =
    available_end_after ds (if is_available_memory_type d.type then physical_end d else a)

mark-available_end :
    (d : MemoryDescriptor) (m : BitmapMemoryManager) (a : ℕ)
    → (mark d (m, a)).1 ≡ (if is_available_memory_type d.type then physical_end d else a)
unfolding mark
mark-available_end d m a = elim (Bool-cases (is_available_memory_type d.type)) [
  | inl free ↦ rw free
  | inr held ↦ rw held
]

mark_all-available_end :
    (ds : List MemoryDescriptor) (m : BitmapMemoryManager) (a : ℕ)
    → (mark_all ds (m, a)).1 ≡ available_end_after ds a
unfolding mark_all available_end_after
mark_all-available_end [] m a = refl
mark_all-available_end (d ∷ ds) m a =
    mark_all-available_end ds (mark d (m, a)).0 (mark d (m, a)).1
    ∙ ap (available_end_after ds) (mark-available_end d m a)

-- Marking below a frame leaves its bit alone.
set_bits_above :
    (m : BitmapMemoryManager) (begin n f : ℕ)
    → begin + n ≤ f
    → f < frames_limit m
    → get_bit (set_bits m begin n true) f ≡ get_bit m f
set_bits_above m begin n f h l = ground (arith, get_bit-set_bits m begin n true f)

abbrev Same : ℕ → BitmapMemoryManager → BitmapMemoryManager → Type 0
Same f m m' = (frames_limit m' ≡ frames_limit m) × (get_bit m' f ≡ get_bit m f)

mark_gap-Same :
    (m : BitmapMemoryManager) (a s f : ℕ)
    → s / bytes_per_frame ≤ f
    → f < frames_limit m
    → Same f m (mark_gap m a s)
unfolding mark_gap
mark_gap-Same m a s f h l = elim (Bool-cases (ltb a s)) [
  | inl gap ↦ rw gap (
    frames_limit-set_bits m _ _ true,
    set_bits_above m (a / 4096) ((s - a) / 4096) f (ground arith) l,
  )
  | inr joined ↦ rw joined (refl, refl)
]

mark-Same :
    (d : MemoryDescriptor) (m : BitmapMemoryManager) (a f : ℕ)
    → (d.physical_start + d.number_of_pages * uefi_page_size) / bytes_per_frame ≤ f
    → f < frames_limit m
    → Same f m (mark d (m, a)).0
unfolding mark
mark-Same d m a f h l =
    let gap = mark_gap-Same m a d.physical_start f (omega arith) l in
    elim (Bool-cases (is_available_memory_type d.type)) [
      | inl free ↦ rw free gap
      | inr held ↦ rw held (
        frames_limit-set_bits _ _ _ true ∙ gap.0,
        set_bits_above (mark_gap m a d.physical_start) (d.physical_start / 4096)
              (d.number_of_pages * 4096 / 4096) f (omega arith) (omega (arith, gap.0))
            ∙ gap.1,
      )
    ]

mark_all-Same :
    (ds : List MemoryDescriptor) (m : BitmapMemoryManager) (a limit : ℕ)
    → AllBelow limit ds
    → limit / bytes_per_frame < frames_limit m
    → get_bit (mark_all ds (m, a)).0 (limit / bytes_per_frame) ≡ get_bit m (limit / bytes_per_frame)
unfolding mark_all
mark_all-Same [] m a limit h l = refl
mark_all-Same (d ∷ ds) m a limit h l =
    let one = mark-Same d m a (limit / 4096) (omega (arith, h.0)) l in
    mark_all-Same ds (mark d (m, a)).0 (mark d (m, a)).1 limit h.1 (omega (arith, one.0)) ∙ one.1

-- If the last available memory ends with frame number `n` and every descriptor of the map ends
-- there or before, so that frame `n` is in none of them, then frame `n` is in the range of the
-- constructed manager and is a run of one free frame, which allocate may give out, unless the bitmap
-- had it set before construction.
pub new_manager_past_end :
    (allocation_map : List ℕ) (ds : List MemoryDescriptor) (n : ℕ)
    → available_end_after ds 0 ≡ n * bytes_per_frame
    → AllBelow (n * bytes_per_frame) ds
    → 0 < n
    → n < length allocation_map * 64
    → get_bit (blank allocation_map) n ≡ false
    → IsFreeRun (new_manager allocation_map ds) 1 n
unfolding new_manager
new_manager_past_end allocation_map ds n e below pos l unset =
    let start = blank allocation_map in
    let end = (mark_all ds (start, 0)).1 in
    let at_end : end ≡ n * 4096 = mark_all-available_end ds start 0 ∙ e in
    let frame : n * 4096 / 4096 ≡ n = omega arith in
    let range = range-set_range (mark_all ds (start, 0)).0 1 (end / 4096) in
    let kept = mark_all-Same ds start 0 (n * 4096) below (omega arith) in
    (
      omega (arith, range.0),
      λ j one.
          let first : n + j ≡ n = omega arith in
          rw first (
            omega (arith, range.1, at_end),
            get_bit-set_range _ _ _ n ∙ (rw frame at kept) ∙ unset,
          ),
    )
