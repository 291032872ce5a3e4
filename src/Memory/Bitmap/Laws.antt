-- ===== src/Memory/Bitmap/Laws.antt =====
-- src/memory/allocator.hpp: what one bit reads after set_bit and set_bits.
use klee.Base.{
  ℕ, zero, suc, ◌+◌, ◌*◌, ◌/◌, ◌%◌, ◌≤◌, ◌<◌, ◌≡◌, refl, ap, ◌∙◌, ◌≢◌, Bool, ◌&&◌, arith, get_or,
  set, length, length-set, get_or-set_self, get_or-set_ne, set_past, dec_lt, ℕ_discrete,
  if◌then◌else◌, ltb, leb,
}
use klee.Memory.Bits.{test_bit, put_bit, test_bit-put_bit_self, test_bit-put_bit_ne}
use klee.Memory.Bitmap.{
  BitmapMemoryManager, get_bit, set_bit, set_bits, set_bits_loop, set_range, frames_limit,
}

pub get_bit-set_bit_self :
    (m : BitmapMemoryManager) (f : ℕ) (b : Bool)
    → f < frames_limit m
    → get_bit (set_bit m f b) f ≡ b
unfolding get_bit set_bit
get_bit-set_bit_self m f b h =
    rw (get_or-set_self m.allocation_map (f / 64) _ 0 (omega arith))
      (test_bit-put_bit_self _ (f % 64) b)

pub get_bit-set_bit_ne :
    (m : BitmapMemoryManager) (f g : ℕ) (b : Bool) → g ≢ f → get_bit (set_bit m f b) g ≡ get_bit m g
unfolding get_bit set_bit
get_bit-set_bit_ne m f g b h = elim (ℕ_discrete (f / 64) (g / 64)) [
  | no apart ↦
      ap (λ x. test_bit x (g % 64)) (get_or-set_ne m.allocation_map (f / 64) (g / 64) _ 0 apart)
  | yes same ↦ elim (dec_lt (f / 64) (length m.allocation_map)) [
    | no past ↦ rw (
        set_past m.allocation_map (f / 64) (put_bit (get_or m.allocation_map (f / 64) 0) (f % 64) b)
          (omega arith))
    | yes inside ↦ same_line same inside
  ]
]
  where
    line : ℕ
    line = get_or m.allocation_map (f / 64) 0

    same_line :
        f / 64 ≡ g / 64
        → f / 64 < length m.allocation_map
        → test_bit
            (get_or (set m.allocation_map (f / 64) (put_bit line (f % 64) b)) (g / 64) 0)
            (g % 64)
          ≡ test_bit (get_or m.allocation_map (g / 64) 0) (g % 64)
    same_line same inside =
        rw (← same, get_or-set_self m.allocation_map (f / 64) (put_bit line (f % 64) b) 0 inside)
          (test_bit-put_bit_ne line (g % 64) (f % 64) b (λ e. h (omega arith)))

pub frames_limit-set_bit :
    (m : BitmapMemoryManager) (f : ℕ) (b : Bool) → frames_limit (set_bit m f b) ≡ frames_limit m
unfolding set_bit
frames_limit-set_bit m f b = ap (λ n. n * 64) (length-set m.allocation_map (f / 64) _)

frames_limit-loop :
    (m : BitmapMemoryManager) (begin : ℕ) (b : Bool) (n i : ℕ)
    → frames_limit (set_bits_loop m begin b n i) ≡ frames_limit m
unfolding set_bits_loop
frames_limit-loop m begin b zero i = refl
frames_limit-loop m begin b (suc n) i =
    frames_limit-loop (set_bit m (begin + i) b) begin b n (i + 1)
    ∙ frames_limit-set_bit m (begin + i) b

pub frames_limit-set_bits :
    (m : BitmapMemoryManager) (begin n : ℕ) (b : Bool)
    → frames_limit (set_bits m begin n b) ≡ frames_limit m
unfolding set_bits
frames_limit-set_bits m begin n b = frames_limit-loop m begin b n 0

-- Whether frame `g` is one of the `n` frames from `begin`.
abbrev pub within : ℕ → ℕ → ℕ → Bool
within begin n g = leb begin g && ltb g (begin + n)

get_bit-loop :
    (m : BitmapMemoryManager) (begin : ℕ) (b : Bool) (n i g : ℕ)
    → begin + i + n ≤ frames_limit m
    → get_bit (set_bits_loop m begin b n i) g ≡ (if within (begin + i) n g then b else get_bit m g)
unfolding set_bits_loop
get_bit-loop m begin b zero i g h = ground arith
get_bit-loop m begin b (suc n) i g h =
    let rest =
      get_bit-loop (set_bit m (begin + i) b) begin b n (i + 1) g
        (omega (arith, frames_limit-set_bit m (begin + i) b)) in
    elim (ℕ_discrete g (begin + i)) [
      | yes e ↦
          let here : get_bit (set_bit m (begin + i) b) g ≡ b =
            rw e (get_bit-set_bit_self m (begin + i) b (omega arith)) in
          ground (arith, rest)
      | no e ↦ ground (arith, rest, get_bit-set_bit_ne m (begin + i) g b e)
    ]

pub get_bit-set_bits :
    (m : BitmapMemoryManager) (begin n : ℕ) (b : Bool) (g : ℕ)
    → begin + n ≤ frames_limit m
    → get_bit (set_bits m begin n b) g ≡ (if within begin n g then b else get_bit m g)
unfolding set_bits
get_bit-set_bits m begin n b g h =
    let e : begin + 0 ≡ begin = omega arith in rw e at (get_bit-loop m begin b n 0 g (omega arith))

pub get_bit-set_range :
    (m : BitmapMemoryManager) (begin end f : ℕ) → get_bit (set_range m begin end) f ≡ get_bit m f
unfolding get_bit set_range
get_bit-set_range m begin end f = refl

pub range-set_range :
    (m : BitmapMemoryManager) (begin end : ℕ)
    → ((set_range m begin end).range_begin ≡ begin) × ((set_range m begin end).range_end ≡ end)
unfolding set_range
range-set_range m begin end = (refl, refl)
