-- ===== src/Fs/Cache/Flat.antt =====
-- src/fs/fs.hpp: what FileOperator::copy transfers, compared with one transfer of the bytes of a flat
-- file.
use klee.Base.{
  ℕ, zero, suc, ◌+◌, ◌-◌, ◌*◌, ◌/◌, ◌%◌, ◌≤◌, ◌<◌, ◌≡◌, refl, ap, min, Bool, true, false, some, leb,
  ◌==◌, arith, Bool-cases, inl, inr, ◌⊎◌, dec_le,
}
use klee.Fs.Cache.{
  bytes_per_page, Transfer, move, copy_head, copy_body, copy_rest, rest_of, copy_pages,
}
use klee.Fs.Cache.Move.{IsCopied, IsAt, moved-IsAt, moved}

-- Between two steps: `n` bytes are done, and the next page starts at byte `n`, unless all are done.
record IsBetween (write : Bool) (offset size : ℕ) (frames : ℕ → ℕ → ℕ) (buffer : ℕ → ℕ)
    (t : Transfer) : Type 0 where
  done : ℕ
  at : IsAt offset size done t
  copied : IsCopied write offset done frames buffer t
  place : (t.copy ≡ 0) ⊎ (t.page * bytes_per_page ≡ offset + done)

module _ (write : Bool) (offset size : ℕ) (frames : ℕ → ℕ → ℕ) (buffer : ℕ → ℕ) where
  abbrev start : Transfer
  start = record {
    frames = frames;
    buffer = buffer;
    buf = 0;
    copy = size;
    page = offset / bytes_per_page;
  }

  start-IsCopied : (w : Bool) → IsCopied w offset 0 frames buffer start
  start-IsCopied true = record { stored = λ p i lt. ground arith; loaded = λ j. refl }
  start-IsCopied false = record { stored = λ p i lt. refl; loaded = λ j. ground arith }

  copy_head-IsBetween : IsBetween write offset size frames buffer (copy_head write offset start)
  unfolding copy_head
  copy_head-IsBetween =
      let a : IsAt offset size 0 start = record { at = refl; left = omega arith } in
      elim (Bool-cases (offset % 4096 == 0)) [
        | inl aligned ↦
            let zeroth : offset % 4096 ≡ 0 = ground (arith, aligned) in
            rw aligned (record {
              done = 0;
              at = a;
              copied = start-IsCopied write;
              place = inr (omega (arith, zeroth));
            })
        | inr inside ↦
            let len = min size (4096 - offset % 4096) in
            rw inside (record {
              done = 0 + len;
              at =
                  moved-IsAt offset size 0 (offset % 4096) len frames buffer start a (omega arith)
                    (omega arith) (omega arith) write;
              copied =
                  moved write offset size 0 (offset % 4096) len frames buffer start a (omega arith)
                    (omega arith) (omega arith) (start-IsCopied write);
              place = elim (dec_le size (4096 - offset % 4096)) [
                | yes le ↦ inl (omega arith)
                | no gt ↦ inr (omega arith)
              ];
            })
      ]

  -- A step of whole-page size, from the start of a page.
  page-IsBetween :
      (t : Transfer) (b : IsBetween write offset size frames buffer t) (len : ℕ)
      → len ≤ t.copy
      → 0 < t.copy
      → len ≤ bytes_per_page
      → (t.copy ≡ len) ⊎ (len ≡ bytes_per_page)
      → IsBetween write offset size frames buffer (move write t 0 len)
  unfolding move
  page-IsBetween t b len enough some_left fits end =
      let place : t.page * 4096 + 0 ≡ offset + b.done = ground (arith, b.place) in
      record {
        done = b.done + len;
        at =
            moved-IsAt offset size b.done 0 len frames buffer t b.at place (omega (arith, fits))
              enough write;
        copied =
            moved write offset size b.done 0 len frames buffer t b.at place (omega (arith, fits))
              enough b.copied;
        place = ground (arith, end, place);
      }

  copy_body-IsBetween :
      (fuel : ℕ) (t : Transfer)
      → IsBetween write offset size frames buffer t
      → t.copy < fuel
      → (t' : Transfer) × (copy_body fuel write t ≡ some t')
        × IsBetween write offset size frames buffer t'
        × (t'.copy < bytes_per_page)
  unfolding copy_body move
  copy_body-IsBetween zero t b few = absurd (omega arith)
  copy_body-IsBetween (suc fuel) t b few = elim (Bool-cases (leb 4096 t.copy)) [
    | inr short ↦ rw short (t, refl, b, ground (arith, short))
    | inl long ↦
        let many : 4096 ≤ t.copy = ground (arith, long) in
        rw long (
          copy_body-IsBetween fuel (move write t 0 4096)
            (page-IsBetween t b 4096 many (omega (arith, many)) (omega arith) (inr refl))
            (omega (arith, few, many)))
  ]

  copy_rest-IsCopied :
      (t : Transfer)
      → IsBetween write offset size frames buffer t
      → t.copy < bytes_per_page
      → IsCopied write offset size frames buffer (copy_rest write t)
  unfolding copy_rest
  copy_rest-IsCopied t b short = elim (Bool-cases (t.copy == 0)) [
    | inl none_left ↦
        let all : b.done ≡ size = ground (arith, none_left, b.at.left) in
        rw none_left (rw all at b.copied)
    | inr some_left ↦
        let pos : 0 < t.copy = ground (arith, some_left) in
        let place : t.page * 4096 + 0 ≡ offset + b.done = ground (arith, b.place, pos) in
        let last =
          moved write offset size b.done 0 t.copy frames buffer t b.at place (omega (arith, short))
            (omega arith) b.copied in
        let all : b.done + t.copy ≡ size = omega (arith, b.at.left) in rw some_left (rw all at last)
  ]

-- The transfer of copy takes any offset and size, in a head, whole pages and a rest, and returns.
-- Reading, it fills the first `size` bytes of the buffer with the file's bytes from `offset` on, and
-- writing, it puts them there; no other byte of the buffer or of any page changes.
pub copy_pages-IsCopied :
    (write : Bool) (offset size : ℕ) (frames : ℕ → ℕ → ℕ) (buffer : ℕ → ℕ)
    → (t : Transfer) × (copy_pages write offset size frames buffer ≡ some t)
      × IsCopied write offset size frames buffer t
unfolding copy_pages
copy_pages-IsCopied write offset size frames buffer =
    let first = copy_head write offset (start write offset size frames buffer) in
    let b = copy_head-IsBetween write offset size frames buffer in
    let (t, e, b', short) =
      copy_body-IsBetween write offset size frames buffer (size + 1) first b
        (omega (arith, b.at.left)) in
    (
      copy_rest write t,
      ap (rest_of write) e,
      copy_rest-IsCopied write offset size frames buffer t b' short,
    )
