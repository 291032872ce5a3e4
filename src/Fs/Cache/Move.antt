-- ===== src/Fs/Cache/Move.antt =====
-- src/fs/fs.hpp: one memcpy of FileOperator::copy, as a transfer of bytes of a flat file.
use klee.Base.{
  ℕ, ◌+◌, ◌-◌, ◌*◌, ◌/◌, ◌%◌, ◌≤◌, ◌<◌, ◌≡◌, ◌∙◌, Bool, true, false, not, ◌&&◌, ltb, ◌==◌,
  if◌then◌else◌, arith, Bool-cases, inl, inr,
}
use klee.Fs.Cache.{bytes_per_page, Transfer, within, store, load, move}

-- The first `n` bytes are transferred: byte `j` of the buffer goes with byte `offset + j` of the
-- file, which is in page (offset + j) / 4096, and nothing else is written.
pub record IsCopied (write : Bool) (offset n : ℕ) (frames : ℕ → ℕ → ℕ) (buffer : ℕ → ℕ)
    (t : Transfer) : Type 0 where
  pub stored :
      (p i : ℕ)
      → i < bytes_per_page
      → t.frames p i ≡ (
          if write && within offset n (p * bytes_per_page + i)
          then buffer (p * bytes_per_page + i - offset)
          else frames p i)
  pub loaded :
      (j : ℕ)
      → t.buffer j ≡ (
          if not write && ltb j n
          then frames ((offset + j) / bytes_per_page) ((offset + j) % bytes_per_page)
          else buffer j)

-- And the variables stand at byte `n`.
pub record IsAt (offset size n : ℕ) (t : Transfer) : Type 0 where
  pub at : t.buf ≡ n
  pub left : t.copy + n ≡ size

module _ (offset size n in_page len : ℕ) (frames : ℕ → ℕ → ℕ) (buffer : ℕ → ℕ) (t : Transfer)
    (a : IsAt offset size n t) (place : t.page * bytes_per_page + in_page ≡ offset + n)
    (fits : in_page + len ≤ bytes_per_page) (enough : len ≤ t.copy) where
  stored_step :
      (p i : ℕ)
      → i < bytes_per_page
      → IsCopied true offset n frames buffer t
      → store t.frames t.buffer t.page in_page t.buf len p i ≡ (
          if within offset (n + len) (p * bytes_per_page + i)
          then buffer (p * bytes_per_page + i - offset)
          else frames p i)
  stored_step p i lt c = elim (Bool-cases ((p == t.page) && within in_page len i)) [
    | inl hit ↦
        let both : (p ≡ t.page) × (in_page ≤ i) × (i < in_page + len) = ground (arith, hit) in
        let index : t.buf + (i - in_page) ≡ p * 4096 + i - offset =
          omega (arith, both, place, a.at) in
        let inside : within offset (n + len) (p * 4096 + i) ≡ true = ground (arith, both, place) in
        rw (hit, inside, index) (c.loaded (p * 4096 + i - offset))
    | inr miss ↦
        let same : within offset (n + len) (p * 4096 + i) ≡ within offset n (p * 4096 + i) =
          ground (arith, miss, place, lt, fits) in
        rw (miss, same) (c.stored p i lt)
  ]

  loaded_step :
      (j : ℕ)
      → IsCopied false offset n frames buffer t
      → load t.frames t.buffer t.page in_page t.buf len j ≡ (
          if ltb j (n + len)
          then frames ((offset + j) / bytes_per_page) ((offset + j) % bytes_per_page)
          else buffer j)
  loaded_step j c = elim (Bool-cases (within t.buf len j)) [
    | inl hit ↦
        let both : (n ≤ j) × (j < n + len) = ground (arith, hit, a.at) in
        let page : (offset + j) / 4096 ≡ t.page = omega (arith, both, place, fits) in
        let byte : (offset + j) % 4096 ≡ in_page + (j - t.buf) =
          omega (arith, both, place, fits, a.at) in
        let inside : ltb j (n + len) ≡ true = ground (arith, both) in
        let small : in_page + (j - t.buf) < 4096 = omega (arith, both, fits, a.at) in
        rw (hit, inside, page, byte) (c.stored t.page (in_page + (j - t.buf)) small)
    | inr miss ↦
        let same : ltb j (n + len) ≡ ltb j n = ground (arith, miss, a.at) in
        rw (miss, same) (c.loaded j)
  ]

  moved_store :
      IsCopied true offset n frames buffer t
      → IsCopied true offset (n + len) frames buffer (move true t in_page len)
  unfolding move
  moved_store c = record {
    stored = λ p i lt. stored_step p i lt c;
    loaded = λ j. c.loaded j ∙ ground arith;
  }

  moved_load :
      IsCopied false offset n frames buffer t
      → IsCopied false offset (n + len) frames buffer (move false t in_page len)
  unfolding move
  moved_load c = record { stored = λ p i lt. c.stored p i lt; loaded = λ j. loaded_step j c }

  pub moved-IsAt : (write : Bool) → IsAt offset size (n + len) (move write t in_page len)
  unfolding move
  moved-IsAt write = record { at = omega (arith, a.at); left = omega (arith, a.left, enough) }

pub moved :
    (write : Bool) (offset size n in_page len : ℕ) (frames : ℕ → ℕ → ℕ) (buffer : ℕ → ℕ)
    (t : Transfer)
    → IsAt offset size n t
    → t.page * bytes_per_page + in_page ≡ offset + n
    → in_page + len ≤ bytes_per_page
    → len ≤ t.copy
    → IsCopied write offset n frames buffer t
    → IsCopied write offset (n + len) frames buffer (move write t in_page len)
moved true offset size n in_page len frames buffer t a place fits enough c =
    moved_store offset size n in_page len frames buffer t a place fits enough c
moved false offset size n in_page len frames buffer t a place fits enough c =
    moved_load offset size n in_page len frames buffer t a place fits enough c
