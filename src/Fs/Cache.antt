-- ===== src/Fs/Cache.antt =====
-- src/fs/fs.hpp: the transfer between a caller's buffer and the cached pages of a file, which
-- FileOperator::copy does in a head, whole pages, and a rest.
pub mod Move
pub mod Flat
use klee.Base.{
  ℕ, zero, suc, ◌+◌, ◌-◌, ◌*◌, ◌/◌, ◌%◌, min, Bool, true, false, not, ◌&&◌, Option, some, none, ltb,
  leb, ◌==◌, if◌then◌else◌,
}

-- paging::bytes_per_page
abbrev pub bytes_per_page : ℕ
bytes_per_page = 4096

-- The cached frames by page and byte, the caller's buffer, and the variables of copy: `buf` as an
-- offset into the buffer, the bytes left to copy, and the page.
pub record Transfer : Type 0 where
  pub frames : ℕ → ℕ → ℕ
  pub buffer : ℕ → ℕ
  pub buf : ℕ
  pub copy : ℕ
  pub page : ℕ

abbrev pub within : ℕ → ℕ → ℕ → Bool
within start len i = leb start i && ltb i (start + len)

-- `memcpy(cache.get_frame() + in_page, buf, len)`
abbrev pub store : (ℕ → ℕ → ℕ) → (ℕ → ℕ) → ℕ → ℕ → ℕ → ℕ → ℕ → ℕ → ℕ
store frames buffer page in_page buf len p i =
    if (p == page) && within in_page len i then buffer (buf + (i - in_page)) else frames p i

-- `memcpy(buf, cache.get_frame() + in_page, len)`
abbrev pub load : (ℕ → ℕ → ℕ) → (ℕ → ℕ) → ℕ → ℕ → ℕ → ℕ → ℕ → ℕ
load frames buffer page in_page buf len j =
    if within buf len j then frames page (in_page + (j - buf)) else buffer j

-- One memcpy, with the steps of the variables after it.
unfoldable pub move : Bool → Transfer → ℕ → ℕ → Transfer
move write t in_page len = record {
  frames = if write then store t.frames t.buffer t.page in_page t.buf len else t.frames;
  buffer = if write then t.buffer else load t.frames t.buffer t.page in_page t.buf len;
  buf = t.buf + len;
  copy = t.copy - len;
  page = t.page + 1;
}

-- `align cursor`
unfoldable pub copy_head : Bool → ℕ → Transfer → Transfer
unfolding move
copy_head write offset t =
    if offset % bytes_per_page == 0
    then t
    else move write t (offset % bytes_per_page)
        (min t.copy (bytes_per_page - offset % bytes_per_page))

-- `copy page by page`; `none` means that the fuel ran out.
unfoldable pub copy_body : ℕ → Bool → Transfer → Option Transfer
unfolding move
copy_body zero write t = none
copy_body (suc fuel) write t =
    let rest = copy_body fuel write (move write t 0 bytes_per_page) in
    if leb bytes_per_page t.copy then rest else some t

-- `copy the rest`
unfoldable pub copy_rest : Bool → Transfer → Transfer
unfolding move
copy_rest write t = if t.copy == 0 then t else move write t 0 t.copy

abbrev pub rest_of : Bool → Option Transfer → Option Transfer
rest_of write none = none
rest_of write (some t) = some (copy_rest write t)

-- The part of copy after the cache is prepared, with a round of the loop for each byte, and one
-- more.
unfoldable pub copy_pages : Bool → ℕ → ℕ → (ℕ → ℕ → ℕ) → (ℕ → ℕ) → Option Transfer
unfolding copy_head copy_body copy_rest
copy_pages write offset size frames buffer = rest_of write (
    copy_body (size + 1) write (
      copy_head write offset (record {
        frames = frames;
        buffer = buffer;
        buf = 0;
        copy = size;
        page = offset / bytes_per_page;
      })))
