-- ===== src/Fs/File.antt =====
-- src/fs/fs.hpp: FileOperator::copy, with prepare_cache. The driver and the frames that
-- memory::allocate_single gives are arguments. Sizes and offsets are below 2 ^ 64.
pub mod Prepare
pub mod Reads
use klee.Base.{
  ℕ, zero, suc, ◌+◌, ◌-◌, ◌*◌, ◌/◌, ◌%◌, ◌^◌, min, Bool, true, false, not, ◌&&◌, ◌||◌, Option, some,
  none, ltb, leb, ◌==◌, if◌then◌else◌, Code, success, is_error, not_implemented, invalid_size,
  index_out_of_range, Result, ok, err,
}
use klee.Fs.Cache.{bytes_per_page, within, Transfer, copy_pages}

-- CachePage::State
pub data State : Type 0 where
  uninitialized clean dirty : State

-- The pages of a CacheProvider; `frames` is what the page's frame holds.
pub record CacheProvider : Type 0 where
  pub capacity : ℕ
  pub states : ℕ → State
  pub frames : ℕ → ℕ → ℕ

-- What copy uses of the driver: a read gives its result and the buffer after it.
pub record Driver : Type 0 where
  pub read : ℕ → ℕ → (ℕ → ℕ) → Result ℕ × (ℕ → ℕ)
  pub write : ℕ → ℕ → (ℕ → ℕ) → Result ℕ
  -- memory::allocate_single for a page: what the frame holds.
  pub allocate_single : ℕ → Result (ℕ → ℕ)

pub record FileOperator : Type 0 where
  pub filesize : ℕ
  pub blocksize_exp : ℕ
  pub cache : Bool
  pub cache_provider : CacheProvider

pub data Initialize : Type 0 where
  all head_tail : Initialize

abbrev pub ceil : ℕ → ℕ → ℕ
ceil a b = (a + b - 1) / b

abbrev pub is_initialized_from_driver : Initialize → ℕ → ℕ → ℕ → Bool
is_initialized_from_driver all begin end p = true
is_initialized_from_driver head_tail begin end p = (p == begin) || (p == end - 1)

-- `cache.page = std::move(page); cache.state = Clean`
abbrev pub set_page : CacheProvider → ℕ → (ℕ → ℕ) → CacheProvider
set_page c p frame = record c {
  states = λ q. if q == p then clean else c.states q;
  frames = λ q. if q == p then frame else c.frames q;
}

abbrev pub blocks_read : FileOperator → ℕ → ℕ
blocks_read f p =
    let blocks_per_page = bytes_per_page / 2 ^ f.blocksize_exp in
    min blocks_per_page (ceil f.filesize (2 ^ f.blocksize_exp) - p * blocks_per_page)

-- A round of the loop: what it returns, if it does, and the cache after it.
abbrev pub Prepared : Type 0
Prepared = Option Code × CacheProvider

abbrev pub keep_page : CacheProvider → ℕ → Result ℕ × (ℕ → ℕ) → Prepared
keep_page c p (err e, frame) = (some e, c)
keep_page c p (ok n, frame) = (none, set_page c p frame)

abbrev pub fill_page : Driver → FileOperator → Bool → CacheProvider → ℕ → Result (ℕ → ℕ) → Prepared
fill_page d f wanted c p (err e) = (some e, c)
fill_page d f wanted c p (ok frame) =
    if wanted && ltb (p * bytes_per_page) f.filesize
    then keep_page c p (d.read (p * (bytes_per_page / 2 ^ f.blocksize_exp)) (blocks_read f p) frame)
    else (none, set_page c p frame)

-- One round of the loop of prepare_cache.
abbrev pub prepare_page : Driver → FileOperator → Bool → CacheProvider → ℕ → State → Prepared
prepare_page d f wanted c p uninitialized = fill_page d f wanted c p (d.allocate_single p)
prepare_page d f wanted c p dirty = (none, c)
prepare_page d f wanted c p clean = (none, c)

-- An error ends the loop whatever its code is.
abbrev pub or_returned : Prepared → Code × CacheProvider → Code × CacheProvider
or_returned (none, c) rest = rest
or_returned (some e, c) rest = (e, c)

-- The loop, with the rounds left and the page.
unfoldable pub prepare_pages :
    Driver → FileOperator → Initialize → ℕ → ℕ → ℕ → ℕ → CacheProvider → Code × CacheProvider
prepare_pages d f initialize begin end zero p c = (success, c)
prepare_pages d f initialize begin end (suc rounds) p c =
    let r = prepare_page d f (is_initialized_from_driver initialize begin end p) c p (c.states p) in
    let rest = prepare_pages d f initialize begin end rounds (p + 1) r.1 in or_returned r rest

unfoldable pub prepare_cache : Driver → FileOperator → ℕ → ℕ → Initialize → Code × CacheProvider
unfolding prepare_pages
prepare_cache d f begin end initialize =
    let c = f.cache_provider in
    let grown = if ltb c.capacity end then record c { capacity = end } else c in
    if ltb bytes_per_page (2 ^ f.blocksize_exp)
    then (not_implemented, grown)
    else prepare_pages d f initialize begin end (end - begin) begin grown

abbrev pub shifted : ℕ → Result ℕ → Result ℕ
shifted exp (err e) = err e
shifted exp (ok n) = ok (n * 2 ^ exp % 2 ^ 64)

-- The result of copy, the cache and the buffer after it.
abbrev pub Copied : Type 0
Copied = Result ℕ × CacheProvider × (ℕ → ℕ)

-- copy without a cache
abbrev pub pass_through : Driver → FileOperator → ℕ → ℕ → (ℕ → ℕ) → Bool → Copied
pass_through d f offset size buffer write =
    let block = 2 ^ f.blocksize_exp in
    let (r, buffer') = d.read (offset / block) (size / block) buffer in
    if not (offset % block == 0) || not (size % block == 0)
    then (err invalid_size, f.cache_provider, buffer)
    else if write
    then (
      shifted f.blocksize_exp (d.write (offset / block) (size / block) buffer),
      f.cache_provider,
      buffer,
    )
    else (shifted f.blocksize_exp r, f.cache_provider, buffer')

abbrev pub copied : ℕ → CacheProvider → Option Transfer → Option Copied
copied size c none = none
copied size c (some t) = some (ok size, record c { frames = t.frames }, t.buffer)

-- The part after prepare_cache
abbrev pub copy_prepared :
    FileOperator → ℕ → ℕ → (ℕ → ℕ) → Bool → Code × CacheProvider → Option Copied
copy_prepared f offset size buffer write (e, c) =
    let copyable = min size ((f.filesize + 2 ^ 64 - offset) % 2 ^ 64) in
    if is_error e
    then some (err e, c, buffer)
    else copied copyable c (copy_pages write offset copyable c.frames buffer)

unfoldable pub copy : Driver → FileOperator → ℕ → ℕ → (ℕ → ℕ) → Bool → Option Copied
copy d f offset size buffer write =
    let end = (offset + size) % 2 ^ 64 in
    if not f.cache
    then some (pass_through d f offset size buffer write)
    else if size == 0
    then some (ok 0, f.cache_provider, buffer)
    else if ltb f.filesize end
    then some (err index_out_of_range, f.cache_provider, buffer)
    else copy_prepared f offset size buffer write (
        prepare_cache d f (offset / bytes_per_page)
          ((end + (bytes_per_page - 1)) % 2 ^ 64 / bytes_per_page)
          (if write then head_tail else all))
