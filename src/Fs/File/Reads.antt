-- ===== src/Fs/File/Reads.antt =====
-- src/fs/fs.hpp: reads through the page cache.
use klee.Base.{
  ℕ, ◌+◌, ◌-◌, ◌*◌, ◌/◌, ◌%◌, ◌^◌, ◌≤◌, ◌<◌, ◌≡◌, refl, sym, ap, ◌∙◌, ◌⊎◌, inl, inr, min, arith,
  true, false, some, ltb, ◌==◌, Bool-cases, Code, is_error, ok, err, if◌then◌else◌,
}
use klee.Fs.Cache.{bytes_per_page}
use klee.Fs.Cache.Flat.{copy_pages-IsCopied}
use klee.Fs.File.{
  CacheProvider, Driver, FileOperator, all, prepare_cache, copied, copy_prepared, copy, Copied,
}
use klee.Fs.File.Prepare.{IsReading, IsCoherent, IsPrepared, no_error, prepare_cache-IsPrepared}

module _ (d : Driver) (f : FileOperator) (file : ℕ → ℕ) (small : f.blocksize_exp ≤ 12)
    (reading : IsReading d f.blocksize_exp file) where
  -- What a read comes to: an error and no change of the buffer, or the file's bytes.
  abbrev pub ReadsFile : ℕ → ℕ → (ℕ → ℕ) → Copied → Type 0
  ReadsFile offset size buffer (r, c, buffer') =
      ((e : Code) × (r ≡ err e) × (buffer' ≡ buffer))
      ⊎ ((r ≡ ok size)
          × ((j : ℕ) → buffer' j ≡ (if ltb j size then file (offset + j) else buffer j)))

  copy_prepared-ReadsFile :
      (offset size begin end : ℕ) (buffer : ℕ → ℕ) (c : CacheProvider) (r : Code × CacheProvider)
      → IsPrepared f.filesize file c begin end r
      → offset + size ≤ f.filesize
      → begin * bytes_per_page ≤ offset
      → offset + size ≤ end * bytes_per_page
      → f.filesize + bytes_per_page < 2 ^ 64
      → (x : Copied) × (copy_prepared f offset size buffer false r ≡ some x)
        × IsCoherent f.filesize file x.1
        × ReadsFile offset size buffer x
  copy_prepared-ReadsFile offset size begin end buffer c r v fits lo hi limit =
      elim (Bool-cases (is_error r.0)) [
        | inl e ↦ rw e ((err r.0, r.1, buffer), refl, v.coherent, inl (r.0, refl, refl))
        | inr e ↦
            let (t, done, moved) = copy_pages-IsCopied false offset size r.1.frames buffer in
            let whole : min size ((f.filesize + 2 ^ 64 - offset) % 2 ^ 64) ≡ size =
              omega (arith, fits, limit) in
            rw (e, whole)
              (
                (ok size, record r.1 { frames = t.frames }, t.buffer),
                ap (copied size r.1) done,
                record {
                  page_bytes =
                      λ p i h lt below. moved.stored p i lt ∙ v.coherent.page_bytes p i h lt below;
                },
                inr (
                  refl,
                  λ j. moved.loaded j ∙ (elim (Bool-cases (ltb j size)) [
                    | inr past ↦ rw past refl
                    | inl inside ↦
                        let k = offset + j in
                        let below : j < size = ground (arith, inside) in
                        let index : k / 4096 * 4096 + k % 4096 ≡ k = omega arith in
                        rw inside (
                          v.coherent.page_bytes (k / 4096) (k % 4096)
                            (v.ready (k / 4096) (no_error r.0 e) (omega (arith, lo))
                              (omega (arith, hi, below)))
                            (omega arith) (omega (arith, below, fits))
                          ∙ ap file index)
                  ]),
                ),
              )
      ]

-- Reading a cached file whose blocks are no larger than a page, within its size, which is below
-- 2 ^ 64 - 4096: if the driver's successful reads give the file's bytes, neither its reads nor the
-- allocation of a page fail with the code Success, and the pages that are in the cache hold the file's
-- bytes, then copy returns, with an error and the buffer as it was, or with all bytes that were asked
-- for in the buffer, which are the file's; and the pages in the cache then hold the file's bytes.
pub copy-ReadsFile :
    (d : Driver) (f : FileOperator) (file : ℕ → ℕ) (offset size : ℕ) (buffer : ℕ → ℕ)
    (small : f.blocksize_exp ≤ 12) (reading : IsReading d f.blocksize_exp file)
    → f.cache ≡ true
    → IsCoherent f.filesize file f.cache_provider
    → offset + size ≤ f.filesize
    → f.filesize + bytes_per_page < 2 ^ 64
    → (x : Copied) × (copy d f offset size buffer false ≡ some x)
      × IsCoherent f.filesize file x.1
      × ReadsFile d f file small reading offset size buffer x
unfolding copy prepare_cache
copy-ReadsFile d f file offset size buffer small reading cached v fits limit =
    let sum : (offset + size) % 2 ^ 64 ≡ offset + size = omega (arith, fits, limit) in
    let up : (offset + size + (bytes_per_page - 1)) % 2 ^ 64 ≡ offset + size + 4095 =
      omega (arith, fits, limit) in
    let within_size : ltb f.filesize (offset + size) ≡ false = ground (arith, fits) in
    elim (Bool-cases (size == 0)) [
      | inl empty ↦
          let nothing : size ≡ 0 = ground (arith, empty) in
          rw (cached, empty)
            (
              (ok 0, f.cache_provider, buffer),
              refl,
              v,
              inr (ap ok (sym nothing), λ j. rw nothing (ground arith)),
            )
      | inr some_bytes ↦
          let begin = offset / 4096 in
          let end = (offset + size + 4095) / 4096 in
          let (c, prepared) =
            prepare_cache-IsPrepared d f file small reading begin end v (omega arith) in
          rw (cached, some_bytes, sum, within_size, up)
            (copy_prepared-ReadsFile d f file small reading offset size begin end buffer c
              (prepare_cache d f begin end all) prepared fits (omega arith) (omega arith) limit)
    ]
