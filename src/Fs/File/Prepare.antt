-- ===== src/Fs/File/Prepare.antt =====
-- src/fs/fs.hpp: the pages of a range after prepare_cache.
use klee.Base.{
  none, some, ℕ, zero, suc, ◌+◌, ◌-◌, ◌*◌, ◌/◌, ◌^◌, ◌≤◌, ◌<◌, ◌≡◌, ◌≢◌, refl, ap, ◌∙◌, inl, inr,
  min, arith, Bool, true, false, ltb, ◌==◌, ==_refl, ==_ne, ℕ_discrete, Bool-cases, Code, success,
  is_error, Result, ok, err, if◌then◌else◌,
}
use klee.Fs.Cache.{bytes_per_page}
use klee.Fs.File.{
  Prepared, or_returned, State, uninitialized, clean, dirty, CacheProvider, Driver, FileOperator,
  all, set_page, keep_page, fill_page, prepare_page, prepare_pages, prepare_cache, blocks_read,
}

-- The blocks read for page `p` cover its part of the file.
blocks_cover :
    (exp p i filesize : ℕ)
    → exp ≤ 12
    → i < 4096
    → p * 4096 + i < filesize
    → (i
        < min (4096 / 2 ^ exp) ((filesize + 2 ^ exp - 1) / 2 ^ exp - p * (4096 / 2 ^ exp))
          * 2 ^ exp)
      × (p * (4096 / 2 ^ exp) * 2 ^ exp + i ≡ p * 4096 + i)
blocks_cover zero p i filesize h a b = (omega arith, omega arith)
blocks_cover (suc zero) p i filesize h a b = (omega arith, omega arith)
blocks_cover (suc (suc zero)) p i filesize h a b = (omega arith, omega arith)
blocks_cover (suc (suc (suc zero))) p i filesize h a b = (omega arith, omega arith)
blocks_cover (suc (suc (suc (suc zero)))) p i filesize h a b = (omega arith, omega arith)
blocks_cover (suc (suc (suc (suc (suc zero))))) p i filesize h a b = (omega arith, omega arith)
blocks_cover (suc (suc (suc (suc (suc (suc zero)))))) p i filesize h a b =
    (omega arith, omega arith)
blocks_cover (suc (suc (suc (suc (suc (suc (suc zero))))))) p i filesize h a b =
    (omega arith, omega arith)
blocks_cover (suc (suc (suc (suc (suc (suc (suc (suc zero)))))))) p i filesize h a b =
    (omega arith, omega arith)
blocks_cover (suc (suc (suc (suc (suc (suc (suc (suc (suc zero))))))))) p i filesize h a b =
    (omega arith, omega arith)
blocks_cover (suc (suc (suc (suc (suc (suc (suc (suc (suc (suc zero)))))))))) p i filesize h a b =
    (omega arith, omega arith)
blocks_cover (suc (suc (suc (suc (suc (suc (suc (suc (suc (suc (suc zero))))))))))) p i filesize h a
      b =
    (omega arith, omega arith)
blocks_cover (suc (suc (suc (suc (suc (suc (suc (suc (suc (suc (suc (suc zero)))))))))))) p i
      filesize h a b =
    (omega arith, omega arith)
blocks_cover (suc (suc (suc (suc (suc (suc (suc (suc (suc (suc (suc (suc (suc e))))))))))))) p i
      filesize h a b =
    absurd (omega arith)

block_fits : (exp : ℕ) → exp ≤ 12 → ltb 4096 (2 ^ exp) ≡ false
block_fits zero h = refl
block_fits (suc zero) h = refl
block_fits (suc (suc zero)) h = refl
block_fits (suc (suc (suc zero))) h = refl
block_fits (suc (suc (suc (suc zero)))) h = refl
block_fits (suc (suc (suc (suc (suc zero))))) h = refl
block_fits (suc (suc (suc (suc (suc (suc zero)))))) h = refl
block_fits (suc (suc (suc (suc (suc (suc (suc zero))))))) h = refl
block_fits (suc (suc (suc (suc (suc (suc (suc (suc zero)))))))) h = refl
block_fits (suc (suc (suc (suc (suc (suc (suc (suc (suc zero))))))))) h = refl
block_fits (suc (suc (suc (suc (suc (suc (suc (suc (suc (suc zero)))))))))) h = refl
block_fits (suc (suc (suc (suc (suc (suc (suc (suc (suc (suc (suc zero))))))))))) h = refl
block_fits (suc (suc (suc (suc (suc (suc (suc (suc (suc (suc (suc (suc zero)))))))))))) h = refl
block_fits (suc (suc (suc (suc (suc (suc (suc (suc (suc (suc (suc (suc (suc e))))))))))))) h =
    absurd (omega arith)

abbrev pub is_initialized : State → Bool
is_initialized uninitialized = false
is_initialized clean = true
is_initialized dirty = true

-- A successful read of blocks puts the file's bytes into the buffer, and neither a read nor an
-- allocation fails with the code for success.
pub record IsReading (d : Driver) (exp : ℕ) (file : ℕ → ℕ) : Type 0 where
  pub block_bytes :
      (block count : ℕ) (buffer : ℕ → ℕ) (k i : ℕ)
      → (d.read block count buffer).0 ≡ ok k
      → i < count * 2 ^ exp
      → (d.read block count buffer).1 i ≡ file (block * 2 ^ exp + i)
  pub read_fails : (block count : ℕ) (buffer : ℕ → ℕ) → (d.read block count buffer).0 ≢ err success
  pub allocation_fails : (p : ℕ) → d.allocate_single p ≢ err success

-- The pages in the cache hold the file's bytes.
pub record IsCoherent (filesize : ℕ) (file : ℕ → ℕ) (c : CacheProvider) : Type 0 where
  pub page_bytes :
      (p i : ℕ)
      → is_initialized (c.states p) ≡ true
      → i < bytes_per_page
      → p * bytes_per_page + i < filesize
      → c.frames p i ≡ file (p * bytes_per_page + i)

-- After preparing the pages from `p` to before `q`.
pub record IsPrepared (filesize : ℕ) (file : ℕ → ℕ) (c : CacheProvider) (p q : ℕ)
    (r : Code × CacheProvider) : Type 0 where
  pub coherent : IsCoherent filesize file r.1
  pub ready : (i : ℕ) → r.0 ≡ success → p ≤ i → i < q → is_initialized (r.1.states i) ≡ true
  pub kept : (i : ℕ) → is_initialized (c.states i) ≡ true → is_initialized (r.1.states i) ≡ true

pub no_error : (e : Code) → is_error e ≡ false → e ≡ success
no_error success h = refl
no_error e h = absurd (cc)

code_inj : {e e' : Code} → some e ≡ some e' → e ≡ e'
code_inj {e} q = ap (λ o. elim o [ some x ↦ x | none ↦ e ]) q

module _ (d : Driver) (f : FileOperator) (file : ℕ → ℕ) (small : f.blocksize_exp ≤ 12)
    (reading : IsReading d f.blocksize_exp file) where
  abbrev Page : CacheProvider → ℕ → Prepared → Type 0
  Page c p r =
      (r.0 ≢ some success) × IsPrepared f.filesize file c p (p + 1) (or_returned r (success, r.1))

  set_page-IsPrepared :
      (c : CacheProvider) (p : ℕ) (frame : ℕ → ℕ)
      → IsCoherent f.filesize file c
      → ((i : ℕ)
          → i < bytes_per_page
          → p * bytes_per_page + i < f.filesize
          → frame i ≡ file (p * bytes_per_page + i))
      → Page c p (none, set_page c p frame)
  set_page-IsPrepared c p frame v filled = (
    λ e. cc,
    record {
      coherent = record {
        page_bytes = λ q i ready lt below. elim (ℕ_discrete q p) [
          | yes e ↦ rw (e, ==_refl p) (filled i lt (rw e at below))
          | no e ↦ rw (==_ne q p e) (v.page_bytes q i (rw (==_ne q p e) at ready) lt below)
        ];
      };
      ready = λ i e lo hi. let same : i ≡ p = omega (arith, lo, hi) in rw (same, ==_refl p) refl;
      kept = λ i h. elim (Bool-cases (i == p)) [ inl e ↦ rw e refl | inr e ↦ rw e h ];
    },
  )

  fails-IsPrepared :
      (c : CacheProvider) (p : ℕ) (e : Code)
      → IsCoherent f.filesize file c
      → e ≢ success
      → Page c p (some e, c)
  fails-IsPrepared c p e v bad = (
    λ s. bad (code_inj s),
    record { coherent = v; ready = λ i s lo hi. absurd (bad s); kept = λ i h. h },
  )

  keep_page-IsPrepared :
      (c : CacheProvider) (p : ℕ) (r : Result ℕ × (ℕ → ℕ))
      → IsCoherent f.filesize file c
      → r.0 ≢ err success
      → ((k i : ℕ)
          → r.0 ≡ ok k
          → i < bytes_per_page
          → p * bytes_per_page + i < f.filesize
          → r.1 i ≡ file (p * bytes_per_page + i))
      → Page c p (keep_page c p r)
  keep_page-IsPrepared c p (err e, frame) v bad filled =
      fails-IsPrepared c p e v λ s. bad (ap err s)
  keep_page-IsPrepared c p (ok n, frame) v bad filled =
      set_page-IsPrepared c p frame v λ i lt below. filled n i refl lt below

  fill_page-IsPrepared :
      (c : CacheProvider) (p : ℕ) (r : Result (ℕ → ℕ))
      → IsCoherent f.filesize file c
      → r ≢ err success
      → Page c p (fill_page d f true c p r)
  fill_page-IsPrepared c p (err e) v bad = fails-IsPrepared c p e v λ s. bad (ap err s)
  fill_page-IsPrepared c p (ok frame) v bad =
      let block = p * (4096 / 2 ^ f.blocksize_exp) in
      elim (Bool-cases (ltb (p * 4096) f.filesize)) [
        | inl inside ↦ rw inside (
            keep_page-IsPrepared c p (d.read block (blocks_read f p) frame) v
              (reading.read_fails block (blocks_read f p) frame)
              λ k i e lt below.
                let cover = blocks_cover f.blocksize_exp p i f.filesize small lt below in
                reading.block_bytes block (blocks_read f p) frame k i e cover.0 ∙ ap file cover.1)
        | inr outside ↦
            rw outside (
              set_page-IsPrepared c p frame v λ i lt below. absurd (ground (arith, outside, below)))
      ]

  prepare_page-IsPrepared :
      (c : CacheProvider) (p : ℕ) (s : State)
      → IsCoherent f.filesize file c
      → c.states p ≡ s
      → Page c p (prepare_page d f true c p s)
  prepare_page-IsPrepared c p uninitialized v e =
      fill_page-IsPrepared c p (d.allocate_single p) v (reading.allocation_fails p)
  prepare_page-IsPrepared c p clean v e = (
    λ n. cc,
    record {
      coherent = v;
      ready = λ i s lo hi. let same : i ≡ p = omega (arith, lo, hi) in rw (same, e) refl;
      kept = λ i h. h;
    },
  )
  prepare_page-IsPrepared c p dirty v e = (
    λ n. cc,
    record {
      coherent = v;
      ready = λ i s lo hi. let same : i ≡ p = omega (arith, lo, hi) in rw (same, e) refl;
      kept = λ i h. h;
    },
  )

  -- A round, and the rounds after it where it goes on.
  then_rest :
      (c : CacheProvider) (p rounds : ℕ) (r : Prepared) (rest : Code × CacheProvider)
      → Page c p r
      → (IsCoherent f.filesize file r.1
          → IsPrepared f.filesize file r.1 (p + 1) (p + 1 + rounds) rest)
      → IsPrepared f.filesize file c p (p + suc rounds) (or_returned r rest)
  then_rest c p rounds (some e, c') rest (fails, first) later = record {
    coherent = first.coherent;
    ready = λ i s lo hi. absurd (fails (ap some s));
    kept = first.kept;
  }
  then_rest c p rounds (none, c') rest (fails, first) later =
      let others = later first.coherent in
      record {
        coherent = others.coherent;
        ready = λ i s lo hi. elim (ℕ_discrete i p) [
          | yes same ↦ others.kept i (first.ready i refl lo (omega (arith, same)))
          | no other ↦ others.ready i s (omega (arith, lo, other)) (omega (arith, hi))
        ];
        kept = λ i h. others.kept i (first.kept i h);
      }

  prepare_pages-IsPrepared :
      (begin end rounds p : ℕ) (c : CacheProvider)
      → IsCoherent f.filesize file c
      → IsPrepared f.filesize file c p (p + rounds) (prepare_pages d f all begin end rounds p c)
  unfolding prepare_pages
  prepare_pages-IsPrepared begin end zero p c v = record {
    coherent = v;
    ready = λ i s lo hi. absurd (omega (arith, lo, hi));
    kept = λ i h. h;
  }
  prepare_pages-IsPrepared begin end (suc rounds) p c v =
      let r = prepare_page d f true c p (c.states p) in
      let first = prepare_page-IsPrepared c p (c.states p) v refl in
      then_rest c p rounds r _ first λ v'. prepare_pages-IsPrepared begin end rounds (p + 1) r.1 v'

  pub prepare_cache-IsPrepared :
      (begin end : ℕ)
      → IsCoherent f.filesize file f.cache_provider
      → begin ≤ end
      → (c : CacheProvider) × IsPrepared f.filesize file c begin end
          (prepare_cache d f begin end all)
  unfolding prepare_cache
  prepare_cache-IsPrepared begin end v order =
      let c = f.cache_provider in
      let grown = if ltb c.capacity end then record c { capacity = end } else c in
      let v' : IsCoherent f.filesize file grown = elim (Bool-cases (ltb c.capacity end)) [
        | inl h ↦ rw h (record { page_bytes = v.page_bytes })
        | inr h ↦ rw h v
      ] in
      let to_end : begin + (end - begin) ≡ end = omega arith in
      rw (block_fits f.blocksize_exp small)
        (grown, rw to_end at (prepare_pages-IsPrepared begin end (end - begin) begin grown v'))
