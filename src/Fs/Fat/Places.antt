-- ===== src/Fs/Fat/Places.antt =====
-- src/fs/drivers/fat/driver.hpp: the places of a directory that its handles remember.
use klee.Base.{
  ℕ, ◌+◌, ◌^◌, ◌≤◌, ◌<◌, ◌≡◌, ◌≢◌, refl, sym, ap, ◌∙◌, subst, true, some, arith, ltb, ◌==◌, ==_ne,
  if◌then◌else◌, Code, ok, err, end_of_file, Bool-cases, inl, inr, ltb_false→le, le→ltb_false,
  lt→ltb, ltb→lt, ℕ_discrete,
}
use klee.Fs.Fat.{Volume}
use klee.Fs.Fat.Directory.{
  DirectoryInfo, HandleDirectoryData, eof_cluster, LongName, no_long_name, Outcome, is_end, scan,
  readdir_info, from_start,
}
use klee.Fs.Fat.Rereading.{Follows, at_end, goes_on, failed_ok, scan-Resumes}

onward :
    {v : Volume} {m g : ℕ} {l : LongName} {h : HandleDirectoryData} {o : Outcome}
    → Follows v m g l h o
    → h.current_cluster ≢ eof_cluster
    → o ≡ scan g v m l h
onward (at_end e z i q) inner = absurd (inner i)
onward (goes_on i q) inner = q

-- A place in the directory that starts at `cluster`.
pub record IsPlace (v : Volume) (cluster : ℕ) (h : HandleDirectoryData) : Type 0 where
  pub steps : ℕ
  pub follows :
      (m g : ℕ) (l : LongName)
      → h.current_index ≤ m
      → Follows v m g l h (scan (steps + g) v m l (from_start cluster))

-- The same outcome, or twice that nothing follows.
pub data Agrees (o o' : Outcome) : Type 0 where
  same : o ≡ o' → Agrees o o'
  both_end :
      (e e' : Code)
      → is_end e ≡ true
      → is_end e' ≡ true
      → o ≡ some (err e)
      → o' ≡ some (err e')
      → Agrees o o'

-- The handles that readdirs of a directory leave: the one that was opened, and the one after each
-- readdir that found an entry.
pub data IsLeft (v : Volume) (cluster : ℕ) : HandleDirectoryData → Type 0 where
  opened : IsLeft v cluster (from_start cluster)
  reads :
      {h' : HandleDirectoryData} (fuel n : ℕ) (h : HandleDirectoryData) (info : DirectoryInfo)
      → IsLeft v cluster h
      → n + 1 < 2 ^ 16
      → readdir_info fuel v cluster h n ≡ some (ok (info, h'))
      → IsLeft v cluster h'

module _ (v : Volume) (cluster : ℕ) (inside : cluster ≢ eof_cluster) where
  anew :
      (fuel n : ℕ)
      → readdir_info fuel v cluster (from_start cluster) n
        ≡ scan fuel v n no_long_name (from_start cluster)
  unfolding readdir_info
  anew fuel n = rw (==_ne cluster eof_cluster inside, le→ltb_false n 0 (omega arith)) refl

  ahead :
      (fuel n : ℕ) (h : HandleDirectoryData)
      → h.current_cluster ≢ eof_cluster
      → h.current_index ≤ n
      → readdir_info fuel v cluster h n ≡ scan fuel v n no_long_name h
  unfolding readdir_info
  ahead fuel n h i l =
      rw (==_ne h.current_cluster eof_cluster i, le→ltb_false n h.current_index l) refl

  back :
      (fuel n : ℕ) (h : HandleDirectoryData)
      → h.current_cluster ≢ eof_cluster
      → n < h.current_index
      → readdir_info fuel v cluster h n ≡ scan fuel v n no_long_name (from_start cluster)
  unfolding readdir_info
  back fuel n h i l = rw (==_ne h.current_cluster eof_cluster i, lt→ltb n h.current_index l) refl

  at_eof :
      (fuel n : ℕ) (h : HandleDirectoryData)
      → h.current_cluster ≡ eof_cluster
      → readdir_info fuel v cluster h n ≡ some (err end_of_file)
  unfolding readdir_info
  at_eof fuel n h i =
      ap
        (λ b.
          if b
          then some (err end_of_file)
          else (if ltb n h.current_index
              then scan fuel v n no_long_name (from_start cluster)
              else scan fuel v n no_long_name h))
        (ap (λ c. c == eof_cluster) i)

  pub from_start-IsPlace : IsPlace v cluster (from_start cluster)
  from_start-IsPlace = record {
    steps = 0;
    follows = λ m g l low.
        let e : 0 + g ≡ g = omega arith in
        goes_on inside (ap (λ k. scan k v m l (from_start cluster)) e);
  }

  -- In a directory that starts at a cluster other than the end's number, a readdir that finds an entry
  -- with an index below 2^16 - 1, by a handle that is a place of the directory, leaves a handle that is
  -- a place again: a walk from the directory's start for an index not below the handle's comes to the
  -- handle's place after a fixed number of steps, or says there that nothing follows, and the handle
  -- then remembers the end.
  pub readdir_info-IsPlace :
      (fuel n : ℕ) (h h' : HandleDirectoryData) (info : DirectoryInfo)
      → n + 1 < 2 ^ 16
      → IsPlace v cluster h
      → readdir_info fuel v cluster h n ≡ some (ok (info, h'))
      → IsPlace v cluster h'
  readdir_info-IsPlace fuel n h h' info small p q =
      elim (ℕ_discrete h.current_cluster eof_cluster) [
        | yes e ↦ absurd (failed_ok (sym (at_eof fuel n h e) ∙ q))
        | no inner ↦ elim (Bool-cases (ltb n h.current_index)) [
          | inl lower ↦
              let r =
                scan-Resumes v fuel n no_long_name (from_start cluster) h' info small
                  (sym (back fuel n h inner (ltb→lt n h.current_index lower)) ∙ q) (omega arith)
                  inside in
              record {
                steps = r.steps;
                follows = λ m g l low. r.follows m g l (omega (arith, low, r.index));
              }
          | inr higher ↦
              let early = ltb_false→le n h.current_index higher in
              let r =
                scan-Resumes v fuel n no_long_name h h' info small
                  (sym (ahead fuel n h inner early) ∙ q) early inner in
              record {
                steps = p.steps + r.steps;
                follows = λ m g l low.
                    let late : n < m = omega (arith, low, r.index) in
                    let e : p.steps + r.steps + g ≡ p.steps + (r.steps + g) = omega arith in
                    subst (Follows v m g l h')
                      (sym (
                        ap (λ k. scan k v m l (from_start cluster)) e
                        ∙ onward (p.follows m (r.steps + g) l (omega (arith, late, early))) inner))
                      (r.follows m g l late);
              }
        ]
      ]

  -- A place answers for an index not below its own what a fresh handle answers.
  place-Agrees :
      (n : ℕ) (h : HandleDirectoryData)
      → IsPlace v cluster h
      → h.current_index ≤ n
      → (k : ℕ) × ((g : ℕ)
          → Agrees
              (readdir_info (k + g) v cluster (from_start cluster) n)
              (readdir_info g v cluster h n))
  place-Agrees n h p early = (
    p.steps,
    λ g.
        agreed g (scan (p.steps + g) v n no_long_name (from_start cluster)) (anew (p.steps + g) n)
          (p.follows n g no_long_name early),
  )
    where
      agreed :
          (g : ℕ) {o' : Outcome} (o : Outcome)
          → o' ≡ o
          → Follows v n g no_long_name h o
          → Agrees o' (readdir_info g v cluster h n)
      agreed g o a (at_end e z i q) = both_end e end_of_file z refl (a ∙ q) (at_eof g n h i)
      agreed g o a (goes_on i q) = same (a ∙ q ∙ sym (ahead g n h i early))

  -- Any sequence of readdirs that find their entries, of any indices, by one handle.
  IsLeft-IsPlace : (h : HandleDirectoryData) → IsLeft v cluster h → IsPlace v cluster h
  IsLeft-IsPlace h opened = from_start-IsPlace
  IsLeft-IsPlace h (reads fuel n h0 info left small q) =
      readdir_info-IsPlace fuel n h0 h info small (IsLeft-IsPlace h0 left) q

  -- In a directory that starts at a cluster other than the end's number, a handle that was opened and
  -- then used for any number of readdirs that found their entries, of any indices below 2^16 - 1 and in
  -- any order, answers for an index not below its own what a fresh handle answers with a fixed number
  -- of steps more: the same entry and the same handle afterwards or the same error, or both say that
  -- nothing follows.
  pub readdir_info-Agrees :
      (n : ℕ) (h : HandleDirectoryData)
      → IsLeft v cluster h
      → h.current_index ≤ n
      → (k : ℕ) × ((g : ℕ)
          → Agrees
              (readdir_info (k + g) v cluster (from_start cluster) n)
              (readdir_info g v cluster h n))
  readdir_info-Agrees n h left early = place-Agrees n h (IsLeft-IsPlace h left) early
