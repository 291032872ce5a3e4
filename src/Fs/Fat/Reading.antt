-- ===== src/Fs/Fat/Reading.antt =====
-- src/fs/drivers/fat/driver.hpp: reads of a file, against the clusters of its chain.
use klee.Base.{
  ℕ, zero, suc, ◌+◌, ◌%◌, ◌^◌, ◌≡◌, refl, ap, ◌∙◌, true, false, List, [], ◌++◌, Code, Result, ok,
  err, is_error, Bool-cases, inl, inr, ◌==◌, length,
}
use klee.Fs.Fat.{
  Volume, FopData, HandleData, walk, bind, next_of, next_by, masked, got, sought,
  seek_cluster_chain, copy_cluster, blocksize_of, device_io, read_fat_entry, get_next_cluster,
  read_blocks, read, unless_error, copied_block, finished, get_fat_entry_type, FatEntryType,
  used_entry, last_entry, free_entry, reserved_entry, bad_entry,
}
use klee.Fs.Fat.Chain.{IsAt, seek_cluster_chain-walk, seek_cluster_chain-IsAt}

-- The clusters of a file from number `block` on, one after the other, or the first error.
abbrev pub then_copy : Volume → Result ℕ → Result (List ℕ)
then_copy v (err e) = err e
then_copy v (ok cluster) = copy_cluster v cluster 0 (blocksize_of v) [] false

abbrev pub join : Result (List ℕ) → Result (List ℕ) → Result (List ℕ)
join (err e) rest = err e
join (ok bytes) (err e) = err e
join (ok bytes) (ok more) = ok (bytes ++ more)

abbrev pub contents : Volume → FopData → ℕ → ℕ → Result (List ℕ)
contents v file block zero = ok []
contents v file block (suc count) =
    let rest = contents v file (block + 1) count in
    join (then_copy v (walk v (block % 2 ^ 32) file.cluster)) rest

abbrev pub counted : ℕ → Result (List ℕ) → Result (ℕ × List ℕ)
counted count (err e) = err e
counted count (ok bytes) = ok (count, bytes)

-- What is not a value carries an error, not Success.
unfoldable pub IsFailure {ℓ} : {A : Type ℓ} → Result A → Type 0
IsFailure (ok a) = Unit
IsFailure (err e) = is_error e ≡ true

-- Handle::read returns a number or an error.
unfoldable pub IsReporting : Volume → Type 0
IsReporting v = (pos size : ℕ) → IsFailure (v.device.read pos size)

got-IsFailure : (size : ℕ) (r : Result (List ℕ)) → IsFailure r → IsFailure (got size r)
unfolding IsFailure
got-IsFailure size (err e) f = f
got-IsFailure size (ok bytes) f = elim (Bool-cases (length bytes == size)) [
  | inl h ↦ rw h tt
  | inr h ↦ rw h refl
]

masked-IsFailure : (r : Result (List ℕ)) → IsFailure r → IsFailure (masked r)
unfolding IsFailure
masked-IsFailure (err e) f = rw f f
masked-IsFailure (ok bytes) f = tt

next_by-IsFailure : (fate : ℕ) (t : FatEntryType) → IsFailure (next_by fate t)
unfolding IsFailure
next_by-IsFailure fate used_entry = tt
next_by-IsFailure fate last_entry = refl
next_by-IsFailure fate free_entry = refl
next_by-IsFailure fate reserved_entry = refl
next_by-IsFailure fate bad_entry = refl

next_of-IsFailure : (r : Result ℕ) → IsFailure r → IsFailure (next_of r)
unfolding IsFailure
next_of-IsFailure (err e) f = f
next_of-IsFailure (ok fate) f = next_by-IsFailure fate (get_fat_entry_type fate)

get_next_cluster-IsFailure :
    (v : Volume) → IsReporting v → (cluster : ℕ) → IsFailure (get_next_cluster v cluster)
unfolding get_next_cluster read_fat_entry device_io IsReporting
get_next_cluster-IsFailure v f cluster =
    next_of-IsFailure (read_fat_entry v cluster)
      (masked-IsFailure (device_io v _ 4 [] false) (got-IsFailure 4 (v.device.read _ 4) (f _ 4)))

bind-IsFailure :
    (r : Result ℕ) (g : ℕ → Result ℕ)
    → IsFailure r
    → ((c : ℕ) → IsFailure (g c))
    → IsFailure (bind r g)
unfolding IsFailure
bind-IsFailure (err e) g f h = f
bind-IsFailure (ok c) g f h = h c

walk-IsFailure :
    (v : Volume) → IsReporting v → (steps cluster : ℕ) → IsFailure (walk v steps cluster)
unfolding IsFailure
walk-IsFailure v f zero cluster = tt
walk-IsFailure v f (suc steps) cluster =
    bind-IsFailure (get_next_cluster v cluster) (λ c. walk v steps c)
      (get_next_cluster-IsFailure v f cluster) (walk-IsFailure v f steps)

abbrev pub bytes_of : Result (List ℕ × HandleData) → Result (List ℕ)
bytes_of (err e) = err e
bytes_of (ok (bytes, h)) = ok bytes

bytes_of-copied_block :
    (c : Result (List ℕ)) (rest : Result (List ℕ × HandleData))
    → bytes_of (copied_block c rest) ≡ join c (bytes_of rest)
bytes_of-copied_block (err e) rest = refl
bytes_of-copied_block (ok bytes) (err e) = refl
bytes_of-copied_block (ok bytes) (ok (more, h)) = refl

one_block :
    (v : Volume) (h : HandleData) (number : ℕ) (w : Result ℕ) (rest : Result (List ℕ × HandleData))
    → IsFailure w
    → bytes_of (
        unless_error (sought h number w).0 (
          copied_block
            (copy_cluster v (sought h number w).1.current_cluster 0 (blocksize_of v) [] false)
            rest))
      ≡ join (then_copy v w) (bytes_of rest)
unfolding IsFailure
one_block v h number (err e) rest f = rw f refl
one_block v h number (ok c) rest f =
    bytes_of-copied_block (copy_cluster v c 0 (blocksize_of v) [] false) rest

read_blocks-contents :
    (v : Volume) (file : FopData) (h : HandleData) (block count : ℕ)
    → IsReporting v
    → IsAt v file h
    → bytes_of (read_blocks v file h block count) ≡ contents v file block count
unfolding read_blocks
read_blocks-contents v file h block zero f at = refl
read_blocks-contents v file h block (suc count) f at =
    let number = block % 2 ^ 32 in
    let moved = (seek_cluster_chain v file h number).1 in
    let rest = read_blocks v file moved (block + 1) count in
    ap
      (λ s. bytes_of (
        unless_error s.0
          (copied_block (copy_cluster v s.1.current_cluster 0 (blocksize_of v) [] false) rest)))
      (seek_cluster_chain-walk v file h number at)
    ∙ one_block v h number (walk v number file.cluster) rest
        (walk-IsFailure v f number file.cluster)
    ∙ ap (join (then_copy v (walk v number file.cluster))) (
        read_blocks-contents v file moved (block + 1) count f
          (seek_cluster_chain-IsAt v file h number at))

AllAt : Volume → FopData → Result (List ℕ × HandleData) → Type 0
AllAt v file (err e) = Unit
AllAt v file (ok (bytes, h)) = IsAt v file h

copied_block-AllAt :
    (v : Volume) (file : FopData) (c : Result (List ℕ)) (rest : Result (List ℕ × HandleData))
    → AllAt v file rest
    → AllAt v file (copied_block c rest)
unfolding AllAt
copied_block-AllAt v file (err e) rest at = tt
copied_block-AllAt v file (ok bytes) (err e) at = tt
copied_block-AllAt v file (ok bytes) (ok (more, h)) at = at

unless_error-AllAt :
    (v : Volume) (file : FopData) (e : Code) (rest : Result (List ℕ × HandleData))
    → AllAt v file rest
    → AllAt v file (unless_error e rest)
unfolding AllAt
unless_error-AllAt v file e rest at = elim (Bool-cases (is_error e)) [
  | inl h ↦ rw h tt
  | inr h ↦ rw h at
]

read_blocks-AllAt :
    (v : Volume) (file : FopData) (h : HandleData) (block count : ℕ)
    → IsAt v file h
    → AllAt v file (read_blocks v file h block count)
unfolding read_blocks AllAt
read_blocks-AllAt v file h block zero at = at
read_blocks-AllAt v file h block (suc count) at =
    let (e, moved) = seek_cluster_chain v file h (block % 2 ^ 32) in
    let rest = read_blocks v file moved (block + 1) count in
    let c = copy_cluster v moved.current_cluster 0 (blocksize_of v) [] false in
    unless_error-AllAt v file e (copied_block c rest) (
      copied_block-AllAt v file c rest (
        read_blocks-AllAt v file moved (block + 1) count
          (seek_cluster_chain-IsAt v file h (block % 2 ^ 32) at)))

-- A read of `count` blocks, and the handle it leaves.
pub record IsRead (v : Volume) (file : FopData) (block count : ℕ)
    (r : Result (ℕ × List ℕ) × HandleData) : Type 0 where
  pub result : r.0 ≡ counted count (contents v file block count)
  pub place : IsAt v file r.1

-- A read gives the clusters of the file's chain from number `block` on, one after the other, whatever
-- the handle read before, or the first error that the chain or a cluster gives. In both cases the
-- handle remembers a place of the file's chain. The volume's read
-- never reports Success as an error, and the handle is at a place of the chain.
pub read-IsRead :
    (v : Volume) (file : FopData) (h : HandleData) (block count : ℕ)
    → IsReporting v
    → IsAt v file h
    → IsRead v file block count (read v file h block count)
unfolding read AllAt
read-IsRead v file h block count f at =
    finished_read (read_blocks v file h block count)
      (read_blocks-contents v file h block count f at) (read_blocks-AllAt v file h block count at)
  where
    finished_read :
        (r : Result (List ℕ × HandleData))
        → bytes_of r ≡ contents v file block count
        → AllAt v file r
        → IsRead v file block count (finished h count r)
    finished_read (err e) q a = record { result = ap (counted count) q; place = at }
    finished_read (ok (bytes, h')) q a = record { result = ap (counted count) q; place = a }
