-- ===== src/Fs/Fat/Entry.antt =====
-- src/fs/drivers/fat/fat.hpp and src/util/encoding.hpp: entries of a directory, from their 32 bytes.
use klee.Base.{
  ℕ, zero, suc, ◌+◌, ◌*◌, ◌/◌, ◌%◌, Bool, true, false, not, List, [], ◌∷◌, ◌++◌, get_or, map, ◌==◌,
  if◌then◌else◌,
}

abbrev pub byte_of : List ℕ → ℕ → ℕ
byte_of b i = get_or b i 0

abbrev pub half_of : List ℕ → ℕ → ℕ
half_of b i = byte_of b i + 256 * byte_of b (i + 1)

abbrev pub slice : List ℕ → ℕ → ℕ → List ℕ
slice b i zero = []
slice b i (suc n) = byte_of b i ∷ slice b (i + 1) n

abbrev pub halves : List ℕ → ℕ → ℕ → List ℕ
halves b i zero = []
halves b i (suc n) = half_of b i ∷ halves b (i + 2) n

-- DirectoryEntry, the fields that the driver reads
pub record DirectoryEntry : Type 0 where
  pub name : List ℕ
  pub attr : ℕ
  pub first_cluster_high : ℕ
  pub first_cluster_low : ℕ
  pub file_size : ℕ

abbrev pub directory_entry : List ℕ → DirectoryEntry
directory_entry b = record {
  name = slice b 0 11;
  attr = byte_of b 11;
  first_cluster_high = half_of b 20;
  first_cluster_low = half_of b 26;
  file_size = half_of b 28 + 65536 * half_of b 30;
}

abbrev pub checksum_from : ℕ → List ℕ → ℕ
checksum_from sum [] = sum
checksum_from sum (c ∷ cs) = checksum_from ((sum / 2 + sum * 128 + c) % 256) cs

unfoldable pub calc_checksum : DirectoryEntry → ℕ
calc_checksum d = checksum_from 0 d.name

abbrev pub until_space : List ℕ → List ℕ
until_space [] = []
until_space (c ∷ cs) = let rest = c ∷ until_space cs in if c == 32 then [] else rest

abbrev pub with_ext : List ℕ → List ℕ → List ℕ
with_ext base [] = base
with_ext base (c ∷ cs) = base ++ 46 ∷ c ∷ cs

unfoldable pub to_string : DirectoryEntry → List ℕ
to_string d = with_ext (until_space (slice d.name 0 8)) (until_space (slice d.name 8 3))

-- LFNEntry
pub record LfnEntry : Type 0 where
  pub number : ℕ
  pub checksum : ℕ
  pub name1 : List ℕ
  pub name2 : List ℕ
  pub name3 : List ℕ

abbrev pub lfn_entry : List ℕ → LfnEntry
lfn_entry b = record {
  number = byte_of b 0;
  checksum = byte_of b 13;
  name1 = halves b 1 5;
  name2 = halves b 14 6;
  name3 = halves b 28 2;
}

-- The helper: the text so far, and whether it ended.
abbrev pub append_name : List ℕ → List ℕ → Bool × List ℕ
append_name r [] = (false, r)
append_name r (c ∷ cs) =
    let more = append_name (r ++ c ∷ []) cs in if not (c == 0) then more else (true, r)

abbrev pub unless_ended : Bool × List ℕ → List ℕ → List ℕ
unless_ended (ended, r) more = if ended then r else more

unfoldable pub lfn_to_string : LfnEntry → List ℕ
lfn_to_string n =
    let first = append_name [] n.name1 in
    let second = append_name first.1 n.name2 in
    unless_ended first (unless_ended second (append_name second.1 n.name3).1)

-- Each character becomes a char.
abbrev pub u16tou8 : List ℕ → List ℕ
u16tou8 str = map (λ c. c % 256) str
