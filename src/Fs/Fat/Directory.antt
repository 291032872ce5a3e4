-- ===== src/Fs/Fat/Directory.antt =====
-- src/fs/drivers/fat/driver.hpp: the walk over the entries of a directory. A handle remembers how far
-- it came; the two indices have 16 bits.
use klee.Base.{
  is_error, replicate, ℕ, zero, suc, ◌+◌, ◌*◌, ◌/◌, ◌%◌, ◌^◌, Bool, true, false, not, List, [],
  ◌++◌, Option, none, some, ltb, ◌==◌, if◌then◌else◌, Code, Result, ok, err, end_of_file,
  bad_checksum,
}
use klee.Fs.Fat.{Volume, copy_cluster, get_next_cluster}
use klee.Fs.Fat.Entry.{
  DirectoryEntry, directory_entry, byte_of, calc_checksum, to_string, lfn_entry, lfn_to_string,
  u16tou8,
}

pub record DirectoryInfo : Type 0 where
  pub cluster : ℕ
  pub size : ℕ
  pub name : List ℕ
  pub attribute : ℕ

pub record HandleDirectoryData : Type 0 where
  pub current_cluster : ℕ
  pub current_index : ℕ
  pub dentry_index : ℕ

abbrev pub eof_cluster : ℕ
eof_cluster = 268435448

-- HandleDirectoryData::from_fop_data
abbrev pub from_start : ℕ → HandleDirectoryData
from_start cluster = record { current_cluster = cluster; current_index = 0; dentry_index = 0 }

-- lfn_checksum and lfn
pub record LongName : Type 0 where
  pub checksum : ℕ
  pub text : List ℕ

abbrev pub no_long_name : LongName
no_long_name = record { checksum = 0; text = [] }

-- What one entry comes to: an end, an entry that is passed and may have been counted, or the one that
-- was looked for.
pub data Seen : Type 0 where
  ended : Code → Seen
  passed : Bool → LongName → Seen
  found : DirectoryInfo → Seen

abbrev pub long_part : List ℕ → LongName → Seen
long_part b l =
    let n = lfn_entry b in
    if n.number / 64 % 2 == 1
    then passed false (record { checksum = n.checksum; text = lfn_to_string n ++ l.text })
    else if not (n.checksum == l.checksum)
    then ended bad_checksum
    else passed false (record l { text = lfn_to_string n ++ l.text })

abbrev pub info_of : DirectoryEntry → LongName → DirectoryInfo
info_of d l = record {
  cluster = d.first_cluster_high * 65536 + d.first_cluster_low;
  size = d.file_size;
  name = if l.checksum == calc_checksum d then u16tou8 l.text else to_string d;
  attribute = d.attr;
}

-- `attr & LongName`
abbrev pub has_long_name : DirectoryEntry → Bool
has_long_name d = not (d.attr % 16 == 0)

unfoldable pub examine : List ℕ → Bool → LongName → Seen
examine b target l =
    let d = directory_entry b in
    if byte_of b 0 == 229
    then passed false l
    else if byte_of b 0 == 0
    then ended end_of_file
    else if has_long_name d
    then (if target then long_part b l else passed false l)
    else if target
    then found (info_of d l)
    else passed true l

abbrev pub bytes_per_cluster : Volume → ℕ
bytes_per_cluster v = v.bpb.bytes_per_sector * v.bpb.sectors_per_cluster

abbrev pub at_cluster : HandleDirectoryData → Result ℕ → Result HandleDirectoryData
at_cluster h (err e) = err e
at_cluster h (ok cluster) = ok (record h { current_cluster = cluster })

abbrev pub moved_to : HandleDirectoryData → Bool → HandleDirectoryData
moved_to h counted = record {
  current_cluster = h.current_cluster;
  current_index = if counted then (h.current_index + 1) % 2 ^ 16 else h.current_index;
  dentry_index = (h.dentry_index + 1) % 2 ^ 16;
}

-- On to the next entry, in the next cluster at the end of one.
unfoldable pub advance : Volume → HandleDirectoryData → Bool → Result HandleDirectoryData
advance v h counted =
    let moved = moved_to h counted in
    if moved.dentry_index % (bytes_per_cluster v / 32) == 0
    then at_cluster moved (get_next_cluster v h.current_cluster)
    else ok moved

abbrev pub Outcome : Type 0
Outcome = Option (Result (DirectoryInfo × HandleDirectoryData))

abbrev pub is_end : Code → Bool
is_end end_of_file = true
is_end _ = false

-- The entry was found. At the end of the chain the handle remembers that nothing follows.
abbrev pub give : DirectoryInfo → HandleDirectoryData → Result HandleDirectoryData → Outcome
give info h (ok h') = some (ok (info, h'))
give info h (err e) =
    if is_end e
    then some
        (ok (info, (let moved = moved_to h true in record moved { current_cluster = eof_cluster })))
    else some (err e)

abbrev pub go_on : (HandleDirectoryData → Outcome) → Result HandleDirectoryData → Outcome
go_on k (err e) = some (err e)
go_on k (ok h') = k h'

abbrev pub act :
    Volume → HandleDirectoryData → (LongName → HandleDirectoryData → Outcome) → Seen → Outcome
act v h k (ended e) = some (err e)
act v h k (passed counted l) = go_on (k l) (advance v h counted)
act v h k (found info) = give info h (advance v h true)

-- An error with the code Success leaves the entry's bytes 0 and is no error to the caller.
abbrev pub dentry_of : Result (List ℕ) → Result (List ℕ)
dentry_of (err e) = if is_error e then err e else ok (replicate 32 0)
dentry_of (ok b) = ok b

abbrev pub look :
    Volume
    → HandleDirectoryData
    → ℕ
    → LongName
    → (LongName → HandleDirectoryData → Outcome)
    → Result (List ℕ)
    → Outcome
look v h index l k (err e) = some (err e)
look v h index l k (ok b) = act v h k (examine b (h.current_index == index) l)

-- The loop. Nothing when the fuel does not suffice: a chain that comes back to itself can be endless.
unfoldable pub scan : ℕ → Volume → ℕ → LongName → HandleDirectoryData → Outcome
scan zero v index l h = none
scan (suc fuel) v index l h =
    look v h index l (λ l' h'. scan fuel v index l' h')
      (dentry_of
        (copy_cluster v h.current_cluster (h.dentry_index * 32 % bytes_per_cluster v) 32 [] false))

unfoldable pub readdir_info : ℕ → Volume → ℕ → HandleDirectoryData → ℕ → Outcome
readdir_info fuel v cluster h index =
    if h.current_cluster == eof_cluster
    then some (err end_of_file)
    else if ltb index h.current_index
    then scan fuel v index no_long_name (from_start cluster)
    else scan fuel v index no_long_name h
