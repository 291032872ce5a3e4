-- ===== src/Fs/Fat/Resumed.antt =====
-- src/fs/drivers/fat/driver.hpp: a directory's handle that remembers its place.
use klee.Base.{
  ℕ, ◌+◌, ◌/◌, ◌%◌, ◌^◌, ◌≡◌, ◌≢◌, refl, sym, ap, ◌∙◌, subst, Bool, true, false, List, arith, ◌==◌,
  if◌then◌else◌, Code, Result, ok, err, end_of_file, bad_checksum, Bool-cases, inl, inr,
}
use klee.Fs.Fat.{
  Volume, get_next_cluster, next_of, next_by, get_fat_entry_type, read_fat_entry, FatEntryType,
  used_entry, last_entry, free_entry, reserved_entry, bad_entry,
}
use klee.Fs.Fat.Directory.{
  DirectoryInfo, HandleDirectoryData, eof_cluster, LongName, Seen, ended, passed, found, long_part,
  info_of, has_long_name, examine, bytes_per_cluster, advance, moved_to, at_cluster,
}
use klee.Fs.Fat.Entry.{byte_of, directory_entry, lfn_entry}

abbrev number_of : FatEntryType → ℕ
number_of used_entry = 1
number_of _ = 0

pub err_ok : {A : Type 0} {e : Code} {a : A} → ◌≡◌ {A = Result A} (err e) (ok a) → ⊥
err_ok q = omega (arith, ap {B = ℕ} (λ r. elim r [ ok x ↦ 1 | err x ↦ 0 ]) q)

ok_inj : {x y : ℕ} → ok x ≡ ok y → x ≡ y
ok_inj {x} q = ap (λ r. elim r [ ok z ↦ z | err e ↦ x ]) q

pub handle_inj : {x y : HandleDirectoryData} → ok x ≡ ok y → x ≡ y
handle_inj {x} q = ap (λ r. elim r [ ok z ↦ z | err e ↦ x ]) q

used_last : used_entry ≡ last_entry → ⊥
used_last q = omega (arith, ap number_of q)

-- What an entry comes to for another index than its own, unless it ends the walk.
pub data IsPassedBy (b : List ℕ) : Bool → Seen → Type 0 where
  stops : {t : Bool} (e : Code) → IsPassedBy b t (ended e)
  part :
      {t : Bool} (l' : LongName)
      → ((l : LongName) → examine b false l ≡ passed false l)
      → IsPassedBy b t (passed false l')
  other :
      (l' : LongName)
      → ((l : LongName) → examine b false l ≡ passed true l)
      → IsPassedBy b false (passed true l')
  own :
      (i : DirectoryInfo)
      → ((l : LongName) → examine b false l ≡ passed true l)
      → IsPassedBy b true (found i)

long_part-IsPassedBy :
    (b : List ℕ) (l : LongName)
    → ((l : LongName) → examine b false l ≡ passed false l)
    → IsPassedBy b true (long_part b l)
long_part-IsPassedBy b l h = elim (Bool-cases ((lfn_entry b).number / 64 % 2 == 1)) [
  | inl x ↦ rw x (part _ h)
  | inr x ↦ elim (Bool-cases ((lfn_entry b).checksum == l.checksum)) [
    | inl y ↦ rw (x, y) (part _ h)
    | inr y ↦ rw (x, y) (stops bad_checksum)
  ]
]

-- Neither free nor the end, nor a part of a long name.
examine_plain :
    (b : List ℕ) (t : Bool) (l : LongName)
    → (byte_of b 0 == 229) ≡ false
    → (byte_of b 0 == 0) ≡ false
    → has_long_name (directory_entry b) ≡ false
    → examine b t l ≡ (if t then found (info_of (directory_entry b) l) else passed true l)
unfolding examine
examine_plain b t l x y z = rw (x, y, z) refl

examine_long :
    (b : List ℕ) (t : Bool) (l : LongName)
    → (byte_of b 0 == 229) ≡ false
    → (byte_of b 0 == 0) ≡ false
    → has_long_name (directory_entry b) ≡ true
    → examine b t l ≡ (if t then long_part b l else passed false l)
unfolding examine
examine_long b t l x y z = rw (x, y, z) refl

examine_free :
    (b : List ℕ) (t : Bool) (l : LongName)
    → (byte_of b 0 == 229) ≡ true
    → examine b t l ≡ passed false l
unfolding examine
examine_free b t l x = rw x refl

examine_end :
    (b : List ℕ) (t : Bool) (l : LongName)
    → (byte_of b 0 == 229) ≡ false
    → (byte_of b 0 == 0) ≡ true
    → examine b t l ≡ ended end_of_file
unfolding examine
examine_end b t l x y = rw (x, y) refl

pub examine-IsPassedBy : (b : List ℕ) (t : Bool) (l : LongName) → IsPassedBy b t (examine b t l)
examine-IsPassedBy b t l = elim (Bool-cases (byte_of b 0 == 229)) [
  | inl x ↦
      subst (IsPassedBy b t) (sym (examine_free b t l x)) (part l (λ l. examine_free b false l x))
  | inr x ↦ elim (Bool-cases (byte_of b 0 == 0)) [
    | inl y ↦ subst (IsPassedBy b t) (sym (examine_end b t l x y)) (stops end_of_file)
    | inr y ↦ elim (Bool-cases (has_long_name (directory_entry b))) [
      | inl z ↦
          subst (IsPassedBy b t) (sym (examine_long b t l x y z))
            (long t (λ l. examine_long b false l x y z))
      | inr z ↦
          subst (IsPassedBy b t) (sym (examine_plain b t l x y z))
            (plain t (λ l. examine_plain b false l x y z))
    ]
  ]
]
  where
    long :
        (t : Bool)
        → ((l : LongName) → examine b false l ≡ passed false l)
        → IsPassedBy b t (if t then long_part b l else passed false l)
    long true h = long_part-IsPassedBy b l h
    long false h = part l h

    plain :
        (t : Bool)
        → ((l : LongName) → examine b false l ≡ passed true l)
        → IsPassedBy b t (if t then found (info_of (directory_entry b) l) else passed true l)
    plain true h = own (info_of (directory_entry b) l) h
    plain false h = other l h

-- Where advance goes.
pub record IsAdvanced (h : HandleDirectoryData) (counted : Bool) (h' : HandleDirectoryData)
    : Type 0 where
  pub index :
      h'.current_index ≡ (if counted then (h.current_index + 1) % 2 ^ 16 else h.current_index)
  pub not_end : h'.current_cluster ≢ eof_cluster

next_by_ok :
    (fate c : ℕ) (t : FatEntryType)
    → get_fat_entry_type fate ≡ t
    → next_by fate t ≡ ok c
    → c ≢ eof_cluster
unfolding get_fat_entry_type
next_by_ok fate c used_entry e q z =
    let same : fate ≡ c = ok_inj q in absurd (used_last (sym e ∙ ap get_fat_entry_type (same ∙ z)))
next_by_ok fate c last_entry e q z = absurd (err_ok q)
next_by_ok fate c free_entry e q z = absurd (err_ok q)
next_by_ok fate c reserved_entry e q z = absurd (err_ok q)
next_by_ok fate c bad_entry e q z = absurd (err_ok q)

get_next_cluster-ne : (r : Result ℕ) (c : ℕ) → next_of r ≡ ok c → c ≢ eof_cluster
get_next_cluster-ne (err e) c q = absurd (err_ok q)
get_next_cluster-ne (ok fate) c q = next_by_ok fate c (get_fat_entry_type fate) refl q

at_cluster-IsAdvanced :
    (h h' : HandleDirectoryData) (c : Bool) (r : Result ℕ) (moved : HandleDirectoryData)
    → moved.current_index ≡ (if c then (h.current_index + 1) % 2 ^ 16 else h.current_index)
    → ((x : ℕ) → r ≡ ok x → x ≢ eof_cluster)
    → at_cluster moved r ≡ ok h'
    → IsAdvanced h c h'
at_cluster-IsAdvanced h h' c (err e) moved i n q = absurd (err_ok q)
at_cluster-IsAdvanced h h' c (ok x) moved i n q =
    subst (IsAdvanced h c) (handle_inj q) record { index = i; not_end = n x refl }

pub advance-IsAdvanced :
    (v : Volume) (h h' : HandleDirectoryData) (c : Bool)
    → h.current_cluster ≢ eof_cluster
    → advance v h c ≡ ok h'
    → IsAdvanced h c h'
unfolding advance get_next_cluster
advance-IsAdvanced v h h' c n q =
    elim (Bool-cases ((h.dentry_index + 1) % 2 ^ 16 % (bytes_per_cluster v / 32) == 0)) [
      | inl b ↦
          at_cluster-IsAdvanced h h' c (get_next_cluster v h.current_cluster) (moved_to h c) refl
            (λ x. get_next_cluster-ne (read_fat_entry v h.current_cluster) x)
            (sym (
                ap
                  (λ b.
                    if b
                    then at_cluster (moved_to h c) (get_next_cluster v h.current_cluster)
                    else ok (moved_to h c))
                  b)
              ∙ q)
      | inr b ↦
          subst (IsAdvanced h c)
            (handle_inj (
              sym (
                ap
                  (λ b.
                    if b
                    then at_cluster (moved_to h c) (get_next_cluster v h.current_cluster)
                    else ok (moved_to h c))
                  b)
              ∙ q))
            record { index = refl; not_end = n }
    ]
