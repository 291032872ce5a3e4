-- ===== src/Fs/Tmp.antt =====
-- src/fs/drivers/tmp.hpp: the driver of a file system in memory. A file or directory is a number in
-- memory, which the operations get as `fop_data`. A directory's map is the list of its entries in the
-- order of iteration; where the map puts a new entry is not specified, here in front.
pub mod Entries
use klee.Base.{
  ℕ, zero, suc, ◌+◌, Bool, true, false, not, ◌&&◌, List, [], ◌∷◌, Option, none, some, get_elem?,
  length, ltb, ◌==◌, if◌then◌else◌, Code, success, Result, ok, err, not_file, not_directory,
  no_such_file, file_exists, not_implemented, end_of_file, index_out_of_range,
}

-- std::string, as the numbers of its characters.
abbrev pub Name : Type 0
Name = List ℕ

abbrev pub name_eq : Name → Name → Bool
name_eq [] [] = true
name_eq [] (c ∷ cs) = false
name_eq (b ∷ bs) [] = false
name_eq (b ∷ bs) (c ∷ cs) = (b == c) && name_eq bs cs

-- FileType
pub data FileType : Type 0 where
  regular_type directory_type device_type : FileType

-- std::variant<File, Directory>
pub data FileObject : Type 0 where
  file : Name → ℕ → FileObject
  directory : Name → List (Name × ℕ) → FileObject

pub record Disk : Type 0 where
  pub objects : ℕ → FileObject
  pub next_object : ℕ

-- FileAbstractWithDriverData, less the attributes that all have
pub record FileAbstract : Type 0 where
  pub name : Name
  pub filesize : ℕ
  pub type : FileType
  pub keep_on_close : Bool
  pub driver_data : ℕ

abbrev pub abstract_of : ℕ → FileObject → FileAbstract
abstract_of t (file name filesize) = record {
  name = name;
  filesize = filesize;
  type = regular_type;
  keep_on_close = true;
  driver_data = t;
}
abstract_of t (directory name children) = record {
  name = name;
  filesize = length children;
  type = directory_type;
  keep_on_close = false;
  driver_data = t;
}

abbrev pub build_abstract : Disk → ℕ → FileAbstract
build_abstract s t = abstract_of t (s.objects t)

-- `dir->children`, of data_as<Directory>
abbrev pub children_of : FileObject → Result (List (Name × ℕ))
children_of (file name filesize) = err not_directory
children_of (directory name children) = ok children

-- `children.find(name)`
unfoldable pub lookup : List (Name × ℕ) → Name → Option ℕ
lookup [] name = none
lookup ((n, t) ∷ es) name = if name_eq n name then some t else lookup es name

-- `children.erase(p)`: the map has one entry of a name at most.
unfoldable pub erase : List (Name × ℕ) → Name → List (Name × ℕ)
erase [] name = []
erase ((n, t) ∷ es) name =
    let rest = erase es name in if name_eq n name then rest else (n, t) ∷ rest

abbrev pub write_object : Disk → ℕ → FileObject → Disk
write_object s t o = record s { objects = λ u. if u == t then o else s.objects u }

abbrev pub set_children : FileObject → List (Name × ℕ) → FileObject
set_children (file name filesize) es = file name filesize
set_children (directory name children) es = directory name es

abbrev pub is_file : Disk → ℕ → Bool
is_file s t = elim (s.objects t) [ file name filesize ↦ true | directory name children ↦ false ]

-- read and write return the error Success for a file.
unfoldable pub read : Disk → ℕ → Result ℕ
read s t = if is_file s t then err success else err not_file

unfoldable pub write : Disk → ℕ → Result ℕ
write s t = if is_file s t then err success else err not_file

abbrev pub found : Disk → Option ℕ → Result FileAbstract
found s none = err no_such_file
found s (some t) = ok (build_abstract s t)

abbrev pub find_in : Disk → Name → Result (List (Name × ℕ)) → Result FileAbstract
find_in s name (err e) = err e
find_in s name (ok es) = found s (lookup es name)

unfoldable pub find : Disk → ℕ → Name → Result FileAbstract
find s dir name = find_in s name (children_of (s.objects dir))

-- A new object in memory, and its entry.
abbrev pub emplace : Disk → ℕ → List (Name × ℕ) → Name → FileObject → Result FileAbstract × Disk
emplace s dir es name o =
    let t = s.next_object in
    let s' = write_object s dir (set_children (s.objects dir) ((name, t) ∷ es)) in
    (ok (abstract_of t o), record (write_object s' t o) { next_object = t + 1 })

abbrev pub create_as : Disk → ℕ → List (Name × ℕ) → Name → FileType → Result FileAbstract × Disk
create_as s dir es name regular_type = emplace s dir es name (file name 0)
create_as s dir es name directory_type = emplace s dir es name (directory name [])
create_as s dir es name device_type = (err not_implemented, s)

abbrev pub create_unless :
    Disk → ℕ → List (Name × ℕ) → Name → FileType → Option ℕ → Result FileAbstract × Disk
create_unless s dir es name type (some t) = (err file_exists, s)
create_unless s dir es name type none = create_as s dir es name type

abbrev pub create_in_dir :
    Disk → ℕ → Name → FileType → Result (List (Name × ℕ)) → Result FileAbstract × Disk
create_in_dir s dir name type (err e) = (err e, s)
create_in_dir s dir name type (ok es) = create_unless s dir es name type (lookup es name)

unfoldable pub create : Disk → ℕ → Name → FileType → Result FileAbstract × Disk
create s dir name type = create_in_dir s dir name type (children_of (s.objects dir))

abbrev pub entry_at : Disk → Option (Name × ℕ) → Result FileAbstract
entry_at s none = err index_out_of_range
entry_at s (some (n, t)) = ok (build_abstract s t)

abbrev pub readdir_in : Disk → ℕ → Result (List (Name × ℕ)) → Result FileAbstract
readdir_in s index (err e) = err e
readdir_in s index (ok es) =
    if index == length es then err end_of_file else entry_at s (get_elem? es index)

unfoldable pub readdir : Disk → ℕ → ℕ → Result FileAbstract
readdir s dir index = readdir_in s index (children_of (s.objects dir))

abbrev pub remove_unless : Disk → ℕ → List (Name × ℕ) → Name → Option ℕ → Code × Disk
remove_unless s dir es name none = (no_such_file, s)
remove_unless s dir es name (some t) =
    (success, write_object s dir (set_children (s.objects dir) (erase es name)))

abbrev pub remove_in : Disk → ℕ → Name → Result (List (Name × ℕ)) → Code × Disk
remove_in s dir name (err e) = (e, s)
remove_in s dir name (ok es) = remove_unless s dir es name (lookup es name)

unfoldable pub remove : Disk → ℕ → Name → Code × Disk
remove s dir name = remove_in s dir name (children_of (s.objects dir))

-- The object that a directory has under a name.
abbrev pub entry_in : Result (List (Name × ℕ)) → Name → Option ℕ
entry_in (err e) name = none
entry_in (ok es) name = lookup es name

abbrev pub entry : Disk → ℕ → Name → Option ℕ
entry s dir name = entry_in (children_of (s.objects dir)) name
