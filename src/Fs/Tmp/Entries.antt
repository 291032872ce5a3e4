-- ===== src/Fs/Tmp/Entries.antt =====
-- src/fs/drivers/tmp.hpp: what create and remove do to the entries of a directory.
use klee.Base.{
  ℕ, ◌<◌, ◌≡◌, ◌≢◌, refl, sym, ap, ◌∙◌, ◌⊎◌, inl, inr, true, false, List, [], ◌∷◌, none, some,
  arith, ◌==◌, ==_refl, ==_ne, if◌then◌else◌, Bool-cases, Option-cases, Code, success, Result, ok,
  err, no_such_file, file_exists, not_implemented,
}
use klee.Fs.Tmp.{
  entry_in, emplace, create_as, entry, write_object, set_children, Name, name_eq, FileType,
  regular_type, directory_type, device_type, FileObject, file, directory, Disk, FileAbstract,
  abstract_of, children_of, lookup, erase, find, found, create, create_in_dir, create_unless,
  remove, remove_in, remove_unless,
}

name_eq_refl : (n : Name) → name_eq n n ≡ true
name_eq_refl [] = refl
name_eq_refl (c ∷ cs) = rw (==_refl c) (name_eq_refl cs)

name_eq_sound : (n m : Name) → name_eq n m ≡ true → n ≡ m
name_eq_sound [] [] h = refl
name_eq_sound [] (c ∷ cs) h = absurd (cc)
name_eq_sound (b ∷ bs) [] h = absurd (cc)
name_eq_sound (b ∷ bs) (c ∷ cs) h =
    let both : (b ≡ c) × (name_eq bs cs ≡ true) = ground (arith, h) in
    rw (both.0, name_eq_sound bs cs both.1) refl

name_eq_apart : (n m k : Name) → name_eq n m ≡ false → name_eq n k ≡ true → name_eq m k ≡ false
name_eq_apart n m k h e = elim (Bool-cases (name_eq m k)) [
  | inr apart ↦ apart
  | inl same ↦
      let both : n ≡ m = name_eq_sound n k e ∙ sym (name_eq_sound m k same) in
      let equal : name_eq n m ≡ true = rw both (name_eq_refl m) in absurd (cc)
]

lookup-erase :
    (es : List (Name × ℕ)) (name other : Name)
    → lookup (erase es name) other ≡ (if name_eq name other then none else lookup es other)
unfolding lookup erase
lookup-erase [] name other = elim (Bool-cases (name_eq name other)) [
  | inl h ↦ rw h refl
  | inr h ↦ rw h refl
]
lookup-erase ((n, t) ∷ es) name other = elim (Bool-cases (name_eq n name)) [
  | inl h ↦
      let same = name_eq_sound n name h in
      rw (h, same)
        (lookup-erase es name other
          ∙ (elim (Bool-cases (name_eq name other)) [ inl e ↦ rw e refl | inr e ↦ rw e refl ]))
  | inr h ↦ elim (Bool-cases (name_eq n other)) [
    | inl e ↦ rw (h, e, name_eq_apart n name other h e) refl
    | inr e ↦ rw (h, e) (lookup-erase es name other)
  ]
]

-- What creating `name` of `type` in directory `dir` comes to: nothing, if the name is there or the
-- type is none of a file in memory; or an empty object of the type, new in memory, that is found under
-- the name.
abbrev pub Creates : Disk → ℕ → Name → FileType → Result FileAbstract × Disk → Type 0
Creates s dir name type (r, s') =
    ((entry s dir name ≢ none) × (r ≡ err file_exists) × (s' ≡ s))
    ⊎ ((entry s dir name ≡ none) × (type ≡ device_type) × (r ≡ err not_implemented) × (s' ≡ s))
    ⊎ ((a : FileAbstract) × (r ≡ ok a)
        × (entry s dir name ≡ none)
        × (a.name ≡ name)
        × (a.type ≡ type)
        × (a.filesize ≡ 0)
        × (a.driver_data ≡ s.next_object)
        × (find s' dir name ≡ ok a)
        × ((other : Name) → (name_eq name other ≡ true) ⊎ (entry s' dir other ≡ entry s dir other)))

-- What removing does: nothing, if the name is not there; or it is no longer found.
abbrev pub Removes : Disk → ℕ → Name → Code × Disk → Type 0
Removes s dir name (c, s') =
    ((entry s dir name ≡ none) × (c ≡ no_such_file) × (s' ≡ s))
    ⊎ ((entry s dir name ≢ none)
        × (c ≡ success)
        × (find s' dir name ≡ err no_such_file)
        × ((other : Name) → (name_eq name other ≡ true) ⊎ (entry s' dir other ≡ entry s dir other)))

removes_there :
    (s : Disk) (dir : ℕ) (name n : Name) (es : List (Name × ℕ)) (o : FileObject)
    → s.objects dir ≡ directory n es
    → o ≡ directory n (erase es name)
    → let s' = write_object s dir o in
      (find s' dir name ≡ err no_such_file)
      × ((other : Name) → (name_eq name other ≡ true) ⊎ (entry s' dir other ≡ entry s dir other))
unfolding find
removes_there s dir name n es o is was =
    let kept = λ (other : Name). lookup-erase es name other in
    let gone : lookup (erase es name) name ≡ none = kept name ∙ (rw (name_eq_refl name) refl) in
    (
      rw (==_refl dir)
          (rw was (ap (found (write_object s dir (directory n (erase es name)))) gone)),
      λ other. elim (Bool-cases (name_eq name other)) [
        | inl e ↦ inl e
        | inr e ↦ inr (rw (==_refl dir, was, is) (kept other ∙ rw e refl))
      ],
    )

-- remove, in a directory, fails with NoSuchFile and changes nothing if the name is not there, and
-- otherwise succeeds: the name is no longer found, and every other name has the object that it had.
pub remove-Removes :
    (s : Disk) (dir : ℕ) (name n : Name) (es : List (Name × ℕ))
    → s.objects dir ≡ directory n es
    → Removes s dir name (remove s dir name)
unfolding remove
remove-Removes s dir name n es is = elim (Option-cases (lookup es name)) [
  | inl absent ↦
      let done : remove s dir name ≡ (no_such_file, s) =
        ap (remove_in s dir name) (ap children_of is) ∙ ap (remove_unless s dir es name) absent in
      rw done (inl (ap (λ x. entry_in (children_of x) name) is ∙ absent, refl, refl))
  | inr (t, there) ↦
      let o = set_children (s.objects dir) (erase es name) in
      let done : remove s dir name ≡ (success, write_object s dir o) =
        ap (remove_in s dir name) (ap children_of is) ∙ ap (remove_unless s dir es name) there in
      let here : entry s dir name ≡ some t = ap (λ x. entry_in (children_of x) name) is ∙ there in
      let gone = removes_there s dir name n es o is (ap (λ x. set_children x (erase es name)) is) in
      rw done (inr (λ e. absurd (ground (arith, e, here)), refl, gone.0, gone.1))
]

creates_new :
    (s : Disk) (dir : ℕ) (name n : Name) (es : List (Name × ℕ)) (o : FileObject)
    → s.objects dir ≡ directory n es
    → dir < s.next_object
    → let s' = (emplace s dir es name o).1 in
      (find s' dir name ≡ ok (abstract_of s.next_object o))
      × ((other : Name) → (name_eq name other ≡ true) ⊎ (entry s' dir other ≡ entry s dir other))
unfolding find lookup
creates_new s dir name n es o is old =
    let t = s.next_object in
    let grown : set_children (s.objects dir) ((name, t) ∷ es) ≡ directory n ((name, t) ∷ es) =
      ap (λ x. set_children x ((name, t) ∷ es)) is in
    let apart : (dir == t) ≡ false = ==_ne dir t (omega (arith, old)) in
    (
      rw (apart, ==_refl dir, grown, name_eq_refl name, ==_refl t) refl,
      λ other. elim (Bool-cases (name_eq name other)) [
        | inl e ↦ inl e
        | inr e ↦ inr (rw (apart, ==_refl dir, grown, is, e) refl)
      ],
    )

creates :
    (s : Disk) (dir : ℕ) (name n : Name) (type : FileType) (es : List (Name × ℕ))
    → s.objects dir ≡ directory n es
    → dir < s.next_object
    → entry s dir name ≡ none
    → Creates s dir name type (create_as s dir es name type)
creates s dir name n regular_type es is old absent =
    let new = creates_new s dir name n es (file name 0) is old in
    inr (
      inr (
        abstract_of s.next_object (file name 0),
        refl,
        absent,
        refl,
        refl,
        refl,
        refl,
        new.0,
        new.1,
      ))
creates s dir name n directory_type es is old absent =
    let new = creates_new s dir name n es (directory name []) is old in
    inr (
      inr (
        abstract_of s.next_object (directory name []),
        refl,
        absent,
        refl,
        refl,
        refl,
        refl,
        new.0,
        new.1,
      ))
creates s dir name n device_type es is old absent = inr (inl (absent, refl, refl, refl))

-- create, in a directory that is in memory already, fails with FileExists if the name is there and
-- with NotImplemented for a device, and changes nothing then. Otherwise, and only if the name was not
-- there, it gives an empty file or directory of that name, as asked for, new in memory, which is found
-- under the name, and every other name has the object that it had.
pub create-Creates :
    (s : Disk) (dir : ℕ) (name n : Name) (type : FileType) (es : List (Name × ℕ))
    → s.objects dir ≡ directory n es
    → dir < s.next_object
    → Creates s dir name type (create s dir name type)
unfolding create
create-Creates s dir name n type es is old = elim (Option-cases (lookup es name)) [
  | inr (t, there) ↦
      let done : create s dir name type ≡ (err file_exists, s) =
        ap (create_in_dir s dir name type) (ap children_of is)
        ∙ ap (create_unless s dir es name type) there in
      let here : entry s dir name ≡ some t = ap (λ x. entry_in (children_of x) name) is ∙ there in
      rw done (inl (λ e. absurd (ground (arith, e, here)), refl, refl))
  | inl absent ↦
      let done : create s dir name type ≡ create_as s dir es name type =
        ap (create_in_dir s dir name type) (ap children_of is)
        ∙ ap (create_unless s dir es name type) absent in
      rw done
        (creates s dir name n type es is old (ap (λ x. entry_in (children_of x) name) is ∙ absent))
]
