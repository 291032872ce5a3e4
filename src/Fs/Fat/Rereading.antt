-- ===== src/Fs/Fat/Rereading.antt =====
-- src/fs/drivers/fat/driver.hpp: readdir by a handle that remembers its place, against readdir anew.
use klee.Base.{
  ℕ, zero, suc, ◌+◌, ◌*◌, ◌%◌, ◌^◌, ◌≤◌, ◌<◌, ◌≡◌, ◌≢◌, ◌⊎◌, refl, sym, ap, ◌∙◌, subst, Bool, true,
  false, List, [], none, some, arith, ◌==◌, ==_ne, ==_refl, if◌then◌else◌, Code, Result, ok, err,
  Bool-cases, inl, inr, ==_iff, ℕ_discrete,
}
use klee.Fs.Fat.{Volume, copy_cluster}
use klee.Fs.Fat.Directory.{
  dentry_of, DirectoryInfo, HandleDirectoryData, eof_cluster, LongName, Seen, ended, passed, found,
  examine, bytes_per_cluster, advance, moved_to, Outcome, is_end, give, go_on, act, look, scan,
}
use klee.Fs.Fat.Resumed.{
  IsPassedBy, stops, part, other, own, examine-IsPassedBy, advance-IsAdvanced,
}

Result-cases : {A : Type 0} (r : Result A) → ((e : Code) × (r ≡ err e)) ⊎ ((a : A) × (r ≡ ok a))
Result-cases (err e) = inl (e, refl)
Result-cases (ok a) = inr (a, refl)

abbrev kind : Outcome → ℕ
kind none = 0
kind (some (err e)) = 1
kind (some (ok x)) = 2

pub failed_ok :
    {e : Code} {x : DirectoryInfo × HandleDirectoryData}
    → ◌≡◌ {A = Outcome} (some (err e)) (some (ok x))
    → ⊥
failed_ok q = omega (arith, ap kind q)

give_end :
    (i : DirectoryInfo) (h : HandleDirectoryData) (e : Code)
    → is_end e ≡ true
    → give i h (err e)
      ≡ some
          (ok (i, (let moved = moved_to h true in record moved { current_cluster = eof_cluster })))
give_end i h e z = rw z refl

give_error :
    (i : DirectoryInfo) (h : HandleDirectoryData) (e : Code)
    → is_end e ≡ false
    → give i h (err e) ≡ some (err e)
give_error i h e z = rw z refl

abbrev handle_of : HandleDirectoryData → Outcome → HandleDirectoryData
handle_of h none = h
handle_of h (some (err e)) = h
handle_of h (some (ok (info, h'))) = h'

-- What a walk for a later index comes to after the entry at which `h'` was left: it goes on from `h'`,
-- or says that nothing follows.
pub data Follows (v : Volume) (m g : ℕ) (l : LongName) (h' : HandleDirectoryData) (o : Outcome)
    : Type 0 where
  at_end :
      (e : Code)
      → is_end e ≡ true
      → h'.current_cluster ≡ eof_cluster
      → o ≡ some (err e)
      → Follows v m g l h' o
  goes_on : h'.current_cluster ≢ eof_cluster → o ≡ scan g v m l h' → Follows v m g l h' o

pub record Resumes (v : Volume) (n : ℕ) (h h' : HandleDirectoryData) : Type 0 where
  pub steps : ℕ
  pub index : h'.current_index ≡ n + 1
  pub follows : (m g : ℕ) (l : LongName) → n < m → Follows v m g l h' (scan (steps + g) v m l h)

module _ (v : Volume) (h : HandleDirectoryData) (b : List ℕ) (n : ℕ)
    (read : dentry_of
        (copy_cluster v h.current_cluster (h.dentry_index * 32 % bytes_per_cluster v) 32 [] false)
      ≡ ok b)
    (early : h.current_index ≤ n) where
  -- An entry that a walk for a later index passes.
  passes :
      (counted : Bool) (m x : ℕ) (l : LongName)
      → ((l : LongName) → examine b false l ≡ passed counted l)
      → n < m
      → scan (suc x) v m l h ≡ go_on (λ h'. scan x v m l h') (advance v h counted)
  unfolding scan
  passes counted m x l ex late =
      ap (look v h m l (λ l' h'. scan x v m l' h')) read
      ∙ ap (λ t. act v h (λ l' h'. scan x v m l' h') (examine b t l))
          (==_ne h.current_index m (λ e. absurd (omega (arith, e))))
      ∙ ap (act v h (λ l' h'. scan x v m l' h')) (ex l)

  passes_to :
      (counted : Bool) (h1 h' : HandleDirectoryData)
      → ((l : LongName) → examine b false l ≡ passed counted l)
      → advance v h counted ≡ ok h1
      → Resumes v n h1 h'
      → Resumes v n h h'
  passes_to counted h1 h' ex a r = record {
    steps = suc r.steps;
    index = r.index;
    follows = λ m g l late.
        let e : suc r.steps + g ≡ suc (r.steps + g) = omega arith in
        subst (Follows v m g l h')
          (sym (
            ap (λ k. scan k v m l h) e
            ∙ passes counted m (r.steps + g) l ex late
            ∙ ap (go_on (λ h'. scan (r.steps + g) v m l h')) a))
          (r.follows m g l late);
  }

  gives :
      (info i : DirectoryInfo) (h' : HandleDirectoryData)
      → h.current_index ≡ n
      → n + 1 < 2 ^ 16
      → h.current_cluster ≢ eof_cluster
      → ((l : LongName) → examine b false l ≡ passed true l)
      → give i h (advance v h true) ≡ some (ok (info, h'))
      → Resumes v n h h'
  gives info i h' at small inside ex q = elim (Result-cases (advance v h true)) [
    | inr (h1, a) ↦
        let same : h1 ≡ h' = ap (handle_of h) (sym (ap (give i h) a) ∙ q) in
        let w = advance-IsAdvanced v h h1 true inside a in
        subst (Resumes v n h) same record {
          steps = 1;
          index = omega (arith, w.index, at);
          follows = λ m g l late.
              let e : 1 + g ≡ suc g = omega arith in
              goes_on w.not_end (
                ap (λ k. scan k v m l h) e
                ∙ passes true m g l ex late
                ∙ ap (go_on (λ h'. scan g v m l h')) a);
        }
    | inl (e, a) ↦ elim (Bool-cases (is_end e)) [
      | inl z ↦
          let q' = sym (ap (give i h) a) ∙ q in
          let same = ap (handle_of h) (sym (give_end i h e z) ∙ q') in
          subst (Resumes v n h) same record {
            steps = 1;
            index = omega (arith, at);
            follows = λ m g l late.
                let f : 1 + g ≡ suc g = omega arith in
                at_end e z refl (
                  ap (λ k. scan k v m l h) f
                  ∙ passes true m g l ex late
                  ∙ ap (go_on (λ h'. scan g v m l h')) a);
          }
      | inr z ↦ absurd (failed_ok (sym (give_error i h e z) ∙ sym (ap (give i h) a) ∙ q))
    ]
  ]

  matched : (h.current_index == n) ≡ true → h.current_index ≡ n
  matched e = (==_iff h.current_index n).0 e

  unmatched : (h.current_index == n) ≡ false → h.current_index < n
  unmatched e = elim (ℕ_discrete h.current_index n) [
    | yes q ↦ absurd (true_false (sym (ap (λ x. x == n) q ∙ ==_refl n) ∙ e))
    | no q ↦ omega (arith, q, early)
  ]
    where
      true_false : true ≡ false → ⊥
      true_false q = omega (arith, ap {B = ℕ} (λ b. if b then 1 else 0) q)

  -- One entry, when the rest of the walk is known to be resumed.
  sees :
      (fuel : ℕ) (info : DirectoryInfo) (h' : HandleDirectoryData) (t : Bool) (s : Seen)
      → n + 1 < 2 ^ 16
      → h.current_cluster ≢ eof_cluster
      → ((l : LongName) (h1 : HandleDirectoryData)
          → scan fuel v n l h1 ≡ some (ok (info, h'))
          → h1.current_index ≤ n
          → h1.current_cluster ≢ eof_cluster
          → Resumes v n h1 h')
      → (h.current_index == n) ≡ t
      → IsPassedBy b t s
      → act v h (λ l' h'. scan fuel v n l' h') s ≡ some (ok (info, h'))
      → Resumes v n h h'
  sees fuel info h' t (ended e) small inside ih te (stops e1) q = absurd (failed_ok q)
  sees fuel info h' t (passed false l') small inside ih te (part l1 ex) q =
      elim (Result-cases (advance v h false)) [
        | inl (e, a) ↦ absurd (failed_ok (sym (ap (go_on (λ h1. scan fuel v n l' h1)) a) ∙ q))
        | inr (h1, a) ↦
            let w = advance-IsAdvanced v h h1 false inside a in
            passes_to false h1 h' ex a (
              ih l' h1 (sym (ap (go_on (λ h1. scan fuel v n l' h1)) a) ∙ q)
                (omega (arith, w.index, early)) w.not_end)
      ]
  sees fuel info h' false (passed true l') small inside ih te (other l1 ex) q =
      elim (Result-cases (advance v h true)) [
        | inl (e, a) ↦ absurd (failed_ok (sym (ap (go_on (λ h1. scan fuel v n l' h1)) a) ∙ q))
        | inr (h1, a) ↦
            let w = advance-IsAdvanced v h h1 true inside a in
            passes_to true h1 h' ex a (
              ih l' h1 (sym (ap (go_on (λ h1. scan fuel v n l' h1)) a) ∙ q)
                (omega (arith, w.index, unmatched te, small)) w.not_end)
      ]
  sees fuel info h' true (passed true l') small inside ih te r q = elim r [ ]
  sees fuel info h' false (found i) small inside ih te r q = elim r [ ]
  sees fuel info h' true (found i) small inside ih te (own i1 ex) q =
      gives info i h' (matched te) small inside ex q

pub scan-Resumes :
    (v : Volume) (fuel n : ℕ) (l : LongName) (h h' : HandleDirectoryData) (info : DirectoryInfo)
    → n + 1 < 2 ^ 16
    → scan fuel v n l h ≡ some (ok (info, h'))
    → h.current_index ≤ n
    → h.current_cluster ≢ eof_cluster
    → Resumes v n h h'
unfolding scan
scan-Resumes v zero n l h h' info small q early inside = absurd (omega (arith, ap kind q))
scan-Resumes v (suc fuel) n l h h' info small q early inside =
    elim (Result-cases (
      dentry_of (
        copy_cluster v h.current_cluster (h.dentry_index * 32 % bytes_per_cluster v) 32 []
          false))) [
            | inl (e, c) ↦
                absurd (failed_ok (sym (ap (look v h n l (λ l' h'. scan fuel v n l' h')) c) ∙ q))
            | inr (b, c) ↦
                sees v h b n c early fuel info h' (h.current_index == n)
                  (examine b (h.current_index == n) l) small inside
                  (λ l1 h1 q1 e1 i1. scan-Resumes v fuel n l1 h1 h' info small q1 e1 i1) refl
                  (examine-IsPassedBy b (h.current_index == n) l)
                  (sym (ap (look v h n l (λ l' h'. scan fuel v n l' h')) c) ∙ q)
          ]
