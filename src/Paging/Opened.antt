-- ===== src/Paging/Opened.antt =====
-- src/paging.hpp: what opening a table changes in one level of the processor's walk.
use klee.Base.{
  ℕ, ◌*◌, ◌^◌, ◌<◌, ◌≡◌, ◌≢◌, refl, sym, ap, ◌∙◌, subst, false, Option, none, some, length, get_or,
  set, length-set, get_or-set_self, get_or-set_ne, arith, if◌then◌else◌, ℕ_discrete,
}
use klee.Paging.{Table, entry_of, open_with, open_at, put_back}
use klee.Paging.Level.{
  Access, is_present, follow, step, IsEntry, absent, owned, step-entry, step_absent,
}

module _ {R : Type 0} (at : R → ℕ) where
  -- The tables below that are there have `P`, and the entries that are the kernel's own are right.
  pub record IsLevel (P : R → Type 0) (own : ℕ → Type 0) (t : Table R) : Type 0 where
    pub entries : length t.data' ≡ 512
    pub resources : length t.resource ≡ 512
    pub entry : (i : ℕ) → own i → IsEntry at t i
    pub below : (i : ℕ) (r : R) → get_or t.resource i none ≡ some r → P r

  -- A new table's address.
  pub record IsPlaced (r : R) : Type 0 where
    pub frame : ℕ
    pub aligned : at r ≡ frame * 4096
    pub small : at r < 2 ^ 52

  -- What opening entry `i` comes to: `opened` is the table below and this one, and `r'` what is written
  -- to the table below.
  pub record IsOpened (P : R → Type 0) (own : ℕ → Type 0) (t : Table R) (i : ℕ) (new : R)
      (opened : R × Table R) : Type 0 where
    pub same :
        (walk : R → Option Access) (r' : R)
        → at r' ≡ at opened.0
        → step at walk (put_back opened.1 i r') i ≡ walk r'
    pub other :
        (walk : R → Option Access) (r' : R) (j : ℕ)
        → i ≢ j
        → step at walk (put_back opened.1 i r') j ≡ step at walk t j
    pub before : (walk : R → Option Access) → walk new ≡ none → step at walk t i ≡ walk opened.0
    pub child : P opened.0
    pub kept : (r' : R) → at r' ≡ at opened.0 → P r' → IsLevel P own (put_back opened.1 i r')

  module _ (P : R → Type 0) (own : ℕ → Type 0) (t : Table R) (v : IsLevel P own t) (i : ℕ)
      (inside : i < 512) where
    resource_set :
        (t' : Table R) (r' : R)
        → length t'.resource ≡ 512
        → get_or (set t'.resource i (some r')) i none ≡ some r'
    resource_set t' r' e = get_or-set_self t'.resource i (some r') none (omega (arith, inside, e))

    -- Writing the table below keeps the level, when the entry is the address of what is written.
    put_back-IsLevel :
        (t' : Table R) (r' : R)
        → length t'.data' ≡ 512
        → length t'.resource ≡ 512
        → get_or t'.data' i 0 ≡ entry_of (at r')
        → IsPlaced r'
        → ((j : ℕ) → i ≢ j → get_or t'.data' j 0 ≡ get_or t.data' j 0)
        → ((j : ℕ) → i ≢ j → get_or t'.resource j none ≡ get_or t.resource j none)
        → P r'
        → IsLevel P own (put_back t' i r')
    put_back-IsLevel t' r' d n e p same_data same_resource q = record {
      entries = d;
      resources = length-set t'.resource i (some r') ∙ n;
      entry = λ j o. elim (ℕ_discrete i j) [
        | yes h ↦
            owned r'
              (ap (λ k. get_or (set t'.resource i (some r')) k none) (sym h) ∙ resource_set t' r' n)
              (ap (λ k. get_or t'.data' k 0) (sym h) ∙ e) p.frame p.aligned p.small
        | no h ↦ moved_entry j h (v.entry j o)
      ];
      below = λ j r o. elim (ℕ_discrete i j) [
        | yes h ↦
            subst P
              (some_inj (
                sym (
                  ap (λ k. get_or (set t'.resource i (some r')) k none) (sym h)
                  ∙ resource_set t' r' n)
                ∙ o))
              q
        | no h ↦
            v.below j r
              (sym (get_or-set_ne t'.resource i j (some r') none h ∙ same_resource j h) ∙ o)
      ];
    }
      where
        some_inj : {x y : R} → some x ≡ some y → x ≡ y
        some_inj {x} e = ap (λ o. elim o [ none ↦ x | some y ↦ y ]) e

        moved_entry : (j : ℕ) → i ≢ j → IsEntry at t j → IsEntry at (put_back t' i r') j
        moved_entry j h (absent o a) =
            absent (get_or-set_ne t'.resource i j (some r') none h ∙ same_resource j h ∙ o)
              (ap is_present (same_data j h) ∙ a)
        moved_entry j h (owned r o a f m l) =
            owned r (get_or-set_ne t'.resource i j (some r') none h ∙ same_resource j h ∙ o)
              (same_data j h ∙ a) f m l

    IsPlaced-as : (r r' : R) → at r' ≡ at r → IsPlaced r → IsPlaced r'
    IsPlaced-as r r' e p = record {
      frame = p.frame;
      aligned = e ∙ p.aligned;
      small = omega (arith, e, p.small);
    }

    IsOpened-found :
        (new r : R)
        → get_or t.resource i none ≡ some r
        → get_or t.data' i 0 ≡ entry_of (at r)
        → IsPlaced r
        → IsOpened P own t i new (r, t)
    IsOpened-found new r o e p = record {
      same = λ walk r' s.
          step-entry at walk (put_back t i r') i r' p.frame (resource_set t r' v.resources)
            (e ∙ ap entry_of (sym s)) (s ∙ p.aligned) (omega (arith, s, p.small));
      other = λ walk r' j n.
          ap
            (λ x.
              if is_present (get_or t.data' j 0)
              then follow at walk (get_or t.data' j 0) x
              else none)
            (get_or-set_ne t.resource i j (some r') none n);
      before = λ walk z. step-entry at walk t i r p.frame o e p.aligned p.small;
      child = v.below i r o;
      kept = λ r' s q.
          put_back-IsLevel t r' v.entries v.resources (e ∙ ap entry_of (sym s))
            (IsPlaced-as r r' s p) (λ j n. refl) (λ j n. refl) q;
    }

    abbrev extended : R → Table R
    extended new = record t {
      data' = set t.data' i (entry_of (at new));
      resource = set t.resource i (some new);
    }

    IsOpened-made :
        (new : R)
        → is_present (get_or t.data' i 0) ≡ false
        → IsPlaced new
        → P new
        → IsOpened P own t i new (new, extended new)
    IsOpened-made new z p q =
        let e =
          get_or-set_self t.data' i (entry_of (at new)) 0 (omega (arith, inside, v.entries)) in
        let n = length-set t.resource i (some new) ∙ v.resources in
        record {
          same = λ walk r' s.
              step-entry at walk (put_back (extended new) i r') i r' p.frame
                (resource_set (extended new) r' n) (e ∙ ap entry_of (sym s)) (s ∙ p.aligned)
                (omega (arith, s, p.small));
          other = λ walk r' j k.
              ap
                (λ d.
                  if is_present d
                  then follow at walk d
                      (get_or (set (set t.resource i (some new)) i (some r')) j none)
                  else none)
                (get_or-set_ne t.data' i j (entry_of (at new)) 0 k)
              ∙ ap
                  (λ x.
                    if is_present (get_or t.data' j 0)
                    then follow at walk (get_or t.data' j 0) x
                    else none)
                  (get_or-set_ne (set t.resource i (some new)) i j (some r') none k
                    ∙ get_or-set_ne t.resource i j (some new) none k);
          before = λ walk w. step_absent at walk t i z ∙ sym w;
          child = q;
          kept = λ r' s q'.
              put_back-IsLevel (extended new) r'
                (length-set t.data' i (entry_of (at new)) ∙ v.entries) n (e ∙ ap entry_of (sym s))
                (IsPlaced-as new r' s p) (λ j k. get_or-set_ne t.data' i j (entry_of (at new)) 0 k)
                (λ j k. get_or-set_ne t.resource i j (some new) none k) q';
        }

    IsOpened-entry :
        (new : R)
        → IsPlaced new
        → P new
        → IsEntry at t i
        → IsOpened P own t i new (open_at t i new (at new))
    unfolding open_at
    IsOpened-entry new p q (absent o z) =
        subst (λ x. IsOpened P own t i new (open_with t i new (at new) x)) (sym o)
          (IsOpened-made new z p q)
    IsOpened-entry new p q (owned r o e a m l) =
        subst (λ x. IsOpened P own t i new (open_with t i new (at new) x)) (sym o)
          (IsOpened-found new r o e record { frame = a; aligned = m; small = l })

    pub open_at-IsOpened :
        (new : R) → IsPlaced new → P new → own i → IsOpened P own t i new (open_at t i new (at new))
    open_at-IsOpened new p q o = IsOpened-entry new p q (v.entry i o)
