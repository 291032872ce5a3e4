-- ===== src/Util/DenseMap/Slots.antt =====
-- src/util/dense-map.hpp: what find_empty_slot, contains and empty promise.
use klee.Base.{
  ℕ, zero, suc, ◌+◌, ◌-◌, ◌^◌, ◌≤◌, ◌<◌, ◌≡◌, refl, sym, ap, ◌∙◌, ◌⊎◌, inl, inr, ◌↔◌, Bool, true,
  false, ◌&&◌, List, [], ◌∷◌, ◌++◌, Option, none, some, arith, is_some, get_or, set, length,
  replicate, take, get_or-set_self, get_or-set_ne, length-set, ℕ_discrete, length-append,
}
use klee.Util.DenseMap.{scan, place, find_empty_slot, contains, is_empty, resize, key}

module _ {ℓ} {T : Type ℓ} where
  scan-some :
      (d : List (Option T)) (n i k : ℕ)
      → scan d n i ≡ some k
      → (i ≤ k) × (k < i + n) × (is_some (get_or d k none) ≡ false)
  unfolding scan
  scan-some d zero i k h = absurd (ground arith)
  scan-some d (suc n) i k h = ground (arith, scan-some d n (i + 1) k)

  scan-none :
      (d : List (Option T)) (n i k : ℕ)
      → scan d n i ≡ none
      → i ≤ k
      → k < i + n
      → is_some (get_or d k none) ≡ true
  unfolding scan
  scan-none d zero i k h p q = absurd (omega arith)
  scan-none d (suc n) i k h p q = ground (arith, scan-none d n (i + 1) k)

  scan_below :
      (d : List (Option T)) (n i j k : ℕ)
      → scan d n i ≡ some k
      → i ≤ j
      → j < k
      → is_some (get_or d j none) ≡ true
  unfolding scan
  scan_below d zero i j k h p q = absurd (ground arith)
  scan_below d (suc n) i j k h p q = ground (arith, scan_below d n (i + 1) j k)

  take_all : (d : List (Option T)) → take (suc (length d)) d ≡ d
  take_all [] = refl
  take_all (x ∷ d) = ap (◌∷◌ x) (take_all d)

  pub get_or_grown :
      (d : List (Option T)) (n j : ℕ) → get_or (d ++ replicate n none) j none ≡ get_or d j none
  get_or_grown [] zero j = refl
  get_or_grown [] (suc n) zero = refl
  get_or_grown [] (suc n) (suc j) = get_or_grown [] n j
  get_or_grown (x ∷ d) n zero = refl
  get_or_grown (x ∷ d) n (suc j) = get_or_grown d n j

  pub get_or_past : (d : List (Option T)) (j : ℕ) → length d ≤ j → get_or d j none ≡ none
  get_or_past [] j h = refl
  get_or_past (x ∷ d) zero h = absurd (omega arith)
  get_or_past (x ∷ d) (suc j) h = get_or_past d j (omega arith)

  resize_grow : (d : List (Option T)) → resize (length d + 1) d ≡ d ++ replicate 1 none
  resize_grow d =
      let e : length d + 1 - length d ≡ 1 = omega arith in
      let e' : length d + 1 ≡ suc (length d) = omega arith in rw (e, e', take_all d)

  -- What find_empty_slot gives for `d`: the key and the map that it leaves.
  pub record IsSlot (d : List (Option T)) (r : ℕ × List (Option T)) : Type ℓ where
    pub in_range : r.0 < length r.1
    pub unused : get_or d r.0 none ≡ none
    pub least : (j : ℕ) → j < r.0 → is_some (get_or d j none) ≡ true
    pub kept : (j : ℕ) → get_or r.1 j none ≡ get_or d j none

  none_of_is_some : (o : Option T) → is_some o ≡ false → o ≡ none
  none_of_is_some none h = refl
  none_of_is_some (some x) h = absurd (ground arith)

  place-IsSlot :
      (d : List (Option T)) (r : Option ℕ)
      → length d + 1 < 2 ^ 32
      → scan d (length d) 0 ≡ r
      → IsSlot d (place d (length d) r)
  unfolding place
  place-IsSlot d none h e =
      let m : key (length d + 1) ≡ length d + 1 = omega arith in
      rw (m, resize_grow d)
        (record {
          in_range = omega (arith, length-append d (replicate 1 none));
          unused = get_or_past d (length d) (omega arith);
          least = λ j b. scan-none d (length d) 0 j e (omega arith) (omega arith);
          kept = λ j. get_or_grown d 1 j;
        })
  place-IsSlot d (some i) h e =
      let f : (0 ≤ i) × (i < 0 + length d) × (is_some (get_or d i none) ≡ false) =
        scan-some d (length d) 0 i e in
      record {
        in_range = omega arith;
        unused = none_of_is_some _ f.2;
        least = λ j b. scan_below d (length d) 0 j i e (omega arith) b;
        kept = λ j. refl;
      }

  -- In a map of fewer than 2^32 - 1 slots, find_empty_slot gives the first key that holds nothing,
  -- in range of the map that it leaves, in which every key holds what it did.
  pub find_empty_slot-IsSlot :
      (d : List (Option T)) → length d + 1 < 2 ^ 32 → IsSlot d (find_empty_slot d)
  unfolding find_empty_slot
  find_empty_slot-IsSlot d h =
      let m : key (length d) ≡ length d = omega arith in rw m (place-IsSlot d _ h refl)

  contains_false : (x : Option T) (b : Bool) → is_some x ≡ false → (b && is_some x) ≡ false
  contains_false none true h = refl
  contains_false none false h = refl
  contains_false (some x) b h = absurd (ground arith)

  -- A value stored at the key that find_empty_slot gives, which held nothing, is found there, and
  -- every other key holds what it held.
  pub contains-store :
      (d : List (Option T)) (v : T) (j : ℕ)
      → length d + 1 < 2 ^ 32
      → let (k, d') = find_empty_slot d in
        (contains d k ≡ false)
        × (get_or (set d' k (some v)) k none ≡ some v)
        × (contains (set d' k (some v)) k ≡ true)
        × ((j ≡ k) ⊎ (get_or (set d' k (some v)) j none ≡ get_or d j none))
  contains-store d v j h =
      let s = find_empty_slot-IsSlot d h in
      let k = (find_empty_slot d).0 in
      let d' = (find_empty_slot d).1 in
      let found : get_or (set d' k (some v)) k none ≡ some v =
        get_or-set_self d' k (some v) none s.in_range in
      (
        rw s.unused (contains_false none _ refl),
        found,
        ground (arith, length-set d' k (some v), s.in_range, found),
        elim (ℕ_discrete j k) [
          | yes e ↦ inl e
          | no e ↦ inr (get_or-set_ne d' k j (some v) none (λ p. e (sym p)) ∙ s.kept j)
        ],
      )

  is_some_past : (d : List (Option T)) → is_empty d ≡ true → (k : ℕ) → get_or d k none ≡ none
  unfolding is_empty
  is_some_past [] h k = refl
  is_some_past (none ∷ d) h zero = refl
  is_some_past (none ∷ d) h (suc k) = is_some_past d h k
  is_some_past (some x ∷ d) h k = absurd (ground arith)

  is_empty_of_none : (d : List (Option T)) → ((k : ℕ) → get_or d k none ≡ none) → is_empty d ≡ true
  unfolding is_empty
  is_empty_of_none [] h = refl
  is_empty_of_none (none ∷ d) h = is_empty_of_none d (λ k. h (suc k))
  is_empty_of_none (some x ∷ d) h = absurd (ground (arith, h 0))

  -- `empty` holds exactly when no key holds anything.
  pub is_empty_iff :
      (d : List (Option T)) → (is_empty d ≡ true) ↔ ((k : ℕ) → get_or d k none ≡ none)
  is_empty_iff d = (is_some_past d, is_empty_of_none d)
