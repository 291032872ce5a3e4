-- ===== src/Fs/Fat/Chain.antt =====
-- src/fs/drivers/fat/driver.hpp: a handle remembers how far it followed the chain of its file.
use klee.Base.{
  ℕ, zero, suc, ◌+◌, ◌-◌, ◌≤◌, ◌≡◌, refl, sym, ap, ◌∙◌, Result, ok, err, arith, ltb, ltb_false→le,
  Bool-cases, inl, inr,
}
use klee.Fs.Fat.{
  Volume, FopData, HandleData, from_fop_data, bind, walk, get_next_cluster, sought,
  seek_cluster_chain,
}

-- The cluster that the handle remembers is the one that its number says, counted along the chain.
unfoldable pub IsAt : Volume → FopData → HandleData → Type 0
IsAt v file h = walk v h.current_cluster_number file.cluster ≡ ok h.current_cluster

pub from_fop_data-IsAt : (v : Volume) (file : FopData) → IsAt v file (from_fop_data file)
unfolding IsAt
from_fop_data-IsAt v file = refl

bind_assoc : (r : Result ℕ) (f g : ℕ → Result ℕ) → bind (bind r f) g ≡ bind r (λ c. bind (f c) g)
bind_assoc (err e) f g = refl
bind_assoc (ok c) f g = refl

bind_ext : (r : Result ℕ) (f g : ℕ → Result ℕ) → ((c : ℕ) → f c ≡ g c) → bind r f ≡ bind r g
bind_ext (err e) f g h = refl
bind_ext (ok c) f g h = h c

walk_add :
    (v : Volume) (m n cluster : ℕ)
    → walk v (m + n) cluster ≡ bind (walk v m cluster) (λ c. walk v n c)
walk_add v zero n cluster = let e : 0 + n ≡ n = omega arith in ap (λ k. walk v k cluster) e
walk_add v (suc m) n cluster =
    let e : suc m + n ≡ suc (m + n) = omega arith in
    ap (λ k. walk v k cluster) e
    ∙ bind_ext (get_next_cluster v cluster) (λ c. walk v (m + n) c)
        (λ c. bind (walk v m c) (λ d. walk v n d)) (walk_add v m n)
    ∙ sym (bind_assoc (get_next_cluster v cluster) (λ c. walk v m c) (λ d. walk v n d))

walk_from :
    (v : Volume) (file : FopData) (h : HandleData) (number : ℕ)
    → IsAt v file h
    → h.current_cluster_number ≤ number
    → walk v (number - h.current_cluster_number) h.current_cluster ≡ walk v number file.cluster
unfolding IsAt
walk_from v file h number at l =
    let k = number - h.current_cluster_number in
    let e : h.current_cluster_number + k ≡ number = omega arith in
    sym (ap (λ r. bind r (λ c. walk v k c)) at)
    ∙ sym (walk_add v h.current_cluster_number k file.cluster)
    ∙ ap (λ n. walk v n file.cluster) e

-- What seek_cluster_chain gives and where it leaves the handle does not depend on where the handle was:
-- it is what a walk of `number` steps from the file's first cluster gives, which ends with EndOfFile
-- where the chain ends. The handle is at a place of the file's chain.
pub seek_cluster_chain-walk :
    (v : Volume) (file : FopData) (h : HandleData) (number : ℕ)
    → IsAt v file h
    → seek_cluster_chain v file h number ≡ sought h number (walk v number file.cluster)
unfolding seek_cluster_chain
seek_cluster_chain-walk v file h number at =
    elim (Bool-cases (ltb number h.current_cluster_number)) [
      | inl b ↦ rw b refl
      | inr b ↦
          rw (b, walk_from v file h number at (ltb_false→le number h.current_cluster_number b)) refl
    ]

sought-IsAt :
    (v : Volume) (file : FopData) (h : HandleData) (number : ℕ) (r : Result ℕ)
    → IsAt v file h
    → walk v number file.cluster ≡ r
    → IsAt v file (sought h number r).1
unfolding IsAt
sought-IsAt v file h number (err e) at w = at
sought-IsAt v file h number (ok c) at w = w

pub seek_cluster_chain-IsAt :
    (v : Volume) (file : FopData) (h : HandleData) (number : ℕ)
    → IsAt v file h
    → IsAt v file (seek_cluster_chain v file h number).1
seek_cluster_chain-IsAt v file h number at =
    rw (seek_cluster_chain-walk v file h number at)
      (sought-IsAt v file h number (walk v number file.cluster) at refl)
