-- ===== src/Fs/Handle/Owner.antt =====
-- src/fs/handle.hpp: the counts when a handle is moved.
use klee.Base.{◌≡◌, refl, false, Bool-cases, inl, inr, Code, is_error}
use klee.Fs.Open.{Count, close}
use klee.Fs.Handle.{Handle, close_handle, move_handle, is_open}

-- Moving a handle over another one, distinct from it, of the same file takes back the counts of the one that is overwritten.
-- The moved-from handle is no longer open, and closing it, as its destructor does, changes no count;
-- closing the new owner changes the counts as closing the moved one would have.
pub close_handle-move_handle :
    (this o : Handle) (destroyed : Code) (c : Count)
    → let (this', o', c') = move_handle this o destroyed c in
      (c' ≡ (close_handle this destroyed c).1)
      × (is_open o' ≡ false)
      × (is_open this' ≡ is_open o)
      × ((close_handle o' destroyed c').1 ≡ c')
      × ((close_handle this' destroyed c').1 ≡ (close_handle o destroyed c').1)
      × (is_open (close_handle this' destroyed c').0 ≡ false)
unfolding move_handle close_handle close is_open
close_handle-move_handle this o destroyed c = (
  refl,
  refl,
  refl,
  refl,
  refl,
  elim (Bool-cases o.expired) [
    | inl e ↦ rw e refl
    | inr e ↦ elim (Bool-cases (is_error destroyed)) [
      | inl f ↦ rw (e, f) refl
      | inr f ↦ rw (e, f) refl
    ]
  ],
)
