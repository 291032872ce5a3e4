-- ===== src/Util/CriticalQueue.antt =====
-- src/util/critical-queue.hpp: two buffers, one to push to and one to read.
pub mod Order
use klee.Base.{Bool, true, false, not, List, [], ◌∷◌, ◌++◌, if◌then◌else◌}

pub record CriticalQueue {ℓ} (T : Type ℓ) : Type ℓ where
  pub buffer_zero : List T
  pub buffer_one : List T
  pub flip : Bool
  pub is_empty : Bool

module _ {ℓ} {T : Type ℓ} where
  -- `buffer[i]`
  abbrev pub buffer : CriticalQueue T → Bool → List T
  buffer q i = if i then q.buffer_one else q.buffer_zero

  abbrev pub set_buffer : CriticalQueue T → Bool → List T → CriticalQueue T
  set_buffer q i data' =
      if i then record q { buffer_one = data' } else record q { buffer_zero = data' }

  unfoldable pub push : CriticalQueue T → T → CriticalQueue T
  push q item =
      let q' = set_buffer q q.flip (buffer q q.flip ++ item ∷ []) in record q' { is_empty = false }

  unfoldable pub swap : CriticalQueue T → List T × CriticalQueue T
  swap q =
      let cleared = set_buffer q (not q.flip) [] in
      let flipped = record cleared { flip = not q.flip; is_empty = true } in
      (buffer flipped (not flipped.flip), flipped)

  unfoldable pub empty : CriticalQueue T → Bool
  empty q = q.is_empty

  abbrev pub new_queue : CriticalQueue T
  new_queue = record { buffer_zero = []; buffer_one = []; flip = false; is_empty = true }
