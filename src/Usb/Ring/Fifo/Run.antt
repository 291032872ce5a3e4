-- ===== src/Usb/Ring/Fifo/Run.antt =====
-- src/usb/xhci/ring.hpp: any sequence of pushes by the kernel and reads by the controller.
use klee.Base.{
  ℕ, zero, suc, ◌-◌, ◌*◌, ◌^◌, ◌≤◌, ◌<◌, ◌≡◌, ◌≢◌, refl, sym, ap, ◌∙◌, subst, true, List, [], ◌∷◌,
  ◌++◌, map, Option, none, some, length, arith, replicate, length-replicate, length-append,
}
use klee.Usb.Ring.{
  Trb, Ring, zero_trb, push, initialize, trb_type_of, link_type, stamp, cycle_bit_of,
}
use klee.Usb.Ring.Slots.{at}
use klee.Usb.Ring.Controller.{Consumer, fetch, payload}
use klee.Usb.Ring.Controller.Wellformed.{IsRing, IsReader, same_round, outstanding, link_slot}
use klee.Usb.Ring.Fifo.Words.{payload-stamp}
use klee.Usb.Ring.Fifo.Queue.{IsPushed, push-IsPushed}
use klee.Usb.Ring.Fifo.Fetch.{nothing, first, fetch-IsFetched}

-- One step of either side. A push comes with what the words of a new link held before.
pub data Action : Type 0 where
  pushes : Trb → Trb → Action
  fetches : Action

abbrev pub found : Option (Trb × Consumer) → Option Trb
found none = none
found (some (t, c)) = some (payload t)

abbrev pub after : Consumer → Option (Trb × Consumer) → Consumer
after c none = c
after c (some (t, c')) = c'

-- What the controller finds, in order.
abbrev pub run : List Action → Ring → Consumer → List (Option Trb)
run [] r c = []
run (pushes rest t ∷ steps) r c = run steps (push r rest t).1 c
run (fetches ∷ steps) r c = found (fetch r c) ∷ run steps r (after c (fetch r c))

-- The same steps on a queue.
abbrev pub fifo : List Action → List Trb → List (Option Trb)
fifo [] q = []
fifo (pushes rest t ∷ steps) q = fifo steps (q ++ payload t ∷ [])
fifo (fetches ∷ steps) [] = none ∷ fifo steps []
fifo (fetches ∷ steps) (t ∷ q) = some t ∷ fifo steps q

-- The queue has room at each push, and what is pushed is not a link. `k` is the queue's length.
unfoldable pub IsPaced : ℕ → List Action → ℕ → Type 0
IsPaced n [] k = Unit
IsPaced n (pushes rest t ∷ steps) k =
    (suc k < n) × (trb_type_of t ≢ link_type) × IsPaced n steps (suc k)
IsPaced n (fetches ∷ steps) k = IsPaced n steps (k - 1)

abbrev pub payloads : Ring → Consumer → List Trb
payloads r c = map payload (outstanding r c)

length-map : (ts : List Trb) → length (map payload ts) ≡ length ts
length-map [] = refl
length-map (t ∷ ts) = ap suc (length-map ts)

map-snoc : (ts : List Trb) (t : Trb) → map payload (ts ++ t ∷ []) ≡ map payload ts ++ payload t ∷ []
map-snoc [] t = refl
map-snoc (u ∷ ts) t = ap (◌∷◌ (payload u)) (map-snoc ts t)

payloads-push :
    (r r' : Ring) (c : Consumer) (t : Trb)
    → IsPushed r r' c t
    → payloads r' c ≡ payloads r c ++ payload t ∷ []
payloads-push r r' c t p =
    ap (map payload) p.appended
    ∙ map-snoc (outstanding r c) (stamp r.cycle_bit t)
    ∙ ap (λ x. payloads r c ++ x ∷ []) (payload-stamp r.cycle_bit t)

snoc_length : (ts : List Trb) (t : Trb) → suc (length ts) ≡ length (ts ++ t ∷ [])
snoc_length ts t = omega (arith, length-append ts (t ∷ []))

paced : (steps : List Action) (k : ℕ) {n n' : ℕ} → n' ≡ n → IsPaced n steps k → IsPaced n' steps k
paced steps k e p = subst (λ n. IsPaced n steps k) (sym e) p

length_tail : {ts us : List Trb} {t : Trb} → ts ≡ t ∷ us → length ts - 1 ≡ length us
length_tail e = omega (arith, ap length e)

empty_length : {ts : List Trb} → ts ≡ [] → length ts - 1 ≡ length ts
empty_length e = ap (λ ts. length ts - 1) e ∙ sym (ap length e)

run-fifo_from :
    (steps : List Action) (r : Ring) (c : Consumer)
    → IsRing r
    → IsReader r c
    → IsPaced (link_slot r) steps (length (payloads r c))
    → run steps r c ≡ fifo steps (payloads r c)
unfolding IsPaced
run-fifo_from [] r c v w p = refl
run-fifo_from (pushes rest t ∷ steps) r c v w (h, d, p) =
    let q =
      push-IsPushed r c rest t v d w
        (subst (λ k. suc k < link_slot r) (length-map (outstanding r c)) h) in
    let e = payloads-push r (push r rest t).1 c t q in
    let k : suc (length (payloads r c)) ≡ length (payloads (push r rest t).1 c) =
      snoc_length (payloads r c) (payload t) ∙ ap length (sym e) in
    run-fifo_from steps (push r rest t).1 c q.ring q.reader
      (paced steps _ q.same_size (subst (IsPaced (link_slot r) steps) k p))
    ∙ ap (fifo steps) e
run-fifo_from (fetches ∷ steps) r c v w p = elim (fetch-IsFetched r v c w) [
  | nothing z o ↦
      let q : payloads r c ≡ [] = ap (map payload) z in
      ap (λ f. found f ∷ run steps r (after c f)) o
      ∙ ap (◌∷◌ none) (
          run-fifo_from steps r c v w
            (subst (λ k. IsPaced (link_slot r) steps k) (empty_length q) p)
          ∙ ap (fifo steps) q)
      ∙ ap (fifo (fetches ∷ steps)) (sym q)
  | first t c' o k s ↦
      let q : payloads r c ≡ payload t ∷ payloads r c' = ap (map payload) s in
      ap (λ f. found f ∷ run steps r (after c f)) o
      ∙ ap (◌∷◌ (some (payload t)))
          (run-fifo_from steps r c' v k (subst (IsPaced (link_slot r) steps) (length_tail q) p))
      ∙ ap (fifo (fetches ∷ steps)) (sym q)
]

-- The controller at the start, before anything is read.
abbrev pub at_start : Consumer
at_start = record { index = 0; cycle = true }

pub at-replicate : (n i : ℕ) → at (replicate n zero_trb) i ≡ zero_trb
at-replicate zero i = refl
at-replicate (suc n) zero = refl
at-replicate (suc n) (suc i) = at-replicate n i

initialize-IsRing :
    (r : Ring) (n a : ℕ) → 2 ≤ n → n < 2 ^ 64 → IsRing (initialize r n (some (a * 16))).1
unfolding initialize
initialize-IsRing r n a h l = record {
  sized = h;
  fits = l;
  whole = length-replicate n zero_trb;
  inside = omega arith;
  aligned = (a, refl);
  written = λ i low. absurd (omega arith);
  stale = λ i low high. ap cycle_bit_of (at-replicate n i);
  no_link = λ i low e. absurd (omega (arith, sym (ap trb_type_of (at-replicate n i)) ∙ e));
}

-- On a ring of n TRBs that starts empty, whatever the order in which the kernel pushes and the
-- controller reads, the controller finds what a queue would give: every TRB once, in the order of the
-- pushes, unchanged but for the cycle bit, also past the ends of the ring, and nothing when nothing is
-- left. The ring's memory starts at a multiple of 16, n is at least 2 and fits a size_t, the queue
-- holds fewer than n - 2 TRBs at each push and no TRB pushed has the type of a link.
pub run-fifo :
    (r : Ring) (n a : ℕ) (steps : List Action)
    → 2 ≤ n
    → n < 2 ^ 64
    → IsPaced (n - 1) steps 0
    → run steps (initialize r n (some (a * 16))).1 at_start ≡ fifo steps []
unfolding initialize
run-fifo r n a steps h l p =
    run-fifo_from steps (initialize r n (some (a * 16))).1 at_start (initialize-IsRing r n a h l)
      (same_round refl (omega arith)) p
