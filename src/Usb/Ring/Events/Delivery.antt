-- ===== src/Usb/Ring/Events/Delivery.antt =====
-- src/usb/xhci/ring.hpp: what the kernel takes from the ring of events.
use klee.Base.{
  ℕ, suc, ◌+◌, ◌-◌, ◌*◌, ◌/◌, ◌%◌, ◌≤◌, ◌<◌, ◌≡◌, ◌≢◌, refl, sym, ap, ◌∙◌, subst, true, false, not,
  [], ◌∷◌, ◌++◌, arith, ==_refl, ==_ne, ℕ_discrete,
}
use klee.Usb.Ring.{bool_eq, Trb, cycle_bit_of, get_front, has_front, pop, write_dequeue_pointer}
use klee.Usb.Ring.Slots.{at, slots}
use klee.Usb.Ring.Events.{Posting, size_of, IsBehind, same_round, round_before, IsPosting, pending}
use klee.Usb.Ring.Events.Ahead.{pending_same, pending_before}
use klee.Usb.Ring.Fifo.Push.{not-not}
use klee.Usb.Ring.Fifo.Queue.{bool_eq_refl, bool_eq-not}

-- The kernel's pop, with the controller's side as it was.
abbrev pub taken : Posting → Posting
taken p = record p { ring = pop p.ring }

-- Nothing is pending and the ring has no front, or the front is the first of what is pending and pop
-- leaves the rest.
pub data IsDelivered (p : Posting) (d : ℕ) : Type 0 where
  nothing : pending p d ≡ [] → has_front p.ring ≡ false → IsDelivered p d
  first :
      (t : Trb) (d' : ℕ)
      → has_front p.ring ≡ true
      → get_front p.ring ≡ t
      → IsPosting (taken p) d'
      → pending p d ≡ t ∷ pending (taken p) d'
      → IsDelivered p d

module _ (p : Posting) (d : ℕ) (v : IsPosting p d) where
  abbrev start : ℕ
  start = p.ring.address

  abbrev moved : Posting
  moved = record p { ring = write_dequeue_pointer p.ring (start + 16 * d + 16) }

  abbrev rewound : Posting
  rewound =
      let q = p.ring in
      record p {
        ring =
            write_dequeue_pointer (record q { cycle_bit = not q.cycle_bit })
              q.entry.ring_segment_base_address;
      }

  front_at : get_front p.ring ≡ at p.ring.buffer d
  front_at = let e : (start + 16 * d - start) / 16 ≡ d = omega arith in rw (v.reads, e) refl

  front_found : cycle_bit_of (at p.ring.buffer d) ≡ p.ring.cycle_bit → has_front p.ring ≡ true
  unfolding has_front
  front_found e =
      ap (λ t. bool_eq (cycle_bit_of t) p.ring.cycle_bit) front_at
      ∙ ap (λ b. bool_eq b p.ring.cycle_bit) e
      ∙ bool_eq_refl p.ring.cycle_bit

  front_none : cycle_bit_of (at p.ring.buffer d) ≡ not p.ring.cycle_bit → has_front p.ring ≡ false
  unfolding has_front
  front_none e =
      ap (λ t. bool_eq (cycle_bit_of t) p.ring.cycle_bit) front_at
      ∙ ap (λ b. bool_eq b p.ring.cycle_bit) e
      ∙ bool_eq-not p.ring.cycle_bit

  pop_inside : d + 1 ≢ size_of p → taken p ≡ moved
  unfolding pop
  pop_inside h =
      let far : start + 16 * d + 16 ≢ start + 16 * size_of p = λ e. h (omega (arith, e)) in
      rw (v.reads, v.placed, ==_ne (start + 16 * d + 16) (start + 16 * size_of p) far) refl

  pop_last : d + 1 ≡ size_of p → taken p ≡ rewound
  unfolding pop
  pop_last h =
      let e : start + 16 * d + 16 ≡ start + 16 * size_of p = omega (arith, h) in
      rw (v.reads, v.placed, e, ==_refl (start + 16 * size_of p)) refl

  set_pointer : (a e x : ℕ) → x ≡ a * 16 → (x / 16 * 16 + e % 16) / 16 * 16 ≡ x
  set_pointer a e x h = omega arith

  moved-IsPosting : d + 1 < size_of p → IsBehind moved (d + 1) → IsPosting moved (d + 1)
  moved-IsPosting h b = record {
    placed = v.placed;
    aligned = v.aligned;
    whole = v.whole;
    inside = v.inside;
    reads =
        let (a, e) = v.aligned in
        set_pointer (a + d + 1) p.ring.interrupter.erdp (start + 16 * d + 16) (omega (arith, e))
        ∙ omega arith;
    reads_inside = h;
    behind = b;
    written = v.written;
    stale = v.stale;
  }

  rewound-IsPosting : IsBehind rewound 0 → IsPosting rewound 0
  rewound-IsPosting b = record {
    placed = v.placed;
    aligned = v.aligned;
    whole = v.whole;
    inside = v.inside;
    reads =
        let (a, e) = v.aligned in
        set_pointer a p.ring.interrupter.erdp p.ring.entry.ring_segment_base_address (v.placed ∙ e)
        ∙ v.placed
        ∙ omega arith;
    reads_inside = let i = v.inside in omega arith;
    behind = b;
    written = v.written;
    stale = v.stale;
  }

  -- The first of `count` slots, when there is one.
  unroll :
      (count rest : ℕ)
      → count ≡ suc rest
      → slots p.ring.buffer d count ≡ at p.ring.buffer d ∷ slots p.ring.buffer (d + 1) rest
  unroll count rest h =
      let s : suc d ≡ d + 1 = omega arith in
      ap (slots p.ring.buffer d) h ∙ ap (λ j. at p.ring.buffer d ∷ slots p.ring.buffer j rest) s

  delivered :
      {p' : Posting} (d' : ℕ)
      → taken p ≡ p'
      → cycle_bit_of (at p.ring.buffer d) ≡ p.ring.cycle_bit
      → IsPosting p' d'
      → pending p d ≡ at p.ring.buffer d ∷ pending p' d'
      → IsDelivered p d
  delivered d' e c v' q =
      first (at p.ring.buffer d) d' (front_found c) front_at
        (subst (λ x. IsPosting x d') (sym e) v')
        (q ∙ ap (λ x. at p.ring.buffer d ∷ pending x d') (sym e))

  IsDelivered-same : p.ring.cycle_bit ≡ p.cycle → d ≤ p.index → IsDelivered p d
  IsDelivered-same e l =
      let i = v.inside in
      elim (ℕ_discrete d p.index) [
        | yes q ↦
            let z : p.index - d ≡ 0 = omega (arith, q) in
            nothing (pending_same p d e ∙ ap (slots p.ring.buffer d) z)
              (front_none (v.stale d (omega (arith, q)) v.reads_inside ∙ ap not (sym e)))
        | no q ↦
            delivered (d + 1) (pop_inside (λ h. absurd (omega (arith, q, h))))
              (v.written d (omega (arith, q)) ∙ sym e)
              (moved-IsPosting (omega (arith, q)) (same_round e (omega (arith, q))))
              (pending_same p d e
                ∙ unroll (p.index - d) (p.index - (d + 1)) (omega (arith, q))
                ∙ ap (◌∷◌ (at p.ring.buffer d)) (sym (pending_same moved (d + 1) e)))
      ]

  IsDelivered-before : p.ring.cycle_bit ≡ not p.cycle → p.index < d → IsDelivered p d
  IsDelivered-before e l =
      let i = v.reads_inside in
      let c = v.stale d (omega arith) i ∙ sym e in
      elim (ℕ_discrete (d + 1) (size_of p)) [
        | yes q ↦
            let e' : not p.ring.cycle_bit ≡ p.cycle = ap not e ∙ not-not p.cycle in
            let minus_nothing : p.index ≡ p.index - 0 = omega arith in
            delivered 0 (pop_last q) c (rewound-IsPosting (same_round e' (omega arith))) (
              pending_before p d e
              ∙ ap (λ x. x ++ slots p.ring.buffer 0 p.index)
                  (unroll (size_of p - d) 0 (omega (arith, q)))
              ∙ ap (λ n. at p.ring.buffer d ∷ slots p.ring.buffer 0 n) minus_nothing
              ∙ ap (◌∷◌ (at p.ring.buffer d)) (sym (pending_same rewound 0 e')))
        | no q ↦
            delivered (d + 1) (pop_inside q) c
              (moved-IsPosting (omega (arith, q)) (round_before e (omega arith)))
              (pending_before p d e
                ∙ ap (λ x. x ++ slots p.ring.buffer 0 p.index)
                    (unroll (size_of p - d) (size_of p - (d + 1)) (omega (arith, q)))
                ∙ ap (◌∷◌ (at p.ring.buffer d)) (sym (pending_before moved (d + 1) e)))
      ]

  IsDelivered-behind : IsBehind p d → IsDelivered p d
  IsDelivered-behind (same_round e l) = IsDelivered-same e l
  IsDelivered-behind (round_before e l) = IsDelivered-before e l

  -- The kernel finds a front exactly when an event is pending. It is then the one that was written
  -- first, and pop leaves those behind it, keeps the pointer inside the segment and wraps it at the end
  -- together with the cycle bit, so that the next call finds the ring in order again.
  pub pop-IsDelivered : IsDelivered p d
  pop-IsDelivered = IsDelivered-behind v.behind
