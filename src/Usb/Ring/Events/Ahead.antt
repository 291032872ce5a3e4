-- ===== src/Usb/Ring/Events/Ahead.antt =====
-- src/usb/xhci/ring.hpp: what the controller writes is behind what is pending.
use klee.Base.{
  ℕ, suc, ◌+◌, ◌-◌, ◌≤◌, ◌<◌, ◌≡◌, ◌≢◌, refl, sym, ap, ◌∙◌, not, [], ◌∷◌, ◌++◌, length,
  length-append, length-set, arith, append_assoc, append_nil, ==_refl, ==_ne, ℕ_discrete,
}
use klee.Usb.Ring.{Trb, stamp, cycle_bit_of}
use klee.Usb.Ring.Slots.{at, slots, slots-set_before, length-slots}
use klee.Usb.Ring.Events.{
  Posting, posted, post, size_of, IsBehind, same_round, round_before, IsPosting, pending,
}
use klee.Usb.Ring.Fifo.Words.{cycle_bit_of-stamp}
use klee.Usb.Ring.Fifo.Push.{below_set, at-set_ne, not-not}
use klee.Usb.Ring.Fifo.Queue.{bool_eq_refl, bool_eq-not, slots-set_next}

pub pending_same :
    (p : Posting) (d : ℕ)
    → p.ring.cycle_bit ≡ p.cycle
    → pending p d ≡ slots p.ring.buffer d (p.index - d)
pending_same p d e = rw (e, bool_eq_refl p.cycle) refl

pub pending_before :
    (p : Posting) (d : ℕ)
    → p.ring.cycle_bit ≡ not p.cycle
    → pending p d ≡ slots p.ring.buffer d (size_of p - d) ++ slots p.ring.buffer 0 p.index
pending_before p d e = rw (e, bool_eq-not p.cycle) refl

abbrev pub rewound : Posting → Trb → Posting
rewound p t = let p' = posted p t in record p' { index = 0; cycle = not p.cycle }

post_inside : (p : Posting) (t : Trb) → p.index + 1 ≢ size_of p → post p t ≡ posted p t
unfolding post
post_inside p t h = rw (==_ne (p.index + 1) (size_of p) h) refl

post_last : (p : Posting) (t : Trb) → p.index + 1 ≡ size_of p → post p t ≡ rewound p t
unfolding post
post_last p t h = rw (sym h, ==_refl (p.index + 1)) refl

-- What an event makes of the ring and of what is pending.
pub record IsPosted (p p' : Posting) (d : ℕ) (t : Trb) : Type 0 where
  pub posting : IsPosting p' d
  pub appended : pending p' d ≡ pending p d ++ stamp p.cycle t ∷ []
  pub same_size : size_of p' ≡ size_of p

module _ (p : Posting) (d : ℕ) (t : Trb) (v : IsPosting p d) where
  abbrev event : Trb
  event = stamp p.cycle t

  in_buffer : p.index < length p.ring.buffer
  in_buffer = let i = v.inside in let w = v.whole in omega arith

  cycle_of_written :
      (i : ℕ) → i < p.index + 1 → cycle_bit_of (at (posted p t).ring.buffer i) ≡ p.cycle
  cycle_of_written =
      below_set (λ x. cycle_bit_of x ≡ p.cycle) p.ring.buffer p.index event in_buffer
        (cycle_bit_of-stamp p.cycle t) v.written

  same_inside : p.index + 1 ≢ size_of p → IsBehind (posted p t) d → IsPosting (posted p t) d
  same_inside h b = record {
    placed = v.placed;
    aligned = v.aligned;
    whole = length-set p.ring.buffer p.index event ∙ v.whole;
    inside =
        let i = v.inside in
        elim (ℕ_discrete (p.index + 1) (size_of p)) [
          | yes e ↦ absurd (h e)
          | no e ↦ omega (arith, e)
        ];
    reads = v.reads;
    reads_inside = v.reads_inside;
    behind = b;
    written = cycle_of_written;
    stale = λ i low high.
        rw (at-set_ne p.ring.buffer p.index i event (λ e. absurd (omega (arith, e))))
          (v.stale i (omega arith) high);
  }

  rewound-IsPosting : p.index + 1 ≡ size_of p → IsBehind (rewound p t) d → IsPosting (rewound p t) d
  rewound-IsPosting h b = record {
    placed = v.placed;
    aligned = v.aligned;
    whole = length-set p.ring.buffer p.index event ∙ v.whole;
    inside = omega arith;
    reads = v.reads;
    reads_inside = v.reads_inside;
    behind = b;
    written = λ i low. absurd (omega arith);
    stale = λ i low high. cycle_of_written i (omega (arith, h)) ∙ sym (not-not p.cycle);
  }

  appended_same :
      p.ring.cycle_bit ≡ p.cycle
      → d ≤ p.index
      → slots (posted p t).ring.buffer d (p.index + 1 - d) ≡ pending p d ++ event ∷ []
  appended_same e l =
      let one_more : p.index + 1 - d ≡ suc (p.index - d) = omega arith in
      ap (slots (posted p t).ring.buffer d) one_more
      ∙ slots-set_next p.ring.buffer d (p.index - d) p.index event (omega arith) in_buffer
      ∙ ap (λ x. x ++ event ∷ []) (sym (pending_same p d e))

  posted_same :
      p.index + 1 ≢ size_of p
      → p.ring.cycle_bit ≡ p.cycle
      → d ≤ p.index
      → IsPosted p (posted p t) d t
  posted_same h e l = record {
    posting = same_inside h (same_round e (omega arith));
    appended = pending_same (posted p t) d e ∙ appended_same e l;
    same_size = refl;
  }

  rewound_same :
      p.index + 1 ≡ size_of p
      → p.ring.cycle_bit ≡ p.cycle
      → d ≤ p.index
      → 0 < d
      → IsPosted p (rewound p t) d t
  rewound_same h e l pos = record {
    posting = rewound-IsPosting h (round_before (e ∙ sym (not-not p.cycle)) pos);
    appended =
        pending_before (rewound p t) d (e ∙ sym (not-not p.cycle))
        ∙ append_nil (slots (posted p t).ring.buffer d (size_of p - d))
        ∙ ap (λ n. slots (posted p t).ring.buffer d (n - d)) (sym h)
        ∙ appended_same e l;
    same_size = refl;
  }

  posted_before : p.ring.cycle_bit ≡ not p.cycle → p.index + 1 < d → IsPosted p (posted p t) d t
  posted_before e l =
      let i = v.reads_inside in
      let plus_one : p.index + 1 ≡ suc p.index = omega arith in
      record {
        posting = same_inside (λ q. absurd (omega (arith, q))) (round_before e l);
        appended =
            pending_before (posted p t) d e
            ∙ ap (λ x. x ++ slots (posted p t).ring.buffer 0 (p.index + 1))
                (slots-set_before p.ring.buffer d (size_of p - d) p.index event (omega arith))
            ∙ ap (λ x. slots p.ring.buffer d (size_of p - d) ++ x)
                (ap (slots (posted p t).ring.buffer 0) plus_one
                  ∙ slots-set_next p.ring.buffer 0 p.index p.index event (omega arith) in_buffer)
            ∙ sym (
                append_assoc (slots p.ring.buffer d (size_of p - d)) (slots p.ring.buffer 0 p.index)
                  (event ∷ []))
            ∙ ap (λ x. x ++ event ∷ []) (sym (pending_before p d e));
        same_size = refl;
      }

  size_before : p.ring.cycle_bit ≡ not p.cycle → length (pending p d) ≡ (size_of p - d) + p.index
  size_before e =
      let ahead = length-slots p.ring.buffer d (size_of p - d) in
      let wrapped = length-slots p.ring.buffer 0 p.index in
      omega (
        arith,
        ahead,
        wrapped,
        ap length (pending_before p d e),
        length-append (slots p.ring.buffer d (size_of p - d)) (slots p.ring.buffer 0 p.index),
      )

  post_behind : IsBehind p d → suc (length (pending p d)) < size_of p → IsPosted p (post p t) d t
  post_behind (same_round e l) room = elim (ℕ_discrete (p.index + 1) (size_of p)) [
    | yes h ↦
        let size = ap length (pending_same p d e) ∙ length-slots p.ring.buffer d (p.index - d) in
        rw (post_last p t h) (rewound_same h e l (omega (arith, size, h)))
    | no h ↦ rw (post_inside p t h) (posted_same h e l)
  ]
  post_behind (round_before e l) room =
      let i = v.reads_inside in
      let near : p.index + 1 < d = omega (arith, size_before e) in
      rw (post_inside p t (λ q. absurd (omega (arith, q)))) (posted_before e near)

  -- An event that is written while two slots are to spare.
  pub post-IsPosted : suc (length (pending p d)) < size_of p → IsPosted p (post p t) d t
  post-IsPosted = post_behind v.behind
