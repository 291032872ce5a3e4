-- ===== src/Virtio/Queue/Exchange.antt =====
-- src/virtio/queue.hpp: one request and its response.
use native.Mathlib.Nat.{mod-lt, mod-eq_of_lt, mod_self}
use klee.Base.{
  ℕ, zero, suc, ◌+◌, ◌-◌, ◌*◌, ◌%◌, ◌^◌, ◌≤◌, ◌<◌, ◌≡◌, ◌≢◌, refl, sym, ap, ◌∙◌, subst, true, List,
  some, get_or, set, length, length-set, get_or-set_self, get_or-set_ne, arith, ==_ne, le→ltb_false,
  dec_lt,
}
use klee.Virtio.Queue.{
  Descriptor, Queue, no_descriptor, descriptor_at, descriptor_index, chain_at, publish_all,
  get_next_descriptor_buffer, notify_device, read_one_buffer, find_result, receive, elem_at,
  next_flag, write_flag, bytes_per_frame,
}

pub record IsIdle (q : Queue) : Type 0 where
  pub sized : 2 ≤ q.size
  pub whole : length q.descriptors ≡ q.size
  pub answers : length q.used.ring ≡ q.size
  pub published : length q.available.ring ≡ q.size
  pub nothing_added : q.added_descriptors ≡ 0
  pub word : q.free_head < 2 ^ 32

-- The device's answer: the used ring's next entry and its index.
abbrev pub answer : Queue → ℕ → ℕ → Queue
answer q id' len' =
    let u = q.used in
    record q {
      used = record u {
        ring = set u.ring (q.last_used % q.size) (record { id = id'; len = len' });
        index = (q.last_used + 1) % 2 ^ 16;
      };
    }

back_two :
    (f a : ℕ)
    → f < 2 ^ 32
    → a ≡ 0
    → ((f + 2) % 2 ^ 32 + 2 ^ 32 - ((a + 1) % 2 ^ 32 - 0) * 2 % 2 ^ 32) % 2 ^ 32 ≡ f
back_two f a h e = omega arith

one_round : (a : ℕ) → a ≡ 0 → (a + 1) % 2 ^ 32 ≡ suc zero
one_round a e = omega arith

module _ (q : Queue) (v : IsIdle q) (len' : ℕ) where
  abbrev pub head : ℕ
  head = q.free_head % q.size

  abbrev pub tail : ℕ
  tail = (head + 1) % q.size

  pub head-lt : head < q.size
  head-lt = let s = v.sized in mod-lt q.free_head (omega arith)

  tail-lt : tail < q.size
  tail-lt = let s = v.sized in mod-lt (head + 1) (omega arith)

  tail_ne : head ≢ tail
  tail_ne e =
      let s = v.sized in
      elim (dec_lt (head + 1) q.size) [
        | yes h ↦ absurd (omega (arith, e, mod-eq_of_lt h))
        | no h ↦
            let l : head + 1 ≡ q.size = omega (arith, head-lt) in
            let z : tail ≡ 0 = ap (λ n. n % q.size) l ∙ mod_self q.size in
            absurd (omega (arith, e, z, l))
      ]

  abbrev requested : Queue
  requested = (get_next_descriptor_buffer q len').1

  abbrev pub notified : Queue
  notified = (notify_device requested).1

  -- The descriptors after both calls.
  abbrev filled : List Descriptor
  filled = set q.descriptors head (let d = descriptor_at q head in record d { len = len' % 2 ^ 32 })

  abbrev request : Descriptor
  request =
      let d = descriptor_at q head in
      record d { len = len' % 2 ^ 32; flags = next_flag; next_index = tail }

  abbrev response : Descriptor
  response = let d = descriptor_at q tail in record d { flags = write_flag; len = bytes_per_frame }

  abbrev pub chained : List Descriptor
  chained = set (set filled head request) tail response

  head_mod : head % q.size ≡ head
  head_mod = mod-eq_of_lt head-lt

  filled_head :
      get_or filled head no_descriptor
      ≡ (let d = descriptor_at q head in record d { len = len' % 2 ^ 32 })
  filled_head = get_or-set_self q.descriptors head _ no_descriptor (omega (arith, v.whole, head-lt))

  filled_tail : get_or (set filled head request) tail no_descriptor ≡ descriptor_at q tail
  filled_tail =
      get_or-set_ne filled head tail request no_descriptor tail_ne
      ∙ get_or-set_ne q.descriptors head tail _ no_descriptor tail_ne

  chain_at-chained : chain_at q filled head ≡ chained
  chain_at-chained = rw (head_mod, filled_head, filled_tail) refl

  abbrev published_with : List Descriptor → ℕ → Queue
  published_with descriptors i =
      let a = q.available in
      record q {
        descriptors = descriptors;
        available = record a {
          ring = set a.ring (a.index % q.size) i;
          index = (a.index + 1) % 2 ^ 16;
        };
        free_head = (q.free_head + 2) % 2 ^ 32;
        added_descriptors = 0;
      }

  pub notified-published_with : notified ≡ published_with chained head
  unfolding get_next_descriptor_buffer notify_device
  notified-published_with =
      let r = one_round q.added_descriptors v.nothing_added in
      let i : descriptor_index requested 0 ≡ head =
        ap (λ n. n % q.size) (back_two q.free_head q.added_descriptors v.word v.nothing_added) in
      ap (λ n. record (publish_all requested 0 n) { added_descriptors = 0 }) r
      ∙ ap (λ i. published_with (chain_at q filled i) i) i
      ∙ ap (λ ds. published_with ds head) chain_at-chained

  chained_head : get_or chained head no_descriptor ≡ request
  chained_head =
      get_or-set_ne (set filled head request) tail head response no_descriptor
        (λ e. tail_ne (sym e))
      ∙ get_or-set_self filled head request no_descriptor (
          omega (
            arith,
            head-lt,
            v.whole,
            length-set q.descriptors head
                (let d = descriptor_at q head in record d { len = len' % 2 ^ 32 }),
          ))

  length-chained : length chained ≡ q.size
  length-chained =
      length-set (set filled head request) tail response
      ∙ length-set filled head request
      ∙ length-set q.descriptors head
          (let d = descriptor_at q head in record d { len = len' % 2 ^ 32 })
      ∙ v.whole

  chained_tail : get_or chained tail no_descriptor ≡ response
  chained_tail =
      get_or-set_self (set filled head request) tail response no_descriptor
        (omega (arith, tail-lt, length-chained, length-set (set filled head request) tail response))

  abbrev sent : Queue
  sent = published_with chained head

  found : (fuel : ℕ) → find_result sent (suc (suc fuel)) head ≡ some (descriptor_at q tail).addr
  found fuel = rw (chained_head, chained_tail) refl

  abbrev answered : ℕ → Queue
  answered l = answer sent head l

  elem : (l : ℕ) → elem_at (answered l) (q.last_used % q.size) ≡ record { id = head; len = l }
  elem l =
      let z = v.sized in
      let below : q.last_used % q.size < q.size = mod-lt q.last_used (omega arith) in
      get_or-set_self q.used.ring (q.last_used % q.size) (record { id = head; len = l }) _
        (omega (arith, v.answers, below))

  receive_head :
      (l fuel : ℕ)
      → 0 < l
      → l ≤ bytes_per_frame
      → receive (answered l) (suc (suc fuel)) (record { id = head; len = l })
        ≡ some (record {
          returned = true;
          request = (descriptor_at q head).addr;
          result = (descriptor_at q tail).addr;
        })
  receive_head l fuel h m =
      rw
        (
          ==_ne l 0 (λ e. absurd (omega (arith, e))),
          le→ltb_false bytes_per_frame l m,
          chained_head,
          chained_tail,
        )
        (ap
          (λ d.
            some
              (record { returned = true; request = d.addr; result = (descriptor_at q tail).addr }))
          chained_head)

  fresh : (u : ℕ) → u < 2 ^ 16 → u ≢ (u + 1) % 2 ^ 16
  fresh u h e = absurd (omega (arith, e))

  -- What a request and its answer come to.
  pub record IsExchanged (l fuel : ℕ) : Type 0 where
    pub offered : get_or notified.available.ring (q.available.index % q.size) 0 ≡ head
    pub counted : notified.available.index ≡ (q.available.index + 1) % 2 ^ 16
    pub received :
        (read_one_buffer (answer notified head l) (suc (suc fuel))).0
        ≡ some (record {
          returned = true;
          request = (get_next_descriptor_buffer q len').0;
          result = (descriptor_at q tail).addr;
        })
    pub idle_again : IsIdle (read_one_buffer (answer notified head l) (suc (suc fuel))).1

  read_one_buffer-sent :
      (l fuel : ℕ)
      → q.last_used < 2 ^ 16
      → read_one_buffer (answered l) fuel ≡ (
        receive (answered l) fuel (elem_at (answered l) (q.last_used % q.size)),
        let w = answered l in record w { last_used = (q.last_used + 1) % 2 ^ 32 },
      )
  unfolding read_one_buffer
  read_one_buffer-sent l fuel u =
      rw (==_ne q.last_used ((q.last_used + 1) % 2 ^ 16) (fresh q.last_used u)) refl

  sent-IsIdle : (l last : ℕ) → IsIdle (let w = answered l in record w { last_used = last })
  sent-IsIdle l last = record {
    sized = v.sized;
    whole = length-chained;
    answers =
        length-set q.used.ring (q.last_used % q.size) (record { id = head; len = l }) ∙ v.answers;
    published = length-set q.available.ring (q.available.index % q.size) head ∙ v.published;
    nothing_added = refl;
    word = omega arith;
  }

  -- A request that is put into an idle queue is published in the next entry of the available ring. When
  -- the device has answered it with 1 to 4096 bytes, read_one_buffer gives the buffer that the request
  -- was written to and the buffer behind it, two steps along the chain are enough, and the queue is
  -- idle again, also where its rings and numbers wrap. Fewer than 2 ^ 16 answers were read before.
  pub notify_device-IsExchanged :
      (l fuel : ℕ) → q.last_used < 2 ^ 16 → 0 < l → l ≤ bytes_per_frame → IsExchanged l fuel
  unfolding get_next_descriptor_buffer
  notify_device-IsExchanged l fuel u h m =
      let z = v.sized in
      let below : q.available.index % q.size < q.size = mod-lt q.available.index (omega arith) in
      let e = notified-published_with in
      record {
        offered =
            ap (λ w. get_or w.available.ring (q.available.index % q.size) 0) e
            ∙ get_or-set_self q.available.ring (q.available.index % q.size) head 0
                (omega (arith, v.published, below));
        counted = ap (λ w. w.available.index) e;
        received =
            ap (λ w. (read_one_buffer (answer w head l) (suc (suc fuel))).0) e
            ∙ ap (λ r. r.0) (read_one_buffer-sent l (suc (suc fuel)) u)
            ∙ ap (receive (answered l) (suc (suc fuel))) (elem l)
            ∙ receive_head l fuel h m;
        idle_again =
            subst IsIdle
              (sym (
                ap (λ r. r.1)
                  (ap (λ w. read_one_buffer (answer w head l) (suc (suc fuel))) e
                    ∙ read_one_buffer-sent l (suc (suc fuel)) u)))
              (sent-IsIdle l ((q.last_used + 1) % 2 ^ 32));
      }
