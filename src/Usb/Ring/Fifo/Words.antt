-- ===== src/Usb/Ring/Fifo/Words.antt =====
-- src/usb/xhci/ring.hpp: what the stamp of the cycle bit changes in a TRB, and a fresh link.
use klee.Base.{ℕ, ◌*◌, ◌%◌, ◌/◌, ◌+◌, ◌≡◌, ap, Bool, true, false, arith, ◌==◌}
use klee.Usb.Ring.{
  Trb, stamp, bit, cycle_bit_of, trb_type_of, link_type, new_link_trb, toggle_cycle,
  get_link_pointer,
}
use klee.Usb.Ring.Controller.{payload}

pub bit-mod : (x : ℕ) (c : Bool) → ((x / 2 * 2 + bit c) % 2 == 1) ≡ c
bit-mod x true = ground arith
bit-mod x false = ground arith

pub cycle_bit_of-stamp : (c : Bool) (t : Trb) → cycle_bit_of (stamp c t) ≡ c
cycle_bit_of-stamp c t = bit-mod t.data3 c

type-bit : (x : ℕ) (c : Bool) → (x / 2 * 2 + bit c) / 1024 % 64 ≡ x / 1024 % 64
type-bit x true = omega arith
type-bit x false = omega arith

pub trb_type_of-stamp : (c : Bool) (t : Trb) → trb_type_of (stamp c t) ≡ trb_type_of t
trb_type_of-stamp c t = type-bit t.data3 c

half-bit : (x : ℕ) (c : Bool) → (x / 2 * 2 + bit c) / 2 ≡ x / 2
half-bit x true = omega arith
half-bit x false = omega arith

pub payload-stamp : (c : Bool) (t : Trb) → payload (stamp c t) ≡ payload t
payload-stamp c t = ap (λ x. record t { data3 = x * 2 }) (half-bit t.data3 c)

link-type : (x : ℕ) → (x / 65536 * 65536 + 6 * 1024 + x / 4 % 256 * 4 + 2 + x % 2) / 1024 % 64 ≡ 6
link-type x = omega arith

link-toggle :
    (x : ℕ) → ((x / 65536 * 65536 + 6 * 1024 + x / 4 % 256 * 4 + 2 + x % 2) / 2 % 2 == 1) ≡ true
link-toggle x = ground arith

link-pointer :
    (p a j : ℕ)
    → p ≡ a * 16
    → p / 4294967296 * 4294967296 + (p % 4294967296 / 16 * 16 + j % 16) / 16 * 16 ≡ p
link-pointer p a j h = omega arith

pub trb_type_of-new_link_trb :
    (c : Bool) (t : Trb) (p : ℕ) → trb_type_of (stamp c (new_link_trb t p)) ≡ link_type
trb_type_of-new_link_trb c t p = rw (trb_type_of-stamp c (new_link_trb t p)) (link-type t.data3)

pub toggle_cycle-new_link_trb :
    (c : Bool) (t : Trb) (p : ℕ) → toggle_cycle (stamp c (new_link_trb t p)) ≡ true
toggle_cycle-new_link_trb c t p =
    rw (half-bit (t.data3 / 65536 * 65536 + 6 * 1024 + t.data3 / 4 % 256 * 4 + 2 + t.data3 % 2) c)
      (link-toggle t.data3)

pub get_link_pointer-new_link_trb :
    (c : Bool) (t : Trb) (p a : ℕ) → p ≡ a * 16 → get_link_pointer (stamp c (new_link_trb t p)) ≡ p
get_link_pointer-new_link_trb c t p a h = link-pointer p a t.data0 h
