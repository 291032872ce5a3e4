-- ===== src/Memory/Bits.antt =====
-- Single bits of an unsigned word: what `x & (1 << k)`, `x |= 1 << k` and `x &= ~(1 << k)` do.
use native.Mathlib.Nat.{pow-suc}
use klee.Base.{
  ℕ, zero, suc, ◌+◌, ◌*◌, ◌/◌, ◌%◌, ◌^◌, ◌<◌, ◌≡◌, refl, ap, ◌≢◌, Bool, arith, ◌==◌, if◌then◌else◌,
}

-- `(x & (1 << k)) != 0`
unfoldable pub test_bit : ℕ → ℕ → Bool
test_bit x zero = x % 2 == 1
test_bit x (suc k) = test_bit (x / 2) k

-- `x |= 1 << k` for true, `x &= ~(1 << k)` for false
unfoldable pub put_bit : ℕ → ℕ → Bool → ℕ
put_bit x zero flag = x / 2 * 2 + (if flag then 1 else 0)
put_bit x (suc k) flag = put_bit (x / 2) k flag * 2 + x % 2

pub test_bit-put_bit_self : (x k : ℕ) (b : Bool) → test_bit (put_bit x k b) k ≡ b
unfolding test_bit put_bit
test_bit-put_bit_self x zero b = ground arith
test_bit-put_bit_self x (suc k) b =
    let e : (put_bit (x / 2) k b * 2 + x % 2) / 2 ≡ put_bit (x / 2) k b = omega arith in
    rw e (test_bit-put_bit_self (x / 2) k b)

pub test_bit-put_bit_ne : (x j k : ℕ) (b : Bool) → j ≢ k → test_bit (put_bit x k b) j ≡ test_bit x j
unfolding test_bit put_bit
test_bit-put_bit_ne x zero zero b h = absurd (h refl)
test_bit-put_bit_ne x zero (suc k) b h = ground arith
test_bit-put_bit_ne x (suc j) zero b h =
    let e : (x / 2 * 2 + (if b then 1 else 0)) / 2 ≡ x / 2 = ground arith in
    ap (λ y. test_bit y j) e
test_bit-put_bit_ne x (suc j) (suc k) b h =
    let e : (put_bit (x / 2) k b * 2 + x % 2) / 2 ≡ put_bit (x / 2) k b = omega arith in
    rw e (test_bit-put_bit_ne (x / 2) j k b (λ p. h (ap suc p)))

-- A word of w bits stays one.
pub put_bit-lt : (w x k : ℕ) (b : Bool) → k < w → x < 2 ^ w → put_bit x k b < 2 ^ w
unfolding put_bit
put_bit-lt zero x k b h l = absurd (omega arith)
put_bit-lt (suc w) x zero b h l = let p = pow-suc 2 w in ground arith
put_bit-lt (suc w) x (suc k) b h l =
    omega (arith, pow-suc 2 w, put_bit-lt w (x / 2) k b (omega arith) (omega (arith, pow-suc 2 w)))
