-- ===== src/Prelude/Bits.antt =====
-- Bit `k` of a word, and what the machine's `&` and `|` do to each bit.
use Prim.Native.Nat.{
  ℕ, zero, suc, ◌+◌, ◌-◌, ◌*◌, ◌/◌, ◌%◌, ◌^◌, ◌≤◌, ◌<◌, min, max, digits, bit_and, bit_or, bit_xor,
  differ, bit_and-bitwise, bit_or-bitwise, bit_xor-bitwise,
}
use mathlib.Core.Path.{◌≡◌, refl, ap}
use tweaking_pintos.Prelude.Tests.{ltb, ◌==◌, ◌!=◌, if◌then◌else◌}
use native.Mathlib.Nat.{le_refl, pow-suc, one-le-pow, pow-le-pow_right}
use native.Mathlib.Omega.{arith}

-- Bit `k` of `w`, 0 or 1.
unfoldable pub bit : ℕ → ℕ → ℕ
bit w zero = w % 2
bit w (suc k) = bit (w / 2) k

module _ (z : ℕ → ℕ) (f : ℕ → ℕ → ℕ) where
  -- The fuel of the digit recursion does not matter, once it covers the number.
  fuel_irrelevant : (n m a b : ℕ) → a ≤ n → a ≤ m → digits z f n a b ≡ digits z f m a b
  fuel_irrelevant zero zero a b p q = refl
  fuel_irrelevant zero (suc m) zero b p q = refl
  fuel_irrelevant zero (suc m) (suc a) b p q = absurd (omega arith)
  fuel_irrelevant (suc n) zero zero b p q = refl
  fuel_irrelevant (suc n) zero (suc a) b p q = absurd (omega arith)
  fuel_irrelevant (suc n) (suc m) zero b p q = refl
  fuel_irrelevant (suc n) (suc m) (suc a) b p q =
      rw (fuel_irrelevant n m (suc a / 2) (b / 2) (omega arith) (omega arith))

  lowest_digit :
      (a b : ℕ)
      → digits z f (suc a) (suc a) b
        ≡ digits z f (suc a / 2) (suc a / 2) (b / 2) * 2 + f (suc a % 2) (b % 2)
  lowest_digit a b =
      omega (arith, fuel_irrelevant a (suc a / 2) (suc a / 2) (b / 2) (omega arith) (le_refl _))

and_digit : (a b : ℕ) → bit_and a b ≡ bit_and (a / 2) (b / 2) * 2 + min (a % 2) (b % 2)
and_digit zero b = simp bit_and-bitwise (omega arith)
and_digit (suc a) b = simp bit_and-bitwise (lowest_digit (λ y. 0) min a b)

or_digit : (a b : ℕ) → bit_or a b ≡ bit_or (a / 2) (b / 2) * 2 + max (a % 2) (b % 2)
or_digit zero b = simp bit_or-bitwise (omega arith)
or_digit (suc a) b = simp bit_or-bitwise (lowest_digit (λ y. y) max a b)

pub bit-and : (k a b : ℕ) → bit (bit_and a b) k ≡ min (bit a k) (bit b k)
unfolding bit
bit-and zero a b = omega (arith, and_digit a b)
bit-and (suc k) a b =
    let half : bit_and a b / 2 ≡ bit_and (a / 2) (b / 2) = omega (arith, and_digit a b) in
    rw half (bit-and k (a / 2) (b / 2))

pub bit-or : (k a b : ℕ) → bit (bit_or a b) k ≡ max (bit a k) (bit b k)
unfolding bit
bit-or zero a b = omega (arith, or_digit a b)
bit-or (suc k) a b =
    let half : bit_or a b / 2 ≡ bit_or (a / 2) (b / 2) = omega (arith, or_digit a b) in
    rw half (bit-or k (a / 2) (b / 2))

xor_digit : (a b : ℕ) → bit_xor a b ≡ bit_xor (a / 2) (b / 2) * 2 + differ (a % 2) (b % 2)
xor_digit zero b = simp bit_xor-bitwise (xor_zero b)
  where
    xor_zero : (b : ℕ) → b ≡ b / 2 * 2 + b % 2
    xor_zero b = omega arith
xor_digit (suc a) b = simp bit_xor-bitwise (lowest_digit (λ y. y) differ a b)

differ_lem : (x y : ℕ) → x < 2 → y < 2 → differ x y ≡ (if x == y then 0 else 1)
differ_lem zero zero p q = refl
differ_lem zero (suc zero) p q = refl
differ_lem (suc zero) zero p q = refl
differ_lem (suc zero) (suc zero) p q = refl
differ_lem zero (suc (suc y)) p q = absurd (omega arith)
differ_lem (suc zero) (suc (suc y)) p q = absurd (omega arith)
differ_lem (suc (suc x)) y p q = absurd (omega arith)

pub bit-xor : (k a b : ℕ) → bit (bit_xor a b) k ≡ (if bit a k == bit b k then 0 else 1)
unfolding bit
bit-xor zero a b =
    ground (arith, xor_digit a b, differ_lem (a % 2) (b % 2) (omega arith) (omega arith))
bit-xor (suc k) a b =
    let digit = differ_lem (a % 2) (b % 2) (omega arith) (omega arith) in
    let half : bit_xor a b / 2 ≡ bit_xor (a / 2) (b / 2) = ground (arith, xor_digit a b, digit) in
    rw half (bit-xor k (a / 2) (b / 2))

pub bit-lt : (w k : ℕ) → bit w k < 2
unfolding bit
bit-lt w zero = omega arith
bit-lt w (suc k) = bit-lt (w / 2) k

pub zero-bit : (k : ℕ) → bit 0 k ≡ 0
unfolding bit
zero-bit zero = refl
zero-bit (suc k) = zero-bit k

-- A word of `n` bits has no bit from `n` up.
pub bit_beyond : (n w k : ℕ) → w < 2 ^ n → n ≤ k → bit w k ≡ 0
unfolding bit
bit_beyond zero w k h le = let none : w ≡ 0 = omega arith in rw (none, zero-bit)
bit_beyond (suc n) w zero h le = absurd (omega arith)
bit_beyond (suc n) w (suc k) h le =
    bit_beyond n (w / 2) k (omega (arith, pow-suc 2 n)) (omega arith)

pub pow-lt : (k n : ℕ) → k < n → 2 ^ k < 2 ^ n
pow-lt k n h =
    let le : 2 ^ suc k ≤ 2 ^ n = pow-le-pow_right (omega arith) (omega arith) in
    omega (arith, le, pow-suc 2 k, one-le-pow k 2)

-- Only bit `i` of `2 ^ i` is set.
pub bit-pow : (i k : ℕ) → bit (2 ^ i) k ≡ (if i == k then 1 else 0)
unfolding bit
bit-pow zero zero = refl
bit-pow zero (suc k) = ground (arith, zero-bit k)
bit-pow (suc i) zero = ground (arith, pow-suc 2 i)
bit-pow (suc i) (suc k) =
    let half : 2 ^ suc i / 2 ≡ 2 ^ i = omega (arith, pow-suc 2 i) in
    rw half (ground (arith, bit-pow i k))

-- The complement of a word of `n` bits.
pub bit-complement :
    (n w k : ℕ) → w < 2 ^ n → bit (2 ^ n - 1 - w) k ≡ (if ltb k n then 1 - bit w k else 0)
unfolding bit
bit-complement zero w k h =
    let e : 2 ^ 0 - 1 - w ≡ 0 = omega arith in rw e (ground (arith, zero-bit k))
bit-complement (suc n) w zero h = ground (arith, pow-suc 2 n)
bit-complement (suc n) w (suc k) h =
    let half : (2 ^ suc n - 1 - w) / 2 ≡ 2 ^ n - 1 - w / 2 = omega (arith, pow-suc 2 n) in
    rw half (ground (arith, bit-complement n (w / 2) k (omega (arith, pow-suc 2 n))))

-- Words with the same bits are the same.
pub bit_ext : (n a b : ℕ) → a < 2 ^ n → b < 2 ^ n → ((k : ℕ) → bit a k ≡ bit b k) → a ≡ b
unfolding bit
bit_ext zero a b ha hb same = omega arith
bit_ext (suc n) a b ha hb same =
    let halves : a / 2 ≡ b / 2 =
      bit_ext n (a / 2) (b / 2) (omega (arith, pow-suc 2 n)) (omega (arith, pow-suc 2 n))
        (λ k. same (suc k)) in
    omega (arith, same 0)

pub or-lt : (n a b : ℕ) → a < 2 ^ n → b < 2 ^ n → bit_or a b < 2 ^ n
or-lt zero a b ha hb =
    let ea : a ≡ 0 = omega arith in let eb : b ≡ 0 = omega arith in rw (ea, eb) (omega arith)
or-lt (suc n) a b ha hb =
    let half : bit_or (a / 2) (b / 2) < 2 ^ n =
      or-lt n (a / 2) (b / 2) (omega (arith, pow-suc 2 n)) (omega (arith, pow-suc 2 n)) in
    omega (arith, or_digit a b, pow-suc 2 n)

pub xor-lt : (n a b : ℕ) → a < 2 ^ n → b < 2 ^ n → bit_xor a b < 2 ^ n
xor-lt zero a b ha hb =
    let ea : a ≡ 0 = omega arith in let eb : b ≡ 0 = omega arith in rw (ea, eb) (omega arith)
xor-lt (suc n) a b ha hb =
    let half : bit_xor (a / 2) (b / 2) < 2 ^ n =
      xor-lt n (a / 2) (b / 2) (omega (arith, pow-suc 2 n)) (omega (arith, pow-suc 2 n)) in
    let digit = differ_lem (a % 2) (b % 2) (omega arith) (omega arith) in
    ground (arith, xor_digit a b, digit, half, pow-suc 2 n)

pub and-lt : (n a b : ℕ) → a < 2 ^ n → bit_and a b < 2 ^ n
and-lt zero a b ha = let ea : a ≡ 0 = omega arith in rw (ea, bit_and-bitwise) (omega arith)
and-lt (suc n) a b ha =
    let half : bit_and (a / 2) (b / 2) < 2 ^ n =
      and-lt n (a / 2) (b / 2) (omega (arith, pow-suc 2 n)) in
    omega (arith, and_digit a b, pow-suc 2 n)

-- A mask bounds what it leaves.
pub and-le : (n a b : ℕ) → a < 2 ^ n → bit_and a b ≤ b
and-le zero a b ha = let ea : a ≡ 0 = omega arith in rw (ea, bit_and-bitwise) (omega arith)
and-le (suc n) a b ha =
    omega (arith, and_digit a b, and-le n (a / 2) (b / 2) (omega (arith, pow-suc 2 n)))

and-zero : (n a : ℕ) → a < 2 ^ n → bit_and a 0 ≡ 0
and-zero zero a h = let e : a ≡ 0 = omega arith in rw e
and-zero (suc n) a h = omega (arith, and_digit a 0, and-zero n (a / 2) (omega (arith, pow-suc 2 n)))

-- Masking out all but bit `i`.
pub and-pow : (i n w : ℕ) → w < 2 ^ n → bit_and w (2 ^ i) ≡ bit w i * 2 ^ i
unfolding bit
and-pow zero n w h = omega (arith, and_digit w 1, and-zero n (w / 2) (omega arith))
and-pow (suc i) n w h =
    let half : 2 ^ suc i / 2 ≡ 2 ^ i = omega (arith, pow-suc 2 i) in
    let rest : bit_and (w / 2) (2 ^ i) ≡ bit (w / 2) i * 2 ^ i =
      and-pow i n (w / 2) (omega arith) in
    rw (and_digit, half, rest)
      (omega (arith, pow-suc 2 i, ap (λ (t : ℕ). bit (w / 2) i * t) (pow-suc 2 i)))

lt-pow : (w : ℕ) → w < 2 ^ w
lt-pow zero = omega arith
lt-pow (suc w) = omega (arith, lt-pow w, pow-suc 2 w)

-- The C test `(w & (1 << i)) != 0`.
pub masked_test : (w i : ℕ) → (bit_and w (2 ^ i) != 0) ≡ (bit w i == 1)
masked_test w i =
    ground
      (arith, and-pow i w w (lt-pow w), bit-lt w i, one-le-pow i 2, zero_or_one (bit w i) (2 ^ i))
  where
    zero_or_one : (b q : ℕ) → (b ≡ 0 → b * q ≡ 0) × (b ≡ 1 → b * q ≡ q)
    zero_or_one b q = (λ e. rw e (omega arith), λ e. rw e (omega arith))
