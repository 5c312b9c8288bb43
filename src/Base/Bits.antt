-- ===== src/Base/Bits.antt =====
-- `&`, `|` and shifts of machine words as arithmetic: both operations work digit by digit, so they
-- split at any bit position into a high and a low part.
use Prim.Native.Nat.{
  ℕ, zero, suc, ◌+◌, ◌-◌, ◌*◌, ◌/◌, ◌%◌, ◌^◌, ◌≤◌, ◌<◌, min, max, bit_and, bit_or,
}
use Prim.Native.Nat.{digits, bitwise, bit_and-bitwise, bit_or-bitwise}
use mathlib.Core.Path.{◌≡◌, refl, ap, ◌∙◌}
use native.Mathlib.Omega.{arith}
use native.Mathlib.Nat.{pow-suc, one-le-pow, div-add-mod}

module _ (low : ℕ → ℕ) (op : ℕ → ℕ → ℕ) where
  -- One more unit of fuel than the first operand changes nothing.
  spare_fuel : (n a b : ℕ) → a ≤ n → digits low op (suc n) a b ≡ digits low op n a b
  spare_fuel zero zero b h = refl
  spare_fuel zero (suc a) b h = absurd (omega arith)
  spare_fuel (suc n) zero b h = refl
  spare_fuel (suc n) (suc a) b h = rw (spare_fuel n (suc a / 2) (b / 2) (omega arith))

  all_spare : (extra n a b : ℕ) → a + extra ≡ n → digits low op n a b ≡ bitwise low op a b
  all_spare zero n a b e = let e' : n ≡ a = omega arith in rw e'
  all_spare (suc extra) zero a b e = absurd (omega arith)
  all_spare (suc extra) (suc n) a b e =
      spare_fuel n a b (omega arith) ∙ all_spare extra n a b (omega arith)

  first_digit :
      (a b : ℕ)
      → bitwise low op (suc a) b ≡ bitwise low op (suc a / 2) (b / 2) * 2 + op (suc a % 2) (b % 2)
  first_digit a b = omega (arith, all_spare (a - suc a / 2) a (suc a / 2) (b / 2) (omega arith))

-- The lowest digit apart from the others.
pub bit_or_digit : (x y : ℕ) → max (x % 2) (y % 2) + 2 * bit_or (x / 2) (y / 2) ≡ bit_or x y
bit_or_digit zero y = omega (arith, bit_or-bitwise 0 y, bit_or-bitwise 0 (y / 2))
bit_or_digit (suc x) y =
    rw (bit_or-bitwise (suc x) y, bit_or-bitwise (suc x / 2) (y / 2))
      (omega (arith, first_digit (λ u. u) max x y))

pub zero-bit_and : (a : ℕ) → bit_and 0 a ≡ 0
zero-bit_and a = rw bit_and-bitwise

pub bit_and_digit : (x y : ℕ) → min (x % 2) (y % 2) + 2 * bit_and (x / 2) (y / 2) ≡ bit_and x y
bit_and_digit zero y = omega (arith, zero-bit_and y, zero-bit_and (y / 2))
bit_and_digit (suc x) y =
    rw (bit_and-bitwise (suc x) y, bit_and-bitwise (suc x / 2) (y / 2))
      (omega (arith, first_digit (λ _. 0) min x y))

-- Both split at bit `k`.
pub bit_or_split :
    (k a b c d : ℕ)
    → c < 2 ^ k
    → d < 2 ^ k
    → bit_or (a * 2 ^ k + c) (b * 2 ^ k + d) ≡ bit_or a b * 2 ^ k + bit_or c d
bit_or_split zero a b c d hc hd = ground arith
bit_or_split (suc k) a b c d hc hd = ground (
  arith,
  bit_or_digit (a * 2 ^ suc k + c) (b * 2 ^ suc k + d),
  bit_or_digit c d,
  pow-suc 2 k,
  ap (λ (t : ℕ). a * t) (pow-suc 2 k),
  ap (λ (t : ℕ). b * t) (pow-suc 2 k),
  ap (λ (t : ℕ). bit_or a b * t) (pow-suc 2 k),
  bit_or_split k a b (c / 2) (d / 2) (omega arith) (omega arith),
)

pub bit_and_split :
    (k a b c d : ℕ)
    → c < 2 ^ k
    → d < 2 ^ k
    → bit_and (a * 2 ^ k + c) (b * 2 ^ k + d) ≡ bit_and a b * 2 ^ k + bit_and c d
bit_and_split zero a b c d hc hd = ground arith
bit_and_split (suc k) a b c d hc hd = ground (
  arith,
  bit_and_digit (a * 2 ^ suc k + c) (b * 2 ^ suc k + d),
  bit_and_digit c d,
  pow-suc 2 k,
  ap (λ (t : ℕ). a * t) (pow-suc 2 k),
  ap (λ (t : ℕ). b * t) (pow-suc 2 k),
  ap (λ (t : ℕ). bit_and a b * t) (pow-suc 2 k),
  bit_and_split k a b (c / 2) (d / 2) (omega arith) (omega arith),
)

pub bit_or-zero : (a : ℕ) → bit_or a 0 ≡ a
bit_or-zero a = below a a (omega arith)
  where
    below : (n a : ℕ) → a ≤ n → bit_or a 0 ≡ a
    below n zero h = refl
    below zero (suc a) h = absurd (omega arith)
    below (suc n) (suc a) h =
        omega (arith, bit_or_digit (suc a) 0, below n (suc a / 2) (omega arith))

pub bit_and-zero : (a : ℕ) → bit_and a 0 ≡ 0
bit_and-zero a = below a a (omega arith)
  where
    below : (n a : ℕ) → a ≤ n → bit_and a 0 ≡ 0
    below n zero h = refl
    below zero (suc a) h = absurd (omega arith)
    below (suc n) (suc a) h =
        omega (arith, bit_and_digit (suc a) 0, below n (suc a / 2) (omega arith))

pub zero-bit_or : (a : ℕ) → bit_or 0 a ≡ a
zero-bit_or a = rw bit_or-bitwise

within_ones : (k r m : ℕ) → m + 1 ≡ 2 ^ k → r < 2 ^ k → bit_and r m ≡ r
within_ones zero r m h lt = let e : r ≡ 0 = omega arith in rw (e, zero-bit_and)
within_ones (suc k) r m h lt = omega (
  arith,
  bit_and_digit r m,
  pow-suc 2 k,
  one-le-pow k 2,
  within_ones k (r / 2) (m / 2) (omega (arith, pow-suc 2 k)) (omega (arith, pow-suc 2 k)),
)

-- A mask of `k` ones keeps the remainder by `2 ^ k`.
pub bit_and_ones : (k a m : ℕ) → m + 1 ≡ 2 ^ k → bit_and a m ≡ a % 2 ^ k
bit_and_ones k a m h =
    let q = a / 2 ^ k in
    let r = a % 2 ^ k in
    let pos : 0 < 2 ^ k = one-le-pow k 2 (omega arith) in
    let lt : r < 2 ^ k = omega arith in
    ground (
      arith,
      div-add-mod a (2 ^ k),
      bit_and_split k q 0 r m lt (omega arith),
      bit_and-zero q,
      within_ones k r m h lt,
    )

pub two_pow-add : (a b : ℕ) → 2 ^ (a + b) ≡ 2 ^ a * 2 ^ b
two_pow-add a zero = ground arith
two_pow-add a (suc b) = ground (
  arith,
  pow-suc 2 (a + b),
  pow-suc 2 b,
  two_pow-add a b,
  ap (λ (t : ℕ). 2 ^ a * t) (pow-suc 2 b),
)
