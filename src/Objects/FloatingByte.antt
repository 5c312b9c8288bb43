-- ===== src/Objects/FloatingByte.antt =====
-- luaO_int2fb rounds a size up to a number of the form (1xxx) * 2^(eeeee - 1).
use mathlib.Core.Option
use native.Mathlib.Nat.{pow-suc, pow-le-pow_right}
use soft_renderer_lua.Base.{
  ℕ, zero, suc, ◌+◌, ◌-◌, ◌*◌, ◌/◌, ◌%◌, ◌^◌, ◌≤◌, ◌<◌, ◌≡◌, refl, ap, arith, bit_and, bit_or, leb,
  Option, none, some, Bool-cases, Bool, true, false, ◌&&◌, ◌==◌, ltb, inl, inr, ◌⊎◌,
}
use soft_renderer_lua.Base.Bits.{bit_or_split, bit_and_ones, bit_or-zero, zero-bit_or}
use soft_renderer_lua.Objects.{int2fb_loop, int2fb, fb2int}

-- The test holds of the `count` least numbers.
unfoldable pub all_below : ℕ → (ℕ → Bool) → Bool
all_below zero test = true
all_below (suc count) test = test count && all_below count test

pub all_below_lem :
    (count : ℕ) (test : ℕ → Bool) (y : ℕ) → all_below count test ≡ true → y < count → test y ≡ true
unfolding all_below
all_below_lem (suc count) test y all below = ground (arith, all_below_lem count test y)
all_below_lem zero test y all below = absurd (omega arith)

abbrev same : Option ℕ → ℕ → Bool
same none b = false
same (some a) b = a == b

same_lem : (o : Option ℕ) (b : ℕ) → same o b ≡ true → o ≡ some b
same_lem none b h = cc
same_lem (some a) b h = ground arith

-- The loop ends with a small `y`, at the least multiple of `2 ^ e` that is not below the input.
loop_lem :
    (fuel x e k : ℕ)
    → k < fuel
    → x ≤ 15 * 2 ^ k
    → x + 1 < 2 ^ 32
    → (y : ℕ) × (d : ℕ) × (int2fb_loop fuel x e ≡ some (y, e + d))
      × (y < 16)
      × (x ≤ y * 2 ^ d)
      × (y * 2 ^ d < x + 2 ^ d)
      × (d ≤ k)
      × ((d ≡ 0) ⊎ (8 ≤ y))
unfolding int2fb_loop
loop_lem zero x e k hf hx hw = absurd (omega arith)
loop_lem (suc fuel) x e zero hf hx hw =
    (x, 0, ground arith, omega arith, omega arith, omega arith, omega arith, inl refl)
loop_lem (suc fuel) x e (suc k) hf hx hw = elim (Bool-cases (leb 16 x)) [
  | inr small ↦
      (x, 0, rw small (ground arith), ground arith, omega arith, omega arith, omega arith, inl refl)
  | inl large ↦
      let (y, d, run, lt, lo, hi, dk, tail) =
        loop_lem fuel ((x + 1) % 2 ^ 32 / 2) (e + 1) k (omega arith) (omega (arith, pow-suc 2 k))
          (omega arith) in
      let twice = ap (λ (t : ℕ). y * t) (pow-suc 2 d) in
      (
        y,
        suc d,
        rw large (ground (arith, run)),
        lt,
        omega (arith, twice),
        omega (arith, twice, pow-suc 2 d),
        omega arith,
        inr (ground (arith, tail)),
      )
]

-- The byte that stands for `y * 2 ^ e`.
code_lem : (y e : ℕ) → 8 ≤ y → y < 16 → (bit_or ((e + 1) * 2 ^ 3) (y - 8) ≡ (e + 1) * 8 + (y - 8))
code_lem y e lo hi = ground (
  arith,
  bit_or_split 3 (e + 1) 0 0 (y - 8) (omega arith) (omega arith),
  bit_or-zero (e + 1),
  zero-bit_or (y - 8),
)

value_lt : (y e : ℕ) → y < 16 → e ≤ 27 → y * 2 ^ e < 2 ^ 31
value_lt y e hi he = let power : 2 ^ e ≤ 2 ^ 27 = pow-le-pow_right (omega arith) he in grind arith

decode_lem : (y e : ℕ) → 8 ≤ y → y < 16 → e ≤ 27 → fb2int ((e + 1) * 8 + (y - 8)) ≡ some (y * 2 ^ e)
unfolding fb2int
decode_lem y e lo hi he =
    let x = (e + 1) * 8 + (y - 8) in
    let exponent : bit_and (x / 8) 31 ≡ e + 1 = rw (bit_and_ones 5 (x / 8) 31 refl) (omega arith) in
    let mantissa : bit_and x 7 ≡ y - 8 = rw (bit_and_ones 3 x 7 refl) (omega arith) in
    let pred : e + 1 - 1 ≡ e = omega arith in
    let whole : y - 8 + 8 ≡ y = omega arith in
    rw (exponent, mantissa, pred, whole) (ground (arith, value_lt y e hi he))

eight_le : (y p : ℕ) → 8 ≤ y → 8 * p ≤ y * p
eight_le y p h = grind arith

-- Every size up to 15 * 2^27 becomes a byte, and that byte stands for a size which is not smaller,
-- larger by a seventh at most, and an `int`.
pub fb2int-int2fb :
    (x : ℕ)
    → x ≤ 15 * 2 ^ 27
    → (b : ℕ) × (r : ℕ) × (int2fb x ≡ some b)
      × (fb2int b ≡ some r)
      × (b < 2 ^ 8)
      × (x ≤ r)
      × (7 * r ≤ 8 * x)
      × (r < 2 ^ 31)
unfolding int2fb fb2int
fb2int-int2fb x h =
    let (y, d, run, lt, lo, hi, dk, tail) = loop_lem 32 x 0 27 (omega arith) h (omega arith) in
    elim (Bool-cases (ltb y 8)) [
      | inl tiny ↦
          let none_left : d ≡ 0 = ground (arith, tail) in
          let exact : x ≡ y = ground (arith, ap (λ (t : ℕ). y * 2 ^ t) none_left) in
          (
            x,
            x,
            ground (arith, run),
            ground (arith, bit_and_ones 5 (x / 8) 31 refl),
            omega arith,
            omega arith,
            omega arith,
            omega arith,
          )
      | inr more ↦
          let eight = eight_le y (2 ^ d) (ground arith) in
          (
            (d + 1) * 8 + (y - 8),
            y * 2 ^ d,
            ground (arith, run, code_lem y d),
            decode_lem y d (ground arith) lt dk,
            omega arith,
            lo,
            omega arith,
            value_lt y d lt dk,
          )
    ]

int2fb_table : all_below 232 (λ b. same (Option.bind (fb2int b) int2fb) b) ≡ true
unfolding all_below fb2int int2fb Option.bind
int2fb_table = refl

-- A byte below 232, which is one that stands for an `int`, is what its value is converted to.
pub int2fb-fb2int : (b : ℕ) → b < 232 → Option.bind (fb2int b) int2fb ≡ some b
int2fb-fb2int b h = same_lem _ b (all_below_lem 232 _ b int2fb_table h)
