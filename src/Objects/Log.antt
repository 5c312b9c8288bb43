-- ===== src/Objects/Log.antt =====
-- luaO_log2 is the integer logarithm, and ceillog2 the exponent of the next power of two.
use mathlib.Core.Option
use native.Mathlib.Nat.{pow-suc}
use soft_renderer_lua.Base.Bits.{two_pow-add}
use soft_renderer_lua.Objects.FloatingByte.{all_below, all_below_lem}
use soft_renderer_lua.Base.{
  ℕ, zero, suc, ◌+◌, ◌-◌, ◌*◌, ◌/◌, ◌%◌, ◌^◌, ◌≤◌, ◌<◌, ◌≡◌, refl, ap, ◌∙◌, arith, leb, ltb, Bool,
  true, ◌&&◌, some, Bool-cases, inl, inr, get_or,
}
use soft_renderer_lua.Base.Int.{pos, negsuc, ◌+ℤ◌}
use soft_renderer_lua.Objects.{log_2, log2_loop, log2, ceillog2}

-- Entry `y` of the table is the number of binary digits of `y`.
is_width : ℕ → ℕ → Bool
is_width y n = leb (2 ^ n) (2 * y) && ltb y (2 ^ n)

log_2_table : all_below 255 (λ y. is_width (suc y) (get_or log_2 (suc y) 0)) ≡ true
unfolding all_below is_width log_2
log_2_table = refl

log_2_byte : (y : ℕ) → 0 < y → y < 256 → (2 ^ get_or log_2 y 0 ≤ 2 * y) × (y < 2 ^ get_or log_2 y 0)
unfolding is_width
log_2_byte zero lo hi = absurd (omega arith)
log_2_byte (suc y) lo hi = ground (arith, all_below_lem 255 _ y log_2_table (omega arith))

-- What the loop leaves: `x` without its low `d` bits.
loop_lem :
    (x : ℕ)
    → 0 < x
    → x < 2 ^ 32
    → (y : ℕ) × (d : ℕ) × (log2_loop 4 x (negsuc 0) ≡ some (y, negsuc 0 +ℤ pos d))
      × (0 < y)
      × (y < 256)
      × (y * 2 ^ d ≤ x)
      × (x < (y + 1) * 2 ^ d)
unfolding log2_loop ◌+ℤ◌
loop_lem x lo hi = elim (Bool-cases (leb 256 x)) [
  | inr a ↦ (x, 0, ground arith, lo, ground arith, omega arith, omega arith)
  | inl a ↦ elim (Bool-cases (leb 256 (x / 256))) [
    | inr b ↦ (x / 256, 8, ground arith, ground arith, ground arith, omega arith, omega arith)
    | inl b ↦ elim (Bool-cases (leb 256 (x / 256 / 256))) [
      | inr c ↦
          (x / 256 / 256, 16, ground arith, ground arith, ground arith, omega arith, omega arith)
      | inl c ↦ (
        x / 256 / 256 / 256,
        24,
        ground arith,
        ground arith,
        ground arith,
        omega arith,
        omega arith,
      )
    ]
  ]
]

mul_mono : (a b p : ℕ) → a ≤ b → a * p ≤ b * p
mul_mono a b p h = grind arith

-- The digits of `y` with the `d` low bits put back.
widen :
    (x y d t : ℕ)
    → 0 < y
    → y * 2 ^ d ≤ x
    → x < (y + 1) * 2 ^ d
    → 2 ^ t ≤ 2 * y
    → y < 2 ^ t
    → (n : ℕ) × (n + 1 ≡ d + t) × (2 ^ n ≤ x) × (x < 2 ^ suc n)
widen x y d zero y0 below above narrow wide = absurd (omega arith)
widen x y d (suc m) y0 below above narrow wide =
    let lower = mul_mono (2 ^ m) y (2 ^ d) (omega (arith, pow-suc 2 m)) in
    let upper = mul_mono (y + 1) (2 ^ suc m) (2 ^ d) (omega arith) in
    (
      m + d,
      omega arith,
      omega (arith, two_pow-add m d),
      omega (arith, two_pow-add m d, pow-suc 2 (m + d), ap (λ (t : ℕ). t * 2 ^ d) (pow-suc 2 m)),
    )

add_lem : (d t n : ℕ) → n + 1 ≡ d + t → negsuc 0 +ℤ pos d +ℤ pos t ≡ pos n
unfolding ◌+ℤ◌
add_lem d t n h = ground arith

-- On a positive `unsigned int` luaO_log2 is the largest `n` such that `2 ^ n` is not above the input.
pub log2-floor :
    (x : ℕ) → 0 < x → x < 2 ^ 32 → (n : ℕ) × (log2 x ≡ some (pos n)) × (2 ^ n ≤ x) × (x < 2 ^ suc n)
unfolding log2
log2-floor x lo hi =
    let (y, d, run, y0, y1, below, above) = loop_lem x lo hi in
    let (narrow, wide) = log_2_byte y y0 y1 in
    let (n, sum, least, most) = widen x y d (get_or log_2 y 0) y0 below above narrow wide in
    (n, ap (Option.map _) run ∙ ap some (add_lem d (get_or log_2 y 0) n sum), least, most)

suc_lem : (n : ℕ) → pos n +ℤ pos 1 ≡ pos (suc n)
unfolding ◌+ℤ◌
suc_lem n = ground arith

ceillog2_of :
    (x y n : ℕ)
    → (x + 2 ^ 32 - 1) % 2 ^ 32 ≡ y
    → log2 y ≡ some (pos n)
    → ceillog2 x ≡ some (pos (suc n))
unfolding ceillog2
ceillog2_of x y n less run = rw (less, run) (ap some (suc_lem n))

-- On an `unsigned int` above 1 ceillog2 is the exponent of the least power of two that is not below
-- the input.
pub ceillog2-ceiling :
    (x : ℕ)
    → 1 < x
    → x < 2 ^ 32
    → (n : ℕ) × (ceillog2 x ≡ some (pos (suc n))) × (2 ^ n < x) × (x ≤ 2 ^ suc n)
ceillog2-ceiling x lo hi =
    let less : (x + 2 ^ 32 - 1) % 2 ^ 32 ≡ x - 1 = omega arith in
    let (n, run, least, most) = log2-floor (x - 1) (omega arith) (omega arith) in
    (n, ceillog2_of x (x - 1) n less run, omega arith, omega arith)
