-- ===== src/Opcodes/Layout.antt =====
-- The macros of lopcodes.h in closed form, and that the fields of an instruction are independent.
use soft_renderer_lua.Base.{
  ℕ, ◌+◌, ◌-◌, ◌*◌, ◌/◌, ◌%◌, ◌^◌, ◌≤◌, ◌<◌, ◌≡◌, refl, ap, ◌∙◌, arith, bit_and, bit_or,
}
use soft_renderer_lua.Base.Bits.{bit_and_ones, bit_or_split, zero-bit_or, bit_or-zero}
use soft_renderer_lua.Base.Int.{ℤ, pos, negsuc, ◌+ℤ◌, ◌-ℤ◌, ◌≤ℤ◌}
use soft_renderer_lua.Opcodes.Fields.{with_field, or_fields, write_field}
use soft_renderer_lua.Opcodes.{
  get_field, set_field, mask0, mask1, shl, get_opcode, set_opcode, getarg_a, setarg_a, getarg_b,
  setarg_b, getarg_c, setarg_c, getarg_bx, setarg_bx, create_abc, create_abx, getarg_sbx,
  setarg_sbx, maxarg_a, maxarg_b, maxarg_c, maxarg_bx, maxarg_sbx, to_unsigned,
}

pub get_field_lem : (n p i : ℕ) → mask1 n 0 + 1 ≡ 2 ^ n → get_field n p i ≡ i / 2 ^ p % 2 ^ n
unfolding get_field
get_field_lem n p i h = bit_and_ones n (i / 2 ^ p) (mask1 n 0) h

set_field_lem :
    (n p r h m l g v i u above field below : ℕ)
    → i ≡ with_field n p h m l
    → shl u p ≡ with_field n p g v 0
    → mask0 n p ≡ with_field n p above 0 below
    → mask1 n p ≡ with_field n p 0 field 0
    → m < 2 ^ n
    → l < 2 ^ p
    → h < 2 ^ r
    → v < 2 ^ n
    → above + 1 ≡ 2 ^ r
    → field + 1 ≡ 2 ^ n
    → below + 1 ≡ 2 ^ p
    → set_field n p i u ≡ with_field n p h v l
unfolding set_field
set_field_lem n p r h m l g v i u above field below ei eu e0 e1 hm hl hh hv ha hf hb =
    rw (ei, eu, e0, e1) (write_field n p r h m l g v above field below hm hl hh hv ha hf hb)

-- Each SET macro replaces its bits by the low bits of the argument.
module _ (i u : ℕ) (word : i < 2 ^ 32) where
  pub set_opcode_lem : set_opcode i u ≡ i / 2 ^ 6 * 2 ^ 6 + u % 2 ^ 6
  unfolding set_opcode
  set_opcode_lem =
      set_field_lem 6 0 26 (i / 64) (i / 1 % 64) (i % 1) (u % 4294967296 / 64) (u % 64) i u 67108863
        63 0 (omega arith) (omega arith) refl refl (omega arith) (omega arith) (omega arith)
        (omega arith) refl refl refl
      ∙ omega arith

  pub setarg_a_lem : setarg_a i u ≡ i / 2 ^ 14 * 2 ^ 14 + u % 2 ^ 8 * 2 ^ 6 + i % 2 ^ 6
  unfolding setarg_a
  setarg_a_lem =
      set_field_lem 8 6 18 (i / 16384) (i / 64 % 256) (i % 64) (u % 67108864 / 256) (u % 256) i u
        262143 255 63 (omega arith) (omega arith) refl refl (omega arith) (omega arith)
        (omega arith) (omega arith) refl refl refl
      ∙ omega arith

  pub setarg_c_lem : setarg_c i u ≡ i / 2 ^ 23 * 2 ^ 23 + u % 2 ^ 9 * 2 ^ 14 + i % 2 ^ 14
  unfolding setarg_c
  setarg_c_lem =
      set_field_lem 9 14 9 (i / 8388608) (i / 16384 % 512) (i % 16384) (u % 262144 / 512) (u % 512)
        i u 511 511 16383 (omega arith) (omega arith) refl refl (omega arith) (omega arith)
        (omega arith) (omega arith) refl refl refl
      ∙ omega arith

  pub setarg_b_lem : setarg_b i u ≡ u % 2 ^ 9 * 2 ^ 23 + i % 2 ^ 23
  unfolding setarg_b
  setarg_b_lem =
      set_field_lem 9 23 0 (i / 4294967296) (i / 8388608 % 512) (i % 8388608) (u % 512 / 512)
        (u % 512) i u 0 511 8388607 (omega arith) (omega arith) refl refl (omega arith)
        (omega arith) (omega arith) (omega arith) refl refl refl
      ∙ omega arith

  pub setarg_bx_lem : setarg_bx i u ≡ u % 2 ^ 18 * 2 ^ 14 + i % 2 ^ 14
  unfolding setarg_bx
  setarg_bx_lem =
      set_field_lem 18 14 0 (i / 4294967296) (i / 16384 % 262144) (i % 16384) (u % 262144 / 262144)
        (u % 262144) i u 0 262143 16383 (omega arith) (omega arith) refl refl (omega arith)
        (omega arith) (omega arith) (omega arith) refl refl refl
      ∙ omega arith

pub get_opcode_lem : (i : ℕ) → get_opcode i ≡ i / 2 ^ 0 % 2 ^ 6
unfolding get_opcode
get_opcode_lem i = get_field_lem 6 0 i refl

pub getarg_a_lem : (i : ℕ) → getarg_a i ≡ i / 2 ^ 6 % 2 ^ 8
unfolding getarg_a
getarg_a_lem i = get_field_lem 8 6 i refl

pub getarg_b_lem : (i : ℕ) → getarg_b i ≡ i / 2 ^ 23 % 2 ^ 9
unfolding getarg_b
getarg_b_lem i = get_field_lem 9 23 i refl

pub getarg_c_lem : (i : ℕ) → getarg_c i ≡ i / 2 ^ 14 % 2 ^ 9
unfolding getarg_c
getarg_c_lem i = get_field_lem 9 14 i refl

pub getarg_bx_lem : (i : ℕ) → getarg_bx i ≡ i / 2 ^ 14 % 2 ^ 18
unfolding getarg_bx
getarg_bx_lem i = get_field_lem 18 14 i refl

pub ruleset layout =
    (arith, get_opcode_lem, getarg_a_lem, getarg_b_lem, getarg_c_lem, getarg_bx_lem)

-- The word `i` holds these four fields.
abbrev pub Holds : ℕ → ℕ → ℕ → ℕ → ℕ → Type 0
Holds i o a b c =
    (get_opcode i ≡ o) × (getarg_a i ≡ a) × (getarg_b i ≡ b) × (getarg_c i ≡ c) × (i < 2 ^ 32)

-- What the GET macros read of an instruction with a wide operand, which is a 32-bit word.
abbrev pub HoldsWide : ℕ → ℕ → ℕ → ℕ → Type 0
HoldsWide i o a bx = (get_opcode i ≡ o) × (getarg_a i ≡ a) × (getarg_bx i ≡ bx) × (i < 2 ^ 32)

setarg_bx-fields :
    (i u : ℕ) → i < 2 ^ 32 → HoldsWide (setarg_bx i u) (get_opcode i) (getarg_a i) (u % 2 ^ 18)
setarg_bx-fields i u word = rw (setarg_bx_lem i u word) (omega layout)

setarg_sbx_lem : (i : ℕ) (b : ℤ) → setarg_sbx i b ≡ setarg_bx i (to_unsigned (b +ℤ pos maxarg_sbx))
unfolding setarg_sbx
setarg_sbx_lem i b = refl

-- On a 32-bit word, SET_OPCODE, SETARG_A, SETARG_B, SETARG_C and SETARG_Bx store the low bits of their argument in
-- the one field that they name, and SETARG_sBx those of its argument with the excess added; they leave the other
-- fields as they were, and give a 32-bit word. Bx is B and C together.
pub set-fields :
    (i u : ℕ) (jump : ℤ)
    → i < 2 ^ 32
    → Holds (set_opcode i u) (u % 2 ^ 6) (getarg_a i) (getarg_b i) (getarg_c i)
      × Holds (setarg_a i u) (get_opcode i) (u % 2 ^ 8) (getarg_b i) (getarg_c i)
      × Holds (setarg_b i u) (get_opcode i) (getarg_a i) (u % 2 ^ 9) (getarg_c i)
      × Holds (setarg_c i u) (get_opcode i) (getarg_a i) (getarg_b i) (u % 2 ^ 9)
      × HoldsWide (setarg_bx i u) (get_opcode i) (getarg_a i) (u % 2 ^ 18)
      × HoldsWide
          (setarg_sbx i jump)
          (get_opcode i)
          (getarg_a i)
          (to_unsigned (jump +ℤ pos maxarg_sbx) % 2 ^ 18)
set-fields i u jump word =
    let wide = setarg_bx-fields i u word in
    let signed = setarg_bx-fields i (to_unsigned (jump +ℤ pos maxarg_sbx)) word in
    rw
      (
        set_opcode_lem i u word,
        setarg_a_lem i u word,
        setarg_b_lem i u word,
        setarg_c_lem i u word,
        setarg_sbx_lem i jump,
      )
      (omega layout, omega layout, omega layout, omega layout, wide, signed)

below_field : (k x y : ℕ) → x < 2 ^ k → bit_or x (y * 2 ^ k) ≡ y * 2 ^ k + x
below_field k x y h = ground (arith, bit_or_split k 0 y x 0 h, zero-bit_or y, bit_or-zero x)

pub create_abc_lem :
    (o a b c : ℕ)
    → o < 2 ^ 6
    → a < 2 ^ 8
    → b < 2 ^ 9
    → c < 2 ^ 9
    → create_abc o a b c ≡ o + a * 2 ^ 6 + c * 2 ^ 14 + b * 2 ^ 23
unfolding create_abc
create_abc_lem o a b c ho ha hb hc =
    let e0 : shl o 0 ≡ o = omega arith in
    let ea : shl a 6 ≡ a * 2 ^ 6 = omega arith in
    let eb : shl b 23 ≡ b * 2 ^ 23 = omega arith in
    let ec : shl c 14 ≡ c * 2 ^ 14 = omega arith in
    rw (e0, ea, eb, ec, below_field 6 o a ho, below_field 23 (a * 2 ^ 6 + o) b (omega arith))
      (ground (
        arith,
        or_fields 9 14 b 0 (a * 2 ^ 6 + o) 0 c 0 (omega arith) hc (omega arith) (omega arith),
        bit_or-zero b,
        zero-bit_or c,
        bit_or-zero (a * 2 ^ 6 + o),
      ))

create_abx_lem :
    (o a bc : ℕ)
    → o < 2 ^ 6
    → a < 2 ^ 8
    → bc < 2 ^ 18
    → create_abx o a bc ≡ o + a * 2 ^ 6 + bc * 2 ^ 14
unfolding create_abx
create_abx_lem o a bc ho ha hb =
    let e0 : shl o 0 ≡ o = omega arith in
    let ea : shl a 6 ≡ a * 2 ^ 6 = omega arith in
    let eb : shl bc 14 ≡ bc * 2 ^ 14 = omega arith in
    rw (e0, ea, eb, below_field 6 o a ho, below_field 14 (a * 2 ^ 6 + o) bc (omega arith))
      (omega arith)

-- CREATE_ABC makes a 32-bit word from which the GET macros read back the opcode and the three
-- operands that were given, when each fits its field.
pub create_abc-fields :
    (o a b c : ℕ)
    → o < 2 ^ 6
    → a ≤ maxarg_a
    → b ≤ maxarg_b
    → c ≤ maxarg_c
    → Holds (create_abc o a b c) o a b c
create_abc-fields o a b c ho ha hb hc =
    rw (create_abc_lem o a b c ho (omega arith) (omega arith) (omega arith)) (omega layout)

-- CREATE_ABx does the same for the opcode, A and the 18-bit operand Bx, whose upper and lower
-- nine bits are what GETARG_B and GETARG_C read.
pub create_abx-fields :
    (o a bc : ℕ)
    → o < 2 ^ 6
    → a ≤ maxarg_a
    → bc ≤ maxarg_bx
    → Holds (create_abx o a bc) o a (bc / 2 ^ 9) (bc % 2 ^ 9) × (getarg_bx (create_abx o a bc) ≡ bc)
create_abx-fields o a bc ho ha hb =
    rw (create_abx_lem o a bc ho (omega arith) (omega arith)) (omega layout, omega layout)

-- Adding the excess, reducing to 18 bits and taking the excess off again.
decode :
    (b : ℤ)
    → pos 0 ≤ℤ b +ℤ pos maxarg_sbx
    → b ≤ℤ pos (maxarg_sbx + 1)
    → pos (to_unsigned (b +ℤ pos maxarg_sbx) % 2 ^ 18) -ℤ pos maxarg_sbx ≡ b
unfolding ◌+ℤ◌ ◌-ℤ◌
decode (pos n) lo hi = ground arith
decode (negsuc n) lo hi = ground arith

-- SETARG_sBx followed by GETARG_sBx gives back every jump offset from -131071 to 131072, leaves
-- the opcode and A alone, and the word stays a 32-bit word.
pub getarg_sbx-setarg_sbx :
    (i : ℕ) (b : ℤ)
    → i < 2 ^ 32
    → pos 0 ≤ℤ b +ℤ pos maxarg_sbx
    → b ≤ℤ pos (maxarg_sbx + 1)
    → (getarg_sbx (setarg_sbx i b) ≡ b)
      × (get_opcode (setarg_sbx i b) ≡ get_opcode i)
      × (getarg_a (setarg_sbx i b) ≡ getarg_a i)
      × (setarg_sbx i b < 2 ^ 32)
unfolding getarg_sbx setarg_sbx ◌+ℤ◌ ◌-ℤ◌
getarg_sbx-setarg_sbx i b word lo hi =
    let u = to_unsigned (b +ℤ pos maxarg_sbx) in
    let bx : getarg_bx (u % 2 ^ 18 * 2 ^ 14 + i % 2 ^ 14) ≡ u % 2 ^ 18 = omega layout in
    rw (setarg_bx_lem i u word) (rw bx (decode b lo hi), omega layout, omega layout, omega arith)
