-- ===== src/Opcodes/Fields.antt =====
-- Reading and writing one field of an instruction, as arithmetic.
use native.Mathlib.Nat.{one-le-pow, mod-eq_of_lt}
use soft_renderer_lua.Base.{ℕ, ◌+◌, ◌*◌, ◌^◌, ◌<◌, ◌≡◌, arith, bit_and, bit_or}
use soft_renderer_lua.Base.Bits.{
  bit_or_split, bit_and_split, bit_and_ones, bit_and-zero, bit_or-zero, zero-bit_or,
}

-- A word with the field `m` of `n` bits at position `p`, `h` above it and `l` below it.
abbrev pub with_field : ℕ → ℕ → ℕ → ℕ → ℕ → ℕ
with_field n p h m l = (h * 2 ^ n + m) * 2 ^ p + l

pub and_fields :
    (n p h m l h' m' l' : ℕ)
    → m < 2 ^ n
    → m' < 2 ^ n
    → l < 2 ^ p
    → l' < 2 ^ p
    → bit_and (with_field n p h m l) (with_field n p h' m' l')
      ≡ with_field n p (bit_and h h') (bit_and m m') (bit_and l l')
and_fields n p h m l h' m' l' hm hm' hl hl' =
    rw (bit_and_split p _ _ l l' hl hl', bit_and_split n h h' m m' hm hm')

pub or_fields :
    (n p h m l h' m' l' : ℕ)
    → m < 2 ^ n
    → m' < 2 ^ n
    → l < 2 ^ p
    → l' < 2 ^ p
    → bit_or (with_field n p h m l) (with_field n p h' m' l')
      ≡ with_field n p (bit_or h h') (bit_or m m') (bit_or l l')
or_fields n p h m l h' m' l' hm hm' hl hl' =
    rw (bit_or_split p _ _ l l' hl hl', bit_or_split n h h' m m' hm hm')

-- One write: the first mask has ones above and below the field, the second ones in it.
pub write_field :
    (n p r h m l g v above field below : ℕ)
    → m < 2 ^ n
    → l < 2 ^ p
    → h < 2 ^ r
    → v < 2 ^ n
    → above + 1 ≡ 2 ^ r
    → field + 1 ≡ 2 ^ n
    → below + 1 ≡ 2 ^ p
    → bit_or
        (bit_and (with_field n p h m l) (with_field n p above 0 below))
        (bit_and (with_field n p g v 0) (with_field n p 0 field 0))
      ≡ with_field n p h v l
write_field n p r h m l g v above field below hm hl hh hv ha hf hb =
    let pn : 0 < 2 ^ n = one-le-pow n 2 (omega arith) in
    let pp : 0 < 2 ^ p = one-le-pow p 2 (omega arith) in
    let kept : bit_and (with_field n p h m l) (with_field n p above 0 below)
        ≡ with_field n p h 0 l =
      rw (
        and_fields n p h m l above 0 below hm pn hl (omega arith),
        ones r h above ha hh,
        bit_and-zero,
        ones p l below hb hl,
      ) in
    let new : bit_and (with_field n p g v 0) (with_field n p 0 field 0) ≡ with_field n p 0 v 0 =
      rw (
        and_fields n p g v 0 0 field 0 hv (omega arith) pp pp,
        bit_and-zero,
        ones n v field hf hv,
      ) in
    rw (kept, new, or_fields n p h 0 l 0 v 0 pn hv hl pp, bit_or-zero, zero-bit_or, bit_or-zero)
  where
    ones : (k x mask : ℕ) → mask + 1 ≡ 2 ^ k → x < 2 ^ k → bit_and x mask ≡ x
    ones k x mask h lt = rw (bit_and_ones k x mask h) (mod-eq_of_lt lt)
