-- ===== src/Opcodes/Tests.antt =====
-- Concrete instructions, and the theorems about them at concrete inputs.
use soft_renderer_lua.Base.{◌%◌, ◌^◌, ◌^◌, ◌<◌, ◌≡◌, refl, arith}
use soft_renderer_lua.Base.Int.{pos, negsuc, ◌-ℤ◌, ◌+ℤ◌}
use soft_renderer_lua.Opcodes.{
  to_unsigned, maxarg_sbx, get_field, set_field, get_opcode, set_opcode, getarg_a, setarg_a,
  getarg_b, setarg_b, getarg_c, setarg_c, getarg_bx, setarg_bx, getarg_sbx, setarg_sbx, create_abc,
}
use soft_renderer_lua.Opcodes.Layout.{
  Holds, HoldsWide, set-fields, create_abc-fields, getarg_sbx-setarg_sbx,
}

-- ADD 1 2 257
add_word : create_abc 12 1 2 257 ≡ 0x0140_404c
unfolding create_abc
add_word = refl

jump_back : getarg_sbx (setarg_sbx 22 (negsuc 4)) ≡ negsuc 4
unfolding getarg_sbx setarg_sbx getarg_bx setarg_bx get_field set_field ◌-ℤ◌ ◌+ℤ◌
jump_back = refl

set-fields_example :
    Holds
      (set_opcode 0x0140_404c 77)
      13
      (getarg_a 0x0140_404c)
      (getarg_b 0x0140_404c)
      (getarg_c 0x0140_404c)
    × Holds
        (setarg_a 0x0140_404c 77)
        (get_opcode 0x0140_404c)
        77
        (getarg_b 0x0140_404c)
        (getarg_c 0x0140_404c)
    × Holds
        (setarg_b 0x0140_404c 77)
        (get_opcode 0x0140_404c)
        (getarg_a 0x0140_404c)
        77
        (getarg_c 0x0140_404c)
    × Holds
        (setarg_c 0x0140_404c 77)
        (get_opcode 0x0140_404c)
        (getarg_a 0x0140_404c)
        (getarg_b 0x0140_404c)
        77
    × HoldsWide (setarg_bx 0x0140_404c 77) (get_opcode 0x0140_404c) (getarg_a 0x0140_404c) 77
    × HoldsWide
        (setarg_sbx 0x0140_404c (negsuc 4))
        (get_opcode 0x0140_404c)
        (getarg_a 0x0140_404c)
        (to_unsigned (negsuc 4 +ℤ pos maxarg_sbx) % 2 ^ 18)
set-fields_example = set-fields 0x0140_404c 77 (negsuc 4) (omega arith)

create_abc-fields_example : Holds (create_abc 12 1 2 257) 12 1 2 257
create_abc-fields_example =
    create_abc-fields 12 1 2 257 (omega arith) (omega arith) (omega arith) (omega arith)

getarg_sbx-setarg_sbx_example :
    (getarg_sbx (setarg_sbx 22 (negsuc 4)) ≡ negsuc 4)
    × (get_opcode (setarg_sbx 22 (negsuc 4)) ≡ get_opcode 22)
    × (getarg_a (setarg_sbx 22 (negsuc 4)) ≡ getarg_a 22)
    × (setarg_sbx 22 (negsuc 4) < 2 ^ 32)
unfolding ◌+ℤ◌
getarg_sbx-setarg_sbx_example =
    getarg_sbx-setarg_sbx 22 (negsuc 4) (omega arith) (omega arith) (omega arith)
