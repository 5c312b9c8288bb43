-- ===== src/Text/Tests.antt =====
-- string.sub and string.byte on "abc".
use soft_renderer_lua.Base.{ℕ, ◌≡◌, refl, arith, Bool, leb, List, [], ◌∷◌}
use soft_renderer_lua.Base.Int.{pos, negsuc}
use soft_renderer_lua.Base.Run.{raised}
use soft_renderer_lua.Match.{stack_overflow}
use soft_renderer_lua.Text.{str_sub, slice, str_byte, bytes_between, push_bytes}
use soft_renderer_lua.Text.Slices.{pushed, str_byte-str_sub}

abbrev abc : List ℕ
abc = b'a' ∷ b'b' ∷ b'c' ∷ []

last_two : str_sub abc (negsuc 1) (negsuc 0) ≡ b'b' ∷ b'c' ∷ []
unfolding str_sub slice
last_two = refl

-- A stack with room for two values
abbrev room : ℕ → Bool
room n = leb n 2

too_many : str_byte room abc (pos 1) (negsuc 0) ≡ raised stack_overflow
unfolding str_byte bytes_between push_bytes
too_many = refl

str_byte-str_sub_example :
    str_byte room abc (negsuc 1) (pos 9) ≡ pushed room (str_sub abc (negsuc 1) (pos 9))
str_byte-str_sub_example = str_byte-str_sub room abc (negsuc 1) (pos 9) (omega arith)
