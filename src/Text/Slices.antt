-- ===== src/Text/Slices.antt =====
-- string.byte beside string.sub, and string.char on the bytes of string.byte.
use soft_renderer_lua.Base.{
  ℕ, zero, suc, ◌+◌, ◌-◌, ◌%◌, ◌^◌, ◌≡◌, ◌≤◌, ◌<◌, refl, ap, sym, ◌∙◌, arith, Bool, true, false,
  ltb, leb, lt→ltb, Bool-cases, inl, inr, if◌then◌else◌, some, List, [], ◌∷◌, length, take, drop,
  map, length-take, length-drop, get_elem?, get_elem?_of_lt,
}
use soft_renderer_lua.Base.Int.{ℤ, pos, negsuc}
use soft_renderer_lua.Base.Run.{Run, done, raised, ◌>>=◌}
use soft_renderer_lua.Match.{MatchError, stack_overflow, char_at}
use soft_renderer_lua.Match.Parts.{part}
use soft_renderer_lua.Match.Counts.{drop-byte, take-all}
use soft_renderer_lua.Text.{
  first_place, last_place, str_sub, slice, bytes_between, to_int, byte_loop, push_bytes, str_byte,
  str_char,
}

char_at-get : (v : List ℕ) (i c : ℕ) → get_elem? v i ≡ some c → char_at v i ≡ done c
unfolding char_at
char_at-get [] i c h = absurd (cc)
char_at-get (d ∷ v) zero c h = ap done (same h)
  where
    same : some d ≡ some c → d ≡ c
    same e = cc
char_at-get (d ∷ v) (suc i) c h = char_at-get v i c h

byte_loop-zero : (s : List ℕ) (at : ℕ) → byte_loop s at zero ≡ done []
unfolding byte_loop
byte_loop-zero s at = refl

byte_loop-suc :
    (s : List ℕ) (at n c : ℕ) (r : List ℕ)
    → char_at s at ≡ done c
    → byte_loop s (at + 1) n ≡ done r
    → byte_loop s at (suc n) ≡ done (c ∷ r)
unfolding byte_loop ◌>>=◌
byte_loop-suc s at n c r e e' = rw (e, e') refl

byte_loop-part : (s : List ℕ) (at n : ℕ) → at + n ≤ length s → byte_loop s at n ≡ done (part s at n)
byte_loop-part s at zero le = byte_loop-zero s at
byte_loop-part s at (suc n) le =
    let (c, e) = get_elem?_of_lt s at (omega arith) in
    byte_loop-suc s at n c _ (char_at-get s at c e) (byte_loop-part s (at + 1) n (omega arith))
    ∙ ap (λ l. done (c ∷ take n l)) (ap (λ k. drop k s) (next at))
    ∙ ap (λ l. done (take (suc n) l)) (drop-byte s at c e)
  where
    next : (i : ℕ) → i + 1 ≡ suc i
    next i = omega arith

first_place_pos : (i : ℤ) (l : ℕ) → 1 ≤ first_place i l
first_place_pos i l = ground arith

last_place_le : (j : ℤ) (l : ℕ) → last_place j l ≤ l
last_place_le j l = ground arith

-- A size below 2^31 is the same as an int.
to_int_small : (n : ℕ) → n < 2 ^ 31 → to_int n ≡ pos n
to_int_small n lt =
    let same : n % 2 ^ 32 ≡ n = omega arith in
    let small : ltb n (2 ^ 31) ≡ true = lt→ltb n (2 ^ 31) lt in
    ap (λ k. if ltb k (2 ^ 31) then pos k else negsuc (2 ^ 32 - 1 - k)) same ∙ rw small refl

-- What string.byte does to push some bytes: none, or as many as the stack has room for.
abbrev pub pushed : (ℕ → Bool) → List ℕ → Run MatchError (List ℕ)
pushed room [] = done []
pushed room (c ∷ bs) = if room (length (c ∷ bs)) then done (c ∷ bs) else raised stack_overflow

pushed-some :
    (room : ℕ → Bool) (bs : List ℕ) (n : ℕ)
    → length bs ≡ suc n
    → (if room (suc n) then done bs else raised stack_overflow) ≡ pushed room bs
pushed-some room [] n e = absurd (omega (arith, e))
pushed-some room (c ∷ bs) n e =
    ap (λ (k : ℕ). if room k then done (c ∷ bs) else raised stack_overflow) (sym e)

length-part : (s : List ℕ) (i n : ℕ) → i + n ≤ length s → length (part s i n) ≡ n
length-part s i n le = omega (arith, length-take n (drop i s), length-drop i s)

module _ (room : ℕ → Bool) (s : List ℕ) where
  push_bytes-part :
      (f g : ℕ)
      → 1 ≤ f
      → f ≤ g
      → g ≤ length s
      → push_bytes room s f g (pos (g - f + 1)) ≡ pushed room (part s (f - 1) (g - f + 1))
  unfolding push_bytes
  push_bytes-part f g le1 le2 le3 =
      let inside : leb (f + (g - f + 1)) g ≡ false = ground arith in
      let bytes = byte_loop-part s (f - 1) (g - f + 1) (omega arith) in
      let counted = length-part s (f - 1) (g - f + 1) (omega arith) in
      let one_more : g - f + 1 ≡ suc (g - f) = omega arith in
      rw (inside, bytes)
        (ap (λ (k : ℕ). if room k then done (part s (f - 1) (g - f + 1)) else raised stack_overflow)
            one_more
          ∙ pushed-some room (part s (f - 1) (g - f + 1)) (g - f) (counted ∙ one_more))

  bytes_between-slice :
      (f g : ℕ)
      → 1 ≤ f
      → g ≤ length s
      → length s < 2 ^ 31
      → bytes_between room s f g ≡ pushed room (slice s f g)
  unfolding bytes_between slice
  bytes_between-slice f g le1 le2 small = elim (Bool-cases (ltb g f)) [
    | inl e ↦ let none : leb f g ≡ false = ground arith in rw (e, none) refl
    | inr e ↦
        let le : f ≤ g = ground arith in
        let some : leb f g ≡ true = ground arith in
        let bytes = push_bytes-part f g le1 le le2 in
        rw (e, some, to_int_small (g - f + 1) (omega arith), bytes) refl
  ]

  -- If the string is shorter than 2^31, string.byte pushes the bytes of the string that string.sub gives for the
  -- same positions, whatever these are, or ends in the error of a stack overflow: the error is there exactly when
  -- the slice is not empty and the stack has no room for that many values.
  pub str_byte-str_sub :
      (i j : ℤ) → length s < 2 ^ 31 → str_byte room s i j ≡ pushed room (str_sub s i j)
  unfolding str_byte str_sub
  str_byte-str_sub i j small =
      bytes_between-slice (first_place i (length s)) (last_place j (length s))
        (first_place_pos i (length s)) (last_place_le j (length s)) small

slice-all : (s : List ℕ) → slice s 1 (length s) ≡ s
unfolding slice
slice-all [] = refl
slice-all (c ∷ s) =
    let some : leb 1 (length (c ∷ s)) ≡ true = ground arith in
    let all : length (c ∷ s) - 1 + 1 ≡ length (c ∷ s) = omega arith in
    rw some (ap (λ n. take n (c ∷ s)) all ∙ take-all (c ∷ s))

last_place_all : (l : ℕ) → last_place (negsuc 0) l ≡ l
last_place_all l = ground arith

str_sub-all : (s : List ℕ) → str_sub s (pos 1) (negsuc 0) ≡ s
unfolding str_sub
str_sub-all s = ap (λ l. slice s 1 l) (last_place_all (length s)) ∙ slice-all s

str_char-bytes :
    (bs : List ℕ)
    → ((i c : ℕ) → get_elem? bs i ≡ some c → c < 256)
    → str_char (map pos bs) ≡ done bs
unfolding str_char ◌>>=◌
str_char-bytes [] h = refl
str_char-bytes (c ∷ bs) h =
    let rest = str_char-bytes bs (λ i d e. h (suc i) d e) in
    rw (lt→ltb c 256 (h 0 c refl), rest) refl

pushed-room : (room : ℕ → Bool) (bs : List ℕ) → room (length bs) ≡ true → pushed room bs ≡ done bs
pushed-room room [] h = refl
pushed-room room (c ∷ bs) h = rw h refl

-- If a string of bytes is shorter than 2^31 and the stack has room for its bytes, string.char makes the string again
-- of what string.byte pushes for all of it.
pub str_char-str_byte :
    (room : ℕ → Bool) (s : List ℕ)
    → room (length s) ≡ true
    → ((i c : ℕ) → get_elem? s i ≡ some c → c < 256)
    → length s < 2 ^ 31
    → str_byte room s (pos 1) (negsuc 0) >>= (λ bs. str_char (map pos bs)) ≡ done s
unfolding ◌>>=◌
str_char-str_byte room s has_room bytes small =
    let all = str_byte-str_sub room s (pos 1) (negsuc 0) small in
    let back = str_char-bytes s bytes in
    rw (all, str_sub-all s, pushed-room room s has_room, back) refl
