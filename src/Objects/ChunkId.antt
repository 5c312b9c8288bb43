-- ===== src/Objects/ChunkId.antt =====
-- luaO_chunkid never writes past the end of its buffer, and shows one line of a source text.
use soft_renderer_lua.Base.{
  ℕ, zero, suc, ◌+◌, ◌-◌, ◌^◌, ◌≤◌, ◌<◌, ◌≡◌, ◌≢◌, arith, ltb, ◌==◌, if◌then◌else◌, List, [], ◌∷◌,
  ◌++◌, length, take, drop, length-take, length-drop, length-append, Bool-cases, inl, inr,
}
use soft_renderer_lua.Objects.{
  line_length, size_minus, dots, open_string, close_string, chunkid_file, chunkid_string, chunkid,
}

line_length-le : (s : List ℕ) → line_length s ≤ length s
unfolding line_length
line_length-le [] = omega arith
line_length-le (c ∷ s) = ground (arith, line_length-le s)

file_lt :
    (name : List ℕ) (bufflen : ℕ)
    → 17 ≤ bufflen
    → bufflen < 2 ^ 64
    → length (chunkid_file name bufflen) < bufflen
unfolding chunkid_file
file_lt name bufflen lo hi =
    let room : size_minus bufflen 8 ≡ bufflen - 8 = omega arith in
    rw room (
      ground (
        arith,
        length-append dots (drop (length name - (bufflen - 8)) name),
        length-drop (length name - (bufflen - 8)) name,
      ))

-- `source`, or its first `len` bytes and the dots.
body_le :
    (len : ℕ) (source : List ℕ)
    → length (if ltb len (length source) then take len source ++ dots else source) ≤ len + 3
body_le len source = ground (arith, length-append (take len source) dots, length-take len source)

string_lt :
    (source : List ℕ) (bufflen : ℕ)
    → 17 ≤ bufflen
    → bufflen < 2 ^ 64
    → length (chunkid_string source bufflen) < bufflen
unfolding chunkid_string
string_lt source bufflen lo hi =
    let room : size_minus bufflen 17 ≡ bufflen - 17 = omega arith in
    let line = line_length source in
    let len = if ltb (bufflen - 17) line then bufflen - 17 else line in
    let bound : len ≤ bufflen - 17 = ground arith in
    rw room (rw (length-append _ close_string) (omega (arith, body_le len source)))

-- With a buffer of at least 17 bytes the text and its final zero fit the buffer, whatever the source.
pub chunkid-fits :
    (source : List ℕ) (bufflen : ℕ)
    → 17 ≤ bufflen
    → bufflen < 2 ^ 64
    → length (chunkid source bufflen) + 1 ≤ bufflen
unfolding chunkid
chunkid-fits [] bufflen lo hi = omega (arith, string_lt [] bufflen lo hi)
chunkid-fits (c ∷ s) bufflen lo hi =
    ground
      (arith, string_lt (c ∷ s) bufflen lo hi, file_lt s bufflen lo hi, length-take (bufflen - 1) s)

-- Neither a line feed nor a carriage return.
abbrev pub OneLine : List ℕ → Type 0
OneLine [] = Unit {0}
OneLine (c ∷ s) = (c ≢ 10) × (c ≢ 13) × OneLine s

OneLine-append : (s t : List ℕ) → OneLine s → OneLine t → OneLine (s ++ t)
OneLine-append [] t hs ht = ht
OneLine-append (c ∷ s) t hs ht = (hs.0, hs.1, OneLine-append s t hs.2 ht)

take-OneLine : (k : ℕ) (s : List ℕ) → k ≤ line_length s → OneLine (take k s)
unfolding line_length
take-OneLine zero s h = tt
take-OneLine (suc k) [] h = tt
take-OneLine (suc k) (c ∷ s) h = ground (arith, take-OneLine k s)

whole-OneLine : (s : List ℕ) → length s ≤ line_length s → OneLine s
unfolding line_length
whole-OneLine [] h = tt
whole-OneLine (c ∷ s) h = ground (arith, whole-OneLine s)

body-OneLine :
    (len : ℕ) (s : List ℕ)
    → len ≤ line_length s
    → OneLine (if ltb len (length s) then take len s ++ dots else s)
body-OneLine len s h = elim (Bool-cases (ltb len (length s))) [
  | inl cut ↦ rw cut (OneLine-append (take len s) dots (take-OneLine len s h) (omega arith))
  | inr whole ↦ rw whole (whole-OneLine s (ground arith))
]

string-OneLine : (source : List ℕ) (bufflen : ℕ) → OneLine (chunkid_string source bufflen)
unfolding chunkid_string
string-OneLine source bufflen = OneLine-append open_string _ (omega arith) (
    OneLine-append _ close_string
      (body-OneLine
        (if ltb (size_minus bufflen 17) (line_length source)
          then size_minus bufflen 17
          else line_length source)
        source (ground arith))
      (omega arith))

-- The name of a chunk that was loaded from a string, one whose source starts with neither `=` nor
-- `@`, has no line break.
pub chunkid-OneLine :
    (c : ℕ) (s : List ℕ) (bufflen : ℕ) → c ≢ b'=' → c ≢ b'@' → OneLine (chunkid (c ∷ s) bufflen)
unfolding chunkid
chunkid-OneLine c s bufflen h k = elim (Bool-cases (c == b'=')) [
  | inl e ↦ absurd (ground arith)
  | inr e ↦ elim (Bool-cases (c == b'@')) [
    | inl f ↦ absurd (ground arith)
    | inr f ↦ rw (e, f) (string-OneLine (c ∷ s) bufflen)
  ]
]
