-- ===== src/Match/Bytes.antt =====
-- The bytes of strings: memchr and memcmp by what they say of each byte.
use native.Mathlib.Nat.{zero-add, suc-add}
use soft_renderer_lua.Base.{
  ℕ, zero, suc, ◌+◌, ◌≤◌, ◌<◌, ◌≡◌, ◌≢◌, refl, sym, ap, ◌∙◌, arith, Bool, true, false, ◌&&◌, ◌==◌,
  ltb, ltb→lt, Bool-cases, inl, inr, Option, none, some, List, [], ◌∷◌, length, get_elem?, take,
  drop,
}
use soft_renderer_lua.Base.Run.{Ensures, value, Ensures-bind, Ensures-weaken, Ensures-if}
use soft_renderer_lua.Match.{char_at}
use soft_renderer_lua.Match.Parts.{same_part, part}
use soft_renderer_lua.Match.Items.{==→≡, ≠→≢}
use soft_renderer_lua.Match.Find.{mem_chr}

abbrev pub FirstByte : List ℕ → ℕ → ℕ → ℕ → Option ℕ → Type 0
FirstByte v c i n none = (k : ℕ) → i ≤ k → k < i + n → get_elem? v k ≢ some c
FirstByte v c i n (some m) =
    i ≤ m
    × m < i + n
    × (get_elem? v m ≡ some c)
    × ((k : ℕ) → i ≤ k → k < m → get_elem? v k ≢ some c)

pub some-inj : {x y : ℕ} → some x ≡ some y → x ≡ y
some-inj h = cc

pub byte-Ensures :
    (v : List ℕ) (i : ℕ) → i < length v → Ensures (λ c. get_elem? v i ≡ some c) (char_at v i)
unfolding char_at
byte-Ensures [] i h = absurd (omega arith)
byte-Ensures (c ∷ v) zero h = value refl
byte-Ensures (c ∷ v) (suc i) h = byte-Ensures v i (omega arith)

pub mem_chr-Ensures :
    (v : List ℕ) (i c n : ℕ) → i + n ≤ length v → Ensures (FirstByte v c i n) (mem_chr v i c n)
unfolding mem_chr
mem_chr-Ensures v i c zero le = value (λ k h h' e. omega arith)
mem_chr-Ensures v i c (suc n) le = Ensures-bind (byte-Ensures v i (omega arith)) λ x e.
    Ensures-if (x == c)
      (λ h. value (omega arith, omega arith, e ∙ ap some (==→≡ x c h), λ k h1 h2 e'. omega arith))
      (λ h.
        Ensures-weaken (λ r q. before x e (≠→≢ x c h) r q)
          (mem_chr-Ensures v (i + 1) c n (omega arith)))
  where
    skip :
        (x : ℕ)
        → get_elem? v i ≡ some x
        → x ≢ c
        → (m : ℕ) → ((k : ℕ) → i + 1 ≤ k → k < m → get_elem? v k ≢ some c)
        → (k : ℕ) → i ≤ k
        → k < m
        → get_elem? v k ≢ some c
    skip x e ne m q k h1 h2 e' = elim (Bool-cases (k == i)) [
      | inl z ↦ ne (some-inj (sym e ∙ ap (get_elem? v) (sym (==→≡ k i z)) ∙ e'))
      | inr z ↦ q k (omega (arith, ≠→≢ k i z)) h2 e'
    ]

    before :
        (x : ℕ)
        → get_elem? v i ≡ some x
        → x ≢ c
        → (r : Option ℕ) → FirstByte v c (i + 1) n r
        → FirstByte v c i (suc n) r
    before x e ne none q = skip x e ne (i + suc n) (λ k h h'. q k h (omega arith))
    before x e ne (some m) (le, lt, eq, q) = (omega arith, omega arith, eq, skip x e ne m q)

and_true : (a b : Bool) → (a && b) ≡ true → (a ≡ true) × (b ≡ true)
and_true true b h = (refl, h)
and_true false b h = absurd (cc)

same_part_eq : (a b : List ℕ) → same_part a b ≡ true → a ≡ b
unfolding same_part
same_part_eq [] [] h = refl
same_part_eq [] (y ∷ b) h = absurd (cc)
same_part_eq (x ∷ a) [] h = absurd (cc)
same_part_eq (x ∷ a) (y ∷ b) h =
    let (p, q) = and_true (x == y) (same_part a b) h in rw (==→≡ x y p, same_part_eq a b q) refl

same_part_refl : (a : List ℕ) → same_part a a ≡ true
unfolding same_part
same_part_refl [] = refl
same_part_refl (x ∷ a) = rw (same_part_refl a) ground arith

get-take : (v : List ℕ) (n j : ℕ) → j < n → get_elem? (take n v) j ≡ get_elem? v j
get-take v zero j lt = elim lt [ ]
get-take [] (suc n) j lt = refl
get-take (c ∷ v) (suc n) zero lt = refl
get-take (c ∷ v) (suc n) (suc j) lt = get-take v n j (omega arith)

get-take_out : (v : List ℕ) (n j : ℕ) → n ≤ j → get_elem? (take n v) j ≡ none
get-take_out v zero j le = refl
get-take_out [] (suc n) j le = refl
get-take_out (c ∷ v) (suc n) zero le = absurd (omega arith)
get-take_out (c ∷ v) (suc n) (suc j) le = get-take_out v n j (omega arith)

get-drop : (v : List ℕ) (i j : ℕ) → get_elem? (drop i v) j ≡ get_elem? v (i + j)
get-drop v zero j = rw zero-add
get-drop [] (suc i) j = refl
get-drop (c ∷ v) (suc i) j = get-drop v i j ∙ rw suc-add refl

-- A part of a string, by its bytes
get-part : (v : List ℕ) (i n j : ℕ) → j < n → get_elem? (part v i n) j ≡ get_elem? v (i + j)
get-part v i n j lt = get-take (drop i v) n j lt ∙ get-drop v i j

ext : (a b : List ℕ) → ((j : ℕ) → get_elem? a j ≡ get_elem? b j) → a ≡ b
ext [] [] h = refl
ext [] (y ∷ b) h = absurd (none-ne (h 0))
  where
    none-ne : none ≡ some y → ⊥
    none-ne e = cc
ext (x ∷ a) [] h = absurd (some-ne (h 0))
  where
    some-ne : some x ≡ none → ⊥
    some-ne e = cc
ext (x ∷ a) (y ∷ b) h = rw (some-inj (h 0), ext a b (λ j. h (suc j))) refl

-- memcmp compares the bytes of two parts.
abbrev pub SameBytes : List ℕ → ℕ → List ℕ → ℕ → ℕ → Type 0
SameBytes u a v b n = (j : ℕ) → j < n → get_elem? u (a + j) ≡ get_elem? v (b + j)

pub same_part-SameBytes :
    (u : List ℕ) (a : ℕ) (v : List ℕ) (b n : ℕ)
    → same_part (part u a n) (part v b n) ≡ true
    → SameBytes u a v b n
same_part-SameBytes u a v b n h j lt =
    sym (get-part u a n j lt) ∙ ap (λ l. get_elem? l j) (same_part_eq _ _ h) ∙ get-part v b n j lt

pub SameBytes-same_part :
    (u : List ℕ) (a : ℕ) (v : List ℕ) (b n : ℕ)
    → SameBytes u a v b n
    → same_part (part u a n) (part v b n) ≡ true
SameBytes-same_part u a v b n h =
    rw (ext (part u a n) (part v b n) same) (same_part_refl (part v b n))
  where
    same : (j : ℕ) → get_elem? (part u a n) j ≡ get_elem? (part v b n) j
    same j = elim (Bool-cases (ltb j n)) [
      | inl e ↦ let lt = ltb→lt j n e in get-part u a n j lt ∙ h j lt ∙ sym (get-part v b n j lt)
      | inr e ↦
          get-take_out (drop a u) n j (ground arith)
          ∙ sym (get-take_out (drop b v) n j (ground arith))
    ]

pub moved : (v : List ℕ) (i j : ℕ) → i ≡ j → get_elem? v i ≡ get_elem? v j
moved v i j e = ap (get_elem? v) e
