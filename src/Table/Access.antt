-- ===== src/Table/Access.antt =====
-- luaH_get on a table as a whole: a key with an index in the array part is there, and any other one is what the
-- search in the hash part says.
use mathlib.Core.Path.{fun_ext}
use soft_renderer_lua.Base.{
  ℕ, ◌<◌, ◌≡◌, refl, sym, ap, ◌∙◌, subst, arith, Bool, true, false, ◌&&◌, ltb, Bool-cases, inl, inr,
  if◌then◌else◌, Option, none, some, length,
}
use soft_renderer_lua.Base.Int.{ℤ, pos, negsuc, ◌-ℤ◌}
use soft_renderer_lua.Opcodes.{to_unsigned}
use soft_renderer_lua.Table.{
  NumberOps, TString, TValue, nil, boolean, light_userdata, number, string, object, Table, Slot,
  array_slot, is_nil, is_string_at, get_str, rawequal_obj, mainposition, is_number, get_num,
  get_any, get,
}
use soft_renderer_lua.Table.Laws.{NumberLaws, Int32, same_test, hashnum-same}

module _ {Number : Type 0} (ops : NumberOps Number) where
  -- `key - 1` of luaH_getnum, for a number that is an int
  abbrev pub slice_index : Number → ℕ
  slice_index n = to_unsigned (ops.number2int n -ℤ pos 1)

  abbrev is_index : Number → ℕ → Bool
  is_index n size = ops.numeq (ops.cast_num (ops.number2int n)) n && ltb (slice_index n) size

  -- The index of a key in an array part of that size
  unfoldable pub array_index : ℕ → TValue Number → Option ℕ
  array_index size (number n) = if is_index n size then some (slice_index n) else none
  array_index size k = none

  -- The array part, then the hash part
  abbrev pub locate : Table Number → TValue Number → Option ℕ → Option Slot
  locate t k none = get_any ops t k
  locate t k (some i) = some (array_slot i)

unsigned-inj :
    (a b : ℤ) → Int32 a → Int32 b → to_unsigned (a -ℤ pos 1) ≡ to_unsigned (b -ℤ pos 1) → a ≡ b
unfolding ◌-ℤ◌
unsigned-inj (pos a) (pos b) x y e = ap pos (ground arith)
unsigned-inj (pos a) (negsuc b) x y e = absurd (ground arith)
unsigned-inj (negsuc a) (pos b) x y e = absurd (ground arith)
unsigned-inj (negsuc a) (negsuc b) x y e = ap negsuc (ground arith)

string_tests :
    {Number : Type 0} (ops : NumberOps Number) (s : TString) (k : TValue Number)
    → is_string_at s.address k ≡ rawequal_obj ops k (string s)
unfolding rawequal_obj
string_tests ops s nil = refl
string_tests ops s (boolean b) = refl
string_tests ops s (light_userdata p) = refl
string_tests ops s (number n) = refl
string_tests ops s (string s') = refl
string_tests ops s (object tag a) = refl

number_equal :
    {Number : Type 0} (ops : NumberOps Number) (n m : Number)
    → ops.numeq n m ≡ true
    → rawequal_obj ops (number n) (number m) ≡ true
unfolding rawequal_obj
number_equal ops n m h = h

module _ {Number : Type 0} (ops : NumberOps Number) (laws : NumberLaws ops) where
  number_tests :
      (a b : Number) (k : TValue Number)
      → ops.numeq a b ≡ true
      → is_number ops a k ≡ rawequal_obj ops k (number b)
  unfolding rawequal_obj
  number_tests a b nil e = refl
  number_tests a b (boolean x) e = refl
  number_tests a b (light_userdata p) e = refl
  number_tests a b (number n) e = same_test ops laws a b n e
  number_tests a b (string s) e = refl
  number_tests a b (object tag x) e = refl

  get_num-locate :
      (t : Table Number) (n : Number)
      → ops.numeq (ops.cast_num (ops.number2int n)) n ≡ true
      → get_num ops t (ops.number2int n)
        ≡ locate ops t (number n) (array_index ops (length t.array) (number n))
  unfolding get_num array_index get_any mainposition
  get_num-locate t n e = elim (Bool-cases (ltb (slice_index ops n) (length t.array))) [
    | inl inside ↦ rw (e, inside) refl
    | inr outside ↦
        rw (e, outside)
          (rw
            (
              fun_ext (λ k. number_tests (ops.cast_num (ops.number2int n)) n k e),
              hashnum-same ops laws t (ops.cast_num (ops.number2int n)) n e,
            )
            refl)
  ]

  get_str-locate : (t : Table Number) (s : TString) → get_str t s ≡ get_any ops t (string s)
  unfolding get_str get_any mainposition
  get_str-locate t s = rw (fun_ext (string_tests ops s)) refl

  get_any-locate :
      (t : Table Number) (n : Number)
      → ops.numeq (ops.cast_num (ops.number2int n)) n ≡ false
      → get_any ops t (number n)
        ≡ locate ops t (number n) (array_index ops (length t.array) (number n))
  unfolding array_index
  get_any-locate t n e = rw e refl

  number-locate :
      (t : Table Number) (n : Number)
      → get ops t (number n) ≡ locate ops t (number n) (array_index ops (length t.array) (number n))
  unfolding get
  number-locate t n = elim (Bool-cases (ops.numeq (ops.cast_num (ops.number2int n)) n)) [
    | inl e ↦ rw e (get_num-locate t n e)
    | inr e ↦ rw e (get_any-locate t n e)
  ]

  -- luaH_get looks at the index in the array part first, and in the hash part for the other keys.
  pub get-locate :
      (t : Table Number) (k : TValue Number)
      → is_nil k ≡ false
      → get ops t k ≡ locate ops t k (array_index ops (length t.array) k)
  unfolding get array_index
  get-locate t nil used = absurd (cc)
  get-locate t (boolean b) used = refl
  get-locate t (light_userdata p) used = refl
  get-locate t (object tag a) used = refl
  get-locate t (string s) used = get_str-locate t s
  get-locate t (number n) used = number-locate t n

  cast_same :
      (x : ℤ) (a b : Number)
      → ops.numeq a b ≡ true
      → ops.numeq (ops.cast_num x) a ≡ ops.numeq (ops.cast_num x) b
  cast_same x a b e = same_test ops laws a b (ops.cast_num x) e

  -- Equal keys have the same index.
  pub same_index :
      (size : ℕ) (a b : TValue Number)
      → rawequal_obj ops a b ≡ true
      → array_index ops size a ≡ array_index ops size b
  unfolding rawequal_obj array_index
  same_index size (number a) (number b) e =
      rw (laws.same_int a b e, cast_same (ops.number2int b) a b e) refl
  same_index size nil nil e = refl
  same_index size (boolean a) (boolean b) e = refl
  same_index size (light_userdata a) (light_userdata b) e = refl
  same_index size (string a) (string b) e = refl
  same_index size (object tag a) (object tag' b) e = refl
  same_index size a b e = absurd (cc)

  -- A key with an index
  record Indexed (size : ℕ) (k : TValue Number) (i : ℕ) : Type 0 where
    n : Number
    is : k ≡ number n
    int : ops.numeq (ops.cast_num (ops.number2int n)) n ≡ true
    at : slice_index ops n ≡ i

  array_index-Indexed :
      (size : ℕ) (k : TValue Number) (i : ℕ)
      → array_index ops size k ≡ some i
      → Indexed size k i × (i < size)
  unfolding array_index
  array_index-Indexed size nil i e = absurd (cc)
  array_index-Indexed size (boolean b) i e = absurd (cc)
  array_index-Indexed size (light_userdata p) i e = absurd (cc)
  array_index-Indexed size (string s) i e = absurd (cc)
  array_index-Indexed size (object tag a) i e = absurd (cc)
  array_index-Indexed size (number n) i e =
      let (int, inside, at) = parts _ size (slice_index ops n) i e in
      (record { n = n; is = refl; int = int; at = at }, inside)
    where
      parts :
          (b : Bool) (size j i : ℕ)
          → (if b && ltb j size then some j else none) ≡ some i
          → (b ≡ true) × (i < size) × (j ≡ i)
      parts b size j i e = ground arith

  pub array_index-lt :
      (size : ℕ) (k : TValue Number) (i : ℕ) → array_index ops size k ≡ some i → i < size
  array_index-lt size k i e = (array_index-Indexed size k i e).1

  -- Keys with the same index are equal.
  pub index-equal :
      (size : ℕ) (a b : TValue Number) (i : ℕ)
      → array_index ops size a ≡ some i
      → array_index ops size b ≡ some i
      → rawequal_obj ops a b ≡ true
  index-equal size a b i e e' =
      let x = (array_index-Indexed size a i e).0 in
      let y = (array_index-Indexed size b i e').0 in
      let same : ops.number2int x.n ≡ ops.number2int y.n =
        unsigned-inj _ _ (laws.int32 x.n) (laws.int32 y.n) (x.at ∙ sym y.at) in
      subst (λ k. rawequal_obj ops k b ≡ true) (sym x.is)
        (subst (λ k. rawequal_obj ops (number x.n) k ≡ true) (sym y.is)
          (number_equal ops x.n y.n (
            laws.transitive _ _ _ (laws.symmetric _ _ x.int)
              (subst (λ z. ops.numeq (ops.cast_num z) y.n ≡ true) (sym same) y.int))))
