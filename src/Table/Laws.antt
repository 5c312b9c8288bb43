-- ===== src/Table/Laws.antt =====
-- The raw equality of values and the main positions, from what the model takes of the numbers of C.
use soft_renderer_lua.Base.{
  ℕ, ◌%◌, ◌^◌, ◌<◌, ◌≡◌, refl, sym, ap, ◌∙◌, subst, arith, Bool, true, false, ◌&&◌, ◌==◌,
  Bool-cases, inl, inr,
}
use soft_renderer_lua.Base.Int.{ℤ, pos, negsuc}
use soft_renderer_lua.Table.{
  NumberOps, TValue, nil, boolean, light_userdata, number, string, object, Table, is_nil, hashmod,
  hashpow2, hashnum, mainposition, rawequal_obj,
}
use soft_renderer_lua.Table.Keys.{KeyLaws}

-- An int of 32 bits
abbrev pub Int32 : ℤ → Type 0
Int32 (pos n) = n < 2 ^ 31
Int32 (negsuc n) = n < 2 ^ 31

-- `==` of C on numbers, which NaN is not equal to itself by, and the conversion to an int; numbers that are equal
-- are zeros or have the same bytes.
pub record NumberLaws {Number : Type 0} (ops : NumberOps Number) : Type 0 where
  pub symmetric : (a b : Number) → ops.numeq a b ≡ true → ops.numeq b a ≡ true
  pub transitive :
      (a b c : Number) → ops.numeq a b ≡ true → ops.numeq b c ≡ true → ops.numeq a c ≡ true
  pub same_words :
      (a b : Number)
      → ops.numeq a b ≡ true
      → ops.numeq a (ops.cast_num (pos 0)) ≡ false
      → ops.words a ≡ ops.words b
  pub same_int : (a b : Number) → ops.numeq a b ≡ true → ops.number2int a ≡ ops.number2int b
  pub int32 : (a : Number) → Int32 (ops.number2int a)

-- A string that is interned has the hash of its address.
abbrev pub Interned : {Number : Type 0} → (ℕ → ℕ) → TValue Number → Type 0
Interned hash_of nil = Unit
Interned hash_of (boolean b) = Unit
Interned hash_of (light_userdata p) = Unit
Interned hash_of (number n) = Unit
Interned hash_of (string s) = s.hash ≡ hash_of s.address
Interned hash_of (object tag a) = Unit

==→≡ : (a b : ℕ) → (a == b) ≡ true → a ≡ b
==→≡ a b h = ground arith

and_true : (a b : Bool) → (a && b) ≡ true → (a ≡ true) × (b ≡ true)
and_true true b h = (refl, h)
and_true false b h = absurd (cc)

bool-eq : (a b : Bool) → (a ≡ true → b ≡ true) → (b ≡ true → a ≡ true) → a ≡ b
bool-eq true b h k = sym (h refl)
bool-eq false true h k = absurd (cc (k refl))
bool-eq false false h k = refl

module _ {Number : Type 0} (ops : NumberOps Number) (laws : NumberLaws ops) where
  -- Equal numbers are equal to the same numbers.
  pub same_test : (a b c : Number) → ops.numeq a b ≡ true → ops.numeq c a ≡ ops.numeq c b
  same_test a b c e =
      bool-eq _ _ (λ h. laws.transitive c a b h e)
        (λ h. laws.transitive c b a h (laws.symmetric a b e))

  same_zero : (a b c : Number) → ops.numeq a b ≡ true → ops.numeq a c ≡ ops.numeq b c
  same_zero a b c e =
      bool-eq _ _ (λ h. laws.transitive b a c (laws.symmetric a b e) h)
        (λ h. laws.transitive a b c e h)

  pub hashnum-same :
      (t : Table Number) (a b : Number) → ops.numeq a b ≡ true → hashnum ops t a ≡ hashnum ops t b
  unfolding hashnum
  hashnum-same t a b e = elim (Bool-cases (ops.numeq a (ops.cast_num (pos 0)))) [
    | inl zero_a ↦ rw (zero_a, sym (same_zero a b _ e) ∙ zero_a) refl
    | inr other ↦ rw (other, sym (same_zero a b _ e) ∙ other, laws.same_words a b e other) refl
  ]

  raw-symmetric : (a b : TValue Number) → rawequal_obj ops a b ≡ true → rawequal_obj ops b a ≡ true
  unfolding rawequal_obj
  raw-symmetric nil nil h = refl
  raw-symmetric (number a) (number b) h = laws.symmetric a b h
  raw-symmetric (boolean a) (boolean b) h = ground arith
  raw-symmetric (light_userdata a) (light_userdata b) h = ground arith
  raw-symmetric (string a) (string b) h = ground arith
  raw-symmetric (object s a) (object t b) h = ground arith
  raw-symmetric a b h = cc

  raw-transitive :
      (a b c : TValue Number)
      → rawequal_obj ops a b ≡ true
      → rawequal_obj ops b c ≡ true
      → rawequal_obj ops a c ≡ true
  unfolding rawequal_obj
  raw-transitive nil nil c h k = k
  raw-transitive (number a) (number b) (number c) h k = laws.transitive a b c h k
  raw-transitive (boolean a) (boolean b) c h k =
      subst (λ x. rawequal_obj ops (boolean x) c ≡ true) (sym (==→≡ a b h)) k
  raw-transitive (light_userdata a) (light_userdata b) c h k =
      subst (λ x. rawequal_obj ops (light_userdata x) c ≡ true) (sym (==→≡ a b h)) k
  raw-transitive (string a) (string b) (string c) h k = ground arith
  raw-transitive (object s a) (object t b) c h k =
      let (p, q) = and_true (s == t) (a == b) h in
      subst (λ x. rawequal_obj ops (object x a) c ≡ true) (sym (==→≡ s t p))
        (subst (λ x. rawequal_obj ops (object t x) c ≡ true) (sym (==→≡ a b q)) k)
  raw-transitive a b c h k = cc

  raw-main :
      (hash_of : ℕ → ℕ) (t : Table Number) (a b : TValue Number)
      → Interned hash_of a
      → Interned hash_of b
      → rawequal_obj ops a b ≡ true
      → mainposition ops t a ≡ mainposition ops t b
  unfolding rawequal_obj mainposition
  raw-main hash_of t nil nil i j h = refl
  raw-main hash_of t (number a) (number b) i j h = hashnum-same t a b h
  raw-main hash_of t (boolean a) (boolean b) i j h = ap (hashpow2 t) (==→≡ a b h)
  raw-main hash_of t (light_userdata a) (light_userdata b) i j h =
      ap (λ x. hashmod t (x % 2 ^ 32)) (==→≡ a b h)
  raw-main hash_of t (string a) (string b) i j h =
      ap (hashpow2 t) (i ∙ ap hash_of (==→≡ a.address b.address h) ∙ sym j)
  raw-main hash_of t (object s a) (object u b) i j h =
      ap (λ x. hashmod t (x % 2 ^ 32)) (==→≡ a b (and_true (s == u) (a == b) h).1)
  raw-main hash_of t a b i j h = absurd (cc)

  raw-not_nil :
      (a b : TValue Number) → is_nil b ≡ false → rawequal_obj ops a b ≡ true → is_nil a ≡ false
  unfolding rawequal_obj
  raw-not_nil nil nil h k = h
  raw-not_nil nil b h k = absurd (cc)
  raw-not_nil a b h k = refl

  pub raw-KeyLaws :
      (hash_of : ℕ → ℕ) (t : Table Number)
      → KeyLaws (mainposition ops t) (rawequal_obj ops) (Interned hash_of)
  raw-KeyLaws hash_of t = record {
    symmetric = raw-symmetric;
    transitive = raw-transitive;
    same_main = raw-main hash_of t;
    not_nil = raw-not_nil;
  }
