-- ===== src/Strings/Push.antt =====
-- The strings in the lists of the table, and what chaining one more leaves.
use soft_renderer_lua.Base.{
  Listed, first, later, ℕ, ◌-◌, ◌^◌, ◌<◌, ◌≡◌, ◌≢◌, refl, sym, ap, subst, ◌∙◌, ◌⊎◌, inl, inr, arith,
  some, List, ◌∷◌, length, get_elem?, get_elem?_of_lt, get_elem?-set_self, get_elem?-set_ne, set,
  length-set, Bool-cases, ◌==◌,
}
use native.Mathlib.Nat.{one-le-pow}
use soft_renderer_lua.Base.Bits.{bit_and_ones}
use soft_renderer_lua.Strings.{TString, lmod, push}

-- A string, by its address, its hash and its bytes
abbrev pub Named : Type 1
Named = ℕ → ℕ → List ℕ → Type 0

abbrev pub Is : TString → Named
Is ts a h b = (a ≡ ts.address) × (h ≡ ts.hash) × (b ≡ ts.bytes)

abbrev pub OneOf : List TString → Named
OneOf list a h b = (ts : TString) × Listed ts list × Is ts a h b

-- It is in the list with that index.
abbrev pub Entry : List (List TString) → ℕ → Named
Entry hash i a h b = (list : List TString) × (get_elem? hash i ≡ some list) × OneOf list a h b

abbrev pub Somewhere : List (List TString) → Named
Somewhere hash a h b = (i : ℕ) × Entry hash i a h b

-- The strings that `P` names have come into the lists, each to the one of its hash.
pub record Moved (P : Named) (hash hash' : List (List TString)) : Type 0 where
  pub size : length hash' ≡ length hash
  pub back :
      (i a h : ℕ) (b : List ℕ)
      → Entry hash' i a h b
      → (P a h b × (i ≡ lmod h (length hash))) ⊎ Entry hash i a h b
  pub forth : (i a h : ℕ) (b : List ℕ) → Entry hash i a h b → Entry hash' i a h b
  pub moved : (a h : ℕ) (b : List ℕ) → P a h b → Entry hash' (lmod h (length hash)) a h b

pub lmod-lt : (k n h : ℕ) → n ≡ 2 ^ k → lmod h n < n
lmod-lt k n h e =
    let p : 0 < 2 ^ k = one-le-pow k 2 (omega arith) in
    omega (arith, bit_and_ones k h (n - 1) (omega (arith, e)), e)

pub some-inj : {A : Type 0} {x y : A} → some x ≡ some y → x ≡ y
some-inj h = cc

pub index_or_not : (i j : ℕ) → (i ≡ j) ⊎ (i ≢ j)
index_or_not i j = elim (Bool-cases (i == j)) [
  | inl e ↦ inl (ground arith)
  | inr e ↦ inr (ground arith)
]

-- Membership after a string is put in front
OneOf-cons :
    (ts : TString) (list : List TString) (a h : ℕ) (b : List ℕ)
    → OneOf (ts ∷ list) a h b
    → Is ts a h b ⊎ OneOf list a h b
OneOf-cons ts list a h b (x, first, is) = inl is
OneOf-cons ts list a h b (x, later m, is) = inr (x, m, is)

push_run :
    (hash : List (List TString)) (ts : TString) (list : List TString)
    → get_elem? hash (lmod ts.hash (length hash)) ≡ some list
    → push hash ts ≡ some (set hash (lmod ts.hash (length hash)) (ts ∷ list))
unfolding push
push_run hash ts list at = rw at refl

module _ (hash : List (List TString)) (ts : TString) (list : List TString)
    (at : get_elem? hash (lmod ts.hash (length hash)) ≡ some list)
    (lt : lmod ts.hash (length hash) < length hash) where
  abbrev place : ℕ
  place = lmod ts.hash (length hash)

  abbrev pushed : List (List TString)
  pushed = set hash place (ts ∷ list)

  pushed_here : get_elem? pushed place ≡ some (ts ∷ list)
  pushed_here = get_elem?-set_self hash place (ts ∷ list) lt

  pushed_back :
      (i a h : ℕ) (b : List ℕ)
      → Entry pushed i a h b
      → (Is ts a h b × (i ≡ lmod h (length hash))) ⊎ Entry hash i a h b
  pushed_back i a h b (l, e, one) = elim (index_or_not i place) [
    | inl q ↦
        let same : l ≡ ts ∷ list = some-inj (sym e ∙ ap (get_elem? pushed) q ∙ pushed_here) in
        elim (OneOf-cons ts list a h b (subst (λ x. OneOf x a h b) same one)) [
          | inl is ↦ inl (is, q ∙ ap (λ x. lmod x (length hash)) (sym is.1))
          | inr old ↦ inr (list, ap (get_elem? hash) q ∙ at, old)
        ]
    | inr q ↦ inr (l, sym (get_elem?-set_ne hash (ts ∷ list) (λ r. q (sym r))) ∙ e, one)
  ]

  pushed_forth : (i a h : ℕ) (b : List ℕ) → Entry hash i a h b → Entry pushed i a h b
  pushed_forth i a h b (l, e, (x, m, is)) = elim (index_or_not i place) [
    | inl q ↦
        let same : l ≡ list = some-inj (sym e ∙ ap (get_elem? hash) q ∙ at) in
        (ts ∷ list, ap (get_elem? pushed) q ∙ pushed_here, (x, later (subst (Listed x) same m), is))
    | inr q ↦ (l, get_elem?-set_ne hash (ts ∷ list) (λ r. q (sym r)) ∙ e, (x, m, is))
  ]

  pub push-Moved-at : Moved (Is ts) hash pushed
  push-Moved-at = record {
    size = length-set hash place (ts ∷ list);
    back = pushed_back;
    forth = pushed_forth;
    moved = λ a h b is. (
      ts ∷ list,
      ap (λ x. get_elem? pushed (lmod x (length hash))) is.1 ∙ pushed_here,
      (ts, first, is),
    );
  }

-- A string is chained into a table whose size is a power of two.
pub push-Moved :
    (k : ℕ) (hash : List (List TString)) (ts : TString)
    → length hash ≡ 2 ^ k
    → (hash' : List (List TString)) × (push hash ts ≡ some hash') × Moved (Is ts) hash hash'
push-Moved k hash ts e =
    let lt = lmod-lt k (length hash) ts.hash e in
    let (list, at) = get_elem?_of_lt hash (lmod ts.hash (length hash)) lt in
    (
      set hash (lmod ts.hash (length hash)) (ts ∷ list),
      push_run hash ts list at,
      push-Moved-at hash ts list at lt,
    )
