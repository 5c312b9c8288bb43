-- ===== src/Strings/Interning.antt =====
-- luaS_newlstr keeps one object for each string.
use soft_renderer_lua.Base.{
  Listed, ℕ, zero, suc, ◌+◌, ◌-◌, ◌/◌, ◌^◌, ◌≤◌, ◌<◌, ◌≡◌, refl, sym, ap, ◌∙◌, subst, ◌⊎◌, inl, inr,
  arith, leb, Bool-cases, some, List, length, get_elem?, get_elem?_of_lt, get_elem?-set_self,
  get_elem?-set_ne, set, length-set,
}
use soft_renderer_lua.Strings.{TString, StringTable, lmod, mix, hash_loop, hash_of, Collector}
use soft_renderer_lua.Strings.Push.{
  Is, OneOf, Entry, Somewhere, Moved, lmod-lt, index_or_not, some-inj,
}
use soft_renderer_lua.Strings.Find.{Kept}

hash_loop-ends :
    (fuel : ℕ) (str : List ℕ) (step l1 h : ℕ)
    → l1 < fuel
    → l1 ≤ length str
    → 0 < step
    → (h' : ℕ) × (hash_loop fuel str step l1 h ≡ some h')
unfolding hash_loop
hash_loop-ends zero str step l1 h lt le pos = absurd (omega arith)
hash_loop-ends (suc fuel) str step l1 h lt le pos = elim (Bool-cases (leb step l1)) [
  | inl e ↦
      let at_least : step ≤ l1 = ground arith in
      let (c, at) = get_elem?_of_lt str (l1 - 1) (omega arith) in
      let (h', run) =
        hash_loop-ends fuel str step (l1 - step) (mix h c) (omega arith) (omega arith) pos in
      (h', rw (e, at, run) refl)
  | inr e ↦ (h, rw e refl)
]

pub hash_of-ends : (str : List ℕ) → (h : ℕ) × (hash_of str ≡ some h)
unfolding hash_of
hash_of-ends str =
    hash_loop-ends (length str + 1) str (length str / 2 ^ 5 + 1) (length str) _ (omega arith)
      (omega arith) (omega arith)

-- The table in order: the strings are in the lists of their hashes, equal strings are one, and different ones have
-- different addresses.
pub record InOrder (tb : StringTable) : Type 0 where
  pub k : ℕ
  pub size : length tb.hash ≡ 2 ^ k
  pub filed :
      (i a h : ℕ) (b : List ℕ)
      → Entry tb.hash i a h b
      → (i ≡ lmod h (length tb.hash)) × (hash_of b ≡ some h)
  pub unique :
      (a h a' h' : ℕ) (b : List ℕ) → Somewhere tb.hash a h b → Somewhere tb.hash a' h' b → a ≡ a'
  pub apart :
      (a h h' : ℕ) (b b' : List ℕ) → Somewhere tb.hash a h b → Somewhere tb.hash a h' b' → b ≡ b'

-- The string is the one in the table with these bytes, and of the other strings none has come or gone.
pub record Result (tb : StringTable) (str : List ℕ) (ts : TString) (tb' : StringTable)
    : Type 0 where
  pub order : InOrder tb'
  pub bytes : ts.bytes ≡ str
  pub hash : hash_of str ≡ some ts.hash
  pub now : Somewhere tb'.hash ts.address ts.hash str
  pub kept : (a h : ℕ) (b : List ℕ) → Somewhere tb.hash a h b → Somewhere tb'.hash a h b
  pub only :
      (a h : ℕ) (b : List ℕ)
      → Somewhere tb'.hash a h b
      → Somewhere tb.hash a h b ⊎ ((a ≡ ts.address) × (b ≡ str))

module _ (hash : List (List TString)) (i : ℕ) (list list' : List TString)
    (at : get_elem? hash i ≡ some list) (lt : i < length hash) where
  -- A list is replaced by one with the same strings.
  replace-Entry :
      ((a h : ℕ) (b : List ℕ) → OneOf list a h b → OneOf list' a h b)
      → (j a h : ℕ) (b : List ℕ) → Entry hash j a h b
      → Entry (set hash i list') j a h b
  replace-Entry f j a h b (l, e, one) = elim (index_or_not j i) [
    | inl q ↦
        let same : l ≡ list = some-inj (sym e ∙ ap (get_elem? hash) q ∙ at) in
        (
          list',
          ap (get_elem? (set hash i list')) q ∙ get_elem?-set_self hash i list' lt,
          f a h b (subst (λ x. OneOf x a h b) same one),
        )
    | inr q ↦ (l, get_elem?-set_ne hash list' (λ r. q (sym r)) ∙ e, one)
  ]

  replaced-Entry :
      ((a h : ℕ) (b : List ℕ) → OneOf list' a h b → OneOf list a h b)
      → (j a h : ℕ) (b : List ℕ) → Entry (set hash i list') j a h b
      → Entry hash j a h b
  replaced-Entry f j a h b (l, e, one) = elim (index_or_not j i) [
    | inl q ↦
        let same : l ≡ list' =
          some-inj
            (sym e ∙ ap (get_elem? (set hash i list')) q ∙ get_elem?-set_self hash i list' lt) in
        (list, ap (get_elem? hash) q ∙ at, f a h b (subst (λ x. OneOf x a h b) same one))
    | inr q ↦ (l, sym (get_elem?-set_ne hash list' (λ r. q (sym r))) ∙ e, one)
  ]

module _ (g : Collector) (address : ℕ) (tb : StringTable) (inv : InOrder tb) (str : List ℕ) where
  -- The string was there.
  pub known-Result :
      (h : ℕ) (list list' : List TString) (ts : TString)
      → hash_of str ≡ some h
      → get_elem? tb.hash (lmod h (length tb.hash)) ≡ some list
      → ts.bytes ≡ str
      → Listed ts list'
      → Kept list list'
      → Result tb str ts (record tb { hash = set tb.hash (lmod h (length tb.hash)) list' })
  known-Result h list list' ts run at bytes m k =
      let i = lmod h (length tb.hash) in
      let lt = lmod-lt inv.k (length tb.hash) h inv.size in
      let to : (j a h : ℕ) (b : List ℕ)
          → Entry tb.hash j a h b
          → Entry (set tb.hash i list') j a h b =
        replace-Entry tb.hash i list list' at lt k.forth in
      let from : (j a h : ℕ) (b : List ℕ)
          → Entry (set tb.hash i list') j a h b
          → Entry tb.hash j a h b =
        replaced-Entry tb.hash i list list' at lt k.back in
      let size = length-set tb.hash i list' in
      let here : Entry (set tb.hash i list') i ts.address ts.hash str =
        (list', get_elem?-set_self tb.hash i list' lt, (ts, m, (refl, refl, sym bytes))) in
      record {
        order = record {
          k = inv.k;
          size = size ∙ inv.size;
          filed = λ j a h b e.
              let (p, q) = inv.filed j a h b (from j a h b e) in (p ∙ ap (lmod h) (sym size), q);
          unique = λ a h a' h' b x y.
              inv.unique a h a' h' b (x.0, from x.0 a h b x.1) (y.0, from y.0 a' h' b y.1);
          apart = λ a h h' b b' x y.
              inv.apart a h h' b b' (x.0, from x.0 a h b x.1) (y.0, from y.0 a h' b' y.1);
        };
        bytes = bytes;
        hash = (inv.filed i ts.address ts.hash str (from i ts.address ts.hash str here)).1;
        now = (i, here);
        kept = λ a h b x. (x.0, to x.0 a h b x.1);
        only = λ a h b x. inl (x.0, from x.0 a h b x.1);
      }

  -- The new string comes into lists that hold what `chained` holds.
  pub chained-Result :
      (ts : TString) (chained : List (List TString)) (k : ℕ) (tb' : StringTable)
      → hash_of str ≡ some ts.hash
      → ts.bytes ≡ str
      → ((a h : ℕ) → Somewhere tb.hash a h str → ⊥)
      → ((h : ℕ) (b : List ℕ) → Somewhere tb.hash ts.address h b → ⊥)
      → Moved (Is ts) tb.hash chained
      → length tb'.hash ≡ 2 ^ k
      → ((i a h : ℕ) (b : List ℕ)
          → Entry tb'.hash i a h b
          → (i ≡ lmod h (length tb'.hash)) × Somewhere chained a h b)
      → ((a h : ℕ) (b : List ℕ) → Somewhere chained a h b → Somewhere tb'.hash a h b)
      → Result tb str ts tb'
  chained-Result ts chained k tb' hashed bytes absent fresh m size filed kept = record {
    order = record {
      k = k;
      size = size;
      filed = λ i a h b e. ((filed i a h b e).0, hash_is a h b (origin a h b (i, e)));
      unique = λ a h a' h' b x y. unique a h a' h' b (origin a h b x) (origin a' h' b y);
      apart = λ a h h' b b' x y. apart a h h' b b' (origin a h b x) (origin a h' b' y);
    };
    bytes = bytes;
    hash = hashed;
    now =
        kept ts.address ts.hash str
          (lmod ts.hash (length tb.hash), m.moved ts.address ts.hash str (refl, refl, sym bytes));
    kept = λ a h b x. kept a h b (x.0, m.forth x.0 a h b x.1);
    only = λ a h b x. only a h b (origin a h b x);
  }
    where
      origin :
          (a h : ℕ) (b : List ℕ) → Somewhere tb'.hash a h b → Is ts a h b ⊎ Somewhere tb.hash a h b
      origin a h b x =
          let y = (filed x.0 a h b x.1).1 in
          elim (m.back y.0 a h b y.1) [ inl new ↦ inl new.0 | inr old ↦ inr (y.0, old) ]

      hash_is : (a h : ℕ) (b : List ℕ) → Is ts a h b ⊎ Somewhere tb.hash a h b → hash_of b ≡ some h
      hash_is a h b (inl is) = ap hash_of (is.2 ∙ bytes) ∙ hashed ∙ ap some (sym is.1)
      hash_is a h b (inr x) = (inv.filed x.0 a h b x.1).1

      unique :
          (a h a' h' : ℕ) (b : List ℕ)
          → Is ts a h b ⊎ Somewhere tb.hash a h b
          → Is ts a' h' b ⊎ Somewhere tb.hash a' h' b
          → a ≡ a'
      unique a h a' h' b (inl x) (inl y) = x.0 ∙ sym y.0
      unique a h a' h' b (inl x) (inr y) =
          absurd (absent a' h' (subst (λ z. Somewhere tb.hash a' h' z) (x.2 ∙ bytes) y))
      unique a h a' h' b (inr x) (inl y) =
          absurd (absent a h (subst (λ z. Somewhere tb.hash a h z) (y.2 ∙ bytes) x))
      unique a h a' h' b (inr x) (inr y) = inv.unique a h a' h' b x y

      apart :
          (a h h' : ℕ) (b b' : List ℕ)
          → Is ts a h b ⊎ Somewhere tb.hash a h b
          → Is ts a h' b' ⊎ Somewhere tb.hash a h' b'
          → b ≡ b'
      apart a h h' b b' (inl x) (inl y) = x.2 ∙ sym y.2
      apart a h h' b b' (inl x) (inr y) =
          absurd (fresh h' b' (subst (λ z. Somewhere tb.hash z h' b') x.0 y))
      apart a h h' b b' (inr x) (inl y) =
          absurd (fresh h b (subst (λ z. Somewhere tb.hash z h b) y.0 x))
      apart a h h' b b' (inr x) (inr y) = inv.apart a h h' b b' x y

      only :
          (a h : ℕ) (b : List ℕ)
          → Is ts a h b ⊎ Somewhere tb.hash a h b
          → Somewhere tb.hash a h b ⊎ ((a ≡ ts.address) × (b ≡ str))
      only a h b (inl is) = inr (is.0, is.2 ∙ bytes)
      only a h b (inr x) = inl x
