-- ===== src/Strings/Newlstr.antt =====
-- luaS_newlstr answers the one object that a string has, for every string that fits the memory.
use native.Mathlib.Nat.{pow-suc}
use soft_renderer_lua.Base.{
  ℕ, suc, ◌+◌, ◌-◌, ◌*◌, ◌/◌, ◌^◌, bit_and, ◌≤◌, ◌≡◌, ◌↔◌, refl, sym, ap, ◌∙◌, subst, ◌⊎◌, inl, inr,
  arith, Bool, true, false, ◌&&◌, ltb, leb, if◌then◌else◌, Option, none, some, List, length,
  get_elem?, get_elem?_of_lt, set,
}
use soft_renderer_lua.Memory.{max_sizet}
use soft_renderer_lua.Table.{max_int}
use soft_renderer_lua.Strings.{
  TString, StringTable, lmod, hash_of, push, resize, interned, Collector, header_size, newlstr,
  find_string, after_search, luas_newlstr, whitebits,
}
use soft_renderer_lua.Strings.Push.{
  Is, OneOf, Entry, Somewhere, Moved, push-Moved, lmod-lt, some-inj,
}
use soft_renderer_lua.Strings.Resize.{Resized, resize-Resized}
use soft_renderer_lua.Strings.Find.{Search, known, unknown, find_string-Search}
use soft_renderer_lua.Strings.Interning.{
  hash_of-ends, InOrder, Result, known-Result, chained-Result,
}

sweeping : (tb : StringTable) (n : ℕ) → resize true tb n ≡ some tb
unfolding resize
sweeping tb n = refl

-- After the chaining the lists stay, or luaS_resize doubles them.
abbrev Grown : List (List TString) → Option StringTable → Type 0
Grown chained o =
    (tb' : StringTable) × (k' : ℕ) × (o ≡ some tb')
    × (length tb'.hash ≡ 2 ^ k')
    × ((tb'.hash ≡ chained) ⊎ Resized chained tb'.hash (2 ^ k'))

grown :
    (tb : StringTable) (k : ℕ) (crowded sweep : Bool)
    → length tb.hash ≡ 2 ^ k
    → Grown tb.hash (if crowded then resize sweep tb (length tb.hash * 2) else some tb)
grown tb k false sweep size = (tb, k, refl, size, inl refl)
grown tb k true true size = (tb, k, sweeping tb (length tb.hash * 2), size, inl refl)
grown tb k true false size =
    let (tb', run, r, n) = resize-Resized (suc k) tb in
    (tb', suc k, ap (resize false tb) (omega (arith, size, pow-suc 2 k)) ∙ run, r.size, inr r)

new_string : Collector → ℕ → List ℕ → ℕ → TString
new_string g address str h = record {
  address = address;
  marked = bit_and g.currentwhite whitebits;
  hash = h;
  bytes = str;
}

module _ (g : Collector) (address : ℕ) (tb : StringTable) (inv : InOrder tb) (str : List ℕ) where
  newlstr_run :
      (h : ℕ) (chained : List (List TString)) (tb' : StringTable)
      → length str + 1 ≤ max_sizet - header_size
      → push tb.hash (new_string g address str h) ≡ some chained
      → (if ltb (length chained) (tb.nuse + 1) && leb (length chained) (max_int / 2)
          then resize g.sweepstring
              (record { hash = chained; nuse = tb.nuse + 1 })
              (length chained * 2)
          else some (record { hash = chained; nuse = tb.nuse + 1 }))
        ≡ some tb'
      → newlstr g address tb str h ≡ some (interned (new_string g address str h) tb')
  unfolding newlstr new_string
  newlstr_run h chained tb' fits run run' =
      rw (not_above (max_sizet - header_size) (length str + 1) fits, run, run') refl
    where
      not_above : (a b : ℕ) → b ≤ a → ltb a b ≡ false
      not_above a b le = ground arith

  searching :
      (h : ℕ) (list : List TString)
      → hash_of str ≡ some h
      → get_elem? tb.hash (lmod h (length tb.hash)) ≡ some list
      → luas_newlstr g address tb str
        ≡ after_search g address tb str h (find_string g.currentwhite str list)
  unfolding luas_newlstr
  searching h list e at = rw (e, at) refl

  missed : (h : ℕ) → after_search g address tb str h none ≡ newlstr g address tb str h
  unfolding after_search
  missed h = refl

  known_already :
      (h : ℕ) (ts : TString) (list' : List TString)
      → after_search g address tb str h (some (ts, list'))
        ≡ some (interned ts (record tb { hash = set tb.hash (lmod h (length tb.hash)) list' }))
  unfolding after_search
  known_already h ts list' = refl

  abbrev Answer : Type 0
  Answer =
      (ts : TString) × (tb' : StringTable) × (luas_newlstr g address tb str
        ≡ some (interned ts tb'))
      × Result tb str ts tb'

  module _ (fits : length str + 1 ≤ max_sizet - header_size)
      (fresh : (h : ℕ) (b : List ℕ) → Somewhere tb.hash address h b → ⊥) (h : ℕ)
      (hashed : hash_of str ≡ some h) (list : List TString)
      (at : get_elem? tb.hash (lmod h (length tb.hash)) ≡ some list) where
    -- No string of the table has these bytes when none in the list of their hash has.
    absent : ((a h' : ℕ) → OneOf list a h' str → ⊥) → (a h' : ℕ) → Somewhere tb.hash a h' str → ⊥
    absent no_one a h' (i, (l, e, one)) =
        let (p, q) = inv.filed i a h' str (l, e, one) in
        let place : i ≡ lmod h (length tb.hash) =
          p ∙ ap (λ x. lmod x (length tb.hash)) (some-inj (sym q ∙ hashed)) in
        let same : l ≡ list = some-inj (sym e ∙ ap (get_elem? tb.hash) place ∙ at) in
        no_one a h' (subst (λ x. OneOf x a h' str) same one)

    new-Answer :
        find_string g.currentwhite str list ≡ none → ((a h' : ℕ) → OneOf list a h' str → ⊥) → Answer
    unfolding new_string
    new-Answer miss no_one =
        let ts = new_string g address str h in
        let (chained, run, m) = push-Moved inv.k tb.hash ts inv.size in
        let tb1 : StringTable = record { hash = chained; nuse = tb.nuse + 1 } in
        let (tb', k, run', size, held) =
          grown tb1 inv.k (ltb (length chained) (tb.nuse + 1) && leb (length chained) (max_int / 2))
            g.sweepstring (m.size ∙ inv.size) in
        (
          ts,
          tb',
          searching h list hashed at
              ∙ ap (after_search g address tb str h) miss
              ∙ missed h
              ∙ newlstr_run h chained tb' fits run run',
          chained-Result g address tb inv str ts chained k tb' hashed refl (absent no_one) fresh m
              size (filed chained m tb' k held) (kept chained tb' k held),
        )
      where
        origin_filed :
            (chained : List (List TString))
            → Moved (Is (new_string g address str h)) tb.hash chained
            → (i a h' : ℕ) (b : List ℕ) → Entry chained i a h' b
            → i ≡ lmod h' (length tb.hash)
        origin_filed chained m i a h' b e = elim (m.back i a h' b e) [
          | inl new ↦ new.1
          | inr old ↦ (inv.filed i a h' b old).0
        ]

        filed :
            (chained : List (List TString))
            → Moved (Is (new_string g address str h)) tb.hash chained
            → (tb' : StringTable) (k : ℕ) → (tb'.hash ≡ chained) ⊎ Resized chained tb'.hash (2 ^ k)
            → (i a h' : ℕ) (b : List ℕ) → Entry tb'.hash i a h' b
            → (i ≡ lmod h' (length tb'.hash)) × Somewhere chained a h' b
        filed chained m tb' k (inl same) i a h' b e =
            let e' = subst (λ x. Entry x i a h' b) same e in
            (
              origin_filed chained m i a h' b e' ∙ ap (lmod h') (sym m.size ∙ ap length (sym same)),
              (i, e'),
            )
        filed chained m tb' k (inr r) i a h' b e = r.filed i a h' b e

        kept :
            (chained : List (List TString)) (tb' : StringTable) (k : ℕ)
            → (tb'.hash ≡ chained) ⊎ Resized chained tb'.hash (2 ^ k)
            → (a h' : ℕ) (b : List ℕ) → Somewhere chained a h' b
            → Somewhere tb'.hash a h' b
        kept chained tb' k (inl same) a h' b x = subst (λ y. Somewhere y a h' b) (sym same) x
        kept chained tb' k (inr r) a h' b x = r.kept a h' b x

    searched : Search str list (find_string g.currentwhite str list) → Answer
    searched (known ts list' run bytes m k) = (
      ts,
      record tb { hash = set tb.hash (lmod h (length tb.hash)) list' },
      searching h list hashed at
          ∙ ap (after_search g address tb str h) run
          ∙ known_already h ts list',
      known-Result g address tb inv str h list list' ts hashed at bytes m k,
    )
    searched (unknown run no_one) = new-Answer run no_one

-- luaS_newlstr of a string that fits the memory answers an object with these bytes, and the table stays in order: it
-- holds each string once, the answer among them, none has gone, and no other one has come. The memory manager
-- gives an address that no string has.
pub luas_newlstr-Result :
    (g : Collector) (address : ℕ) (tb : StringTable) (inv : InOrder tb) (str : List ℕ)
    → length str + 1 ≤ max_sizet - header_size
    → ((h : ℕ) (b : List ℕ) → Somewhere tb.hash address h b → ⊥)
    → (ts : TString) × (tb' : StringTable) × (luas_newlstr g address tb str
        ≡ some (interned ts tb'))
      × Result tb str ts tb'
luas_newlstr-Result g address tb inv str fits fresh =
    let (h, hashed) = hash_of-ends str in
    let (list, at) =
      get_elem?_of_lt tb.hash (lmod h (length tb.hash)) (lmod-lt inv.k _ h inv.size) in
    searched g address tb inv str fits fresh h hashed list at
      (find_string-Search g.currentwhite str list)

-- A string that is interned is the object of another one exactly when their bytes are the same: the object at `a` is
-- in the table, which is in order.
pub luas_newlstr-same :
    (g : Collector) (address : ℕ) (tb : StringTable) (inv : InOrder tb) (a h : ℕ) (b str : List ℕ)
    → Somewhere tb.hash a h b
    → length str + 1 ≤ max_sizet - header_size
    → ((h : ℕ) (b : List ℕ) → Somewhere tb.hash address h b → ⊥)
    → (ts : TString) × (tb' : StringTable) × (luas_newlstr g address tb str
        ≡ some (interned ts tb'))
      × ((a ≡ ts.address) ↔ (b ≡ str))
luas_newlstr-same g address tb inv a h b str there fits fresh =
    let (ts, tb', run, r) = luas_newlstr-Result g address tb inv str fits fresh in
    let old = r.kept a h b there in
    (
      ts,
      tb',
      run,
      (
        (λ e.
            r.order.apart a h ts.hash b str old
              (subst (λ x. Somewhere tb'.hash x ts.hash str) (sym e) r.now)),
        (λ e.
            r.order.unique a h ts.address ts.hash b old
              (subst (λ x. Somewhere tb'.hash ts.address ts.hash x) (sym e) r.now)),
      ),
    )
