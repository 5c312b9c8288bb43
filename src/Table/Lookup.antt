-- ===== src/Table/Lookup.antt =====
-- The search in the hash part of a table whose links and keys are in order, and what a new key leaves of it.
use mathlib.Core.Option
use soft_renderer_lua.Base.{
  ℕ, suc, ◌-◌, ◌≤◌, ◌<◌, ◌≡◌, refl, sym, ap, ◌⊎◌, ◌∙◌, subst, arith, Bool, true, false, Bool-cases,
  inl, inr, Option, some, length, get_elem?, get_elem?_of_lt,
}
use soft_renderer_lua.Table.{
  NumberOps, TValue, nil, boolean, light_userdata, number, string, object, Node, Table, Slot,
  nilobject, node_slot, is_nil, sizenode, value_at, find, rawequal_obj, mainposition, get_any,
}
use soft_renderer_lua.Table.Chains.{
  ChainEnds, Missed, miss, skip, Outcome, found, nothing, find-finds, mainposition_lt,
}
use soft_renderer_lua.Table.Links.{
  At, At-same, Reach, here, step, Links, count_used, count_used-le, chain-ends, unused-chain,
}
use soft_renderer_lua.Table.Changes.{some-inj, link-clash}
use soft_renderer_lua.Table.Keys.{KeyLaws, Keys, Kept, Placed}

-- The hash part of a table in order. `Ok` says of a string that its hash is that of its address.
pub record Hashed {Number : Type 0} (ops : NumberOps Number) (Ok : TValue Number → Type 0)
    (t : Table Number) : Type 0 where
  pub size : length t.node ≡ sizenode t
  pub rank : ℕ → ℕ
  pub links : Links t.node rank
  pub keys : Keys (mainposition ops t) (rawequal_obj ops) Ok t.node
  pub lastfree : t.lastfree ≤ length t.node
  pub dummy : t.node_is_dummy ≡ true → t.lastfree ≡ 0

module _ {Number : Type 0} {t : Table Number} {test : TValue Number → Bool} where
  Missed-Reach :
      {i j : ℕ} {n : Node Number}
      → Missed t test i
      → Reach t.node i j
      → get_elem? t.node j ≡ some n
      → test n.i_key ≡ false
  Missed-Reach (miss n at fails next) here at' =
      subst (λ x. test x.i_key ≡ false) (At-same at at') fails
  Missed-Reach (miss n at fails next) (step e r) at' =
      absurd (link-clash next (ap (λ x. x.next) (At-same at e.at) ∙ e.next))
  Missed-Reach (skip n at fails next rest) here at' =
      subst (λ x. test x.i_key ≡ false) (At-same at at') fails
  Missed-Reach (skip n at fails next rest) (step {k = k} e r) at' =
      let same = some-inj (sym next ∙ ap (λ x. x.next) (At-same at e.at) ∙ e.next) in
      Missed-Reach rest (subst (λ x. Reach t.node x k) (sym same) r) at'

slot-inj : {i j : ℕ} → ◌≡◌ {A = Option Slot} (some (node_slot i)) (some (node_slot j)) → i ≡ j
slot-inj h = cc

get_any_lem :
    {Number : Type 0} (ops : NumberOps Number) (t : Table Number) (k : TValue Number)
    → get_any ops t k ≡ find t (λ x. rawequal_obj ops x k) (sizenode t) (mainposition ops t k)
unfolding get_any
get_any_lem ops t k = refl

false-true : (b : Bool) → b ≡ false → b ≡ true → ⊥
false-true b e e' = cc

slot-clash : {i : ℕ} → ◌≡◌ {A = Option Slot} (some nilobject) (some (node_slot i)) → ⊥
slot-clash h = cc

pub nil-value : {Number : Type 0} (v : TValue Number) → is_nil v ≡ true → v ≡ nil
nil-value nil h = refl
nil-value (boolean b) h = absurd (cc)
nil-value (light_userdata p) h = absurd (cc)
nil-value (number n) h = absurd (cc)
nil-value (string s) h = absurd (cc)
nil-value (object tag a) h = absurd (cc)

module _ {Number : Type 0} where
  -- The value that a search gives
  abbrev pub read : Table Number → Option Slot → Option (TValue Number)
  read t o = Option.map (value_at t) o

  read_hit :
      (t : Table Number) (o : Option Slot) (i : ℕ) (n : Node Number)
      → At t.node i n
      → o ≡ some (node_slot i)
      → read t o ≡ some n.i_val
  unfolding value_at
  read_hit t o i n at e = rw (e, at) refl

  read_miss : (t : Table Number) (o : Option Slot) → o ≡ some nilobject → read t o ≡ some nil
  unfolding value_at
  read_miss t o e = rw e refl

module _ {Number : Type 0} (ops : NumberOps Number) (Ok : TValue Number → Type 0)
    (laws : (t : Table Number) → KeyLaws (mainposition ops t) (rawequal_obj ops) Ok) where
  module _ (t : Table Number) (inv : Hashed ops Ok t) where
    chain : (i : ℕ) → i < sizenode t → ChainEnds t.node (sizenode t) i
    chain i lt =
        let (n, at) = get_elem?_of_lt t.node i (omega (arith, inv.size)) in
        let le : count_used t.node ≤ sizenode t = omega (arith, count_used-le t.node, inv.size) in
        elim (Bool-cases (is_nil n.i_key)) [
          | inl empty ↦
              subst (λ k. ChainEnds t.node k i) (one_more (sizenode t) i lt)
                (unused-chain (sizenode t - 1) i n inv.links at empty)
          | inr used ↦
              let b = inv.links.bound i (record { node = n; at = at; key = used }) in
              chain-ends (sizenode t) i n inv.links at (omega (arith, b, le))
        ]
      where
        one_more : (k i : ℕ) → i < k → suc (k - 1) ≡ k
        one_more k i lt = omega arith

    -- A key that stands in the table is found where it stands.
    pub get_any_hit :
        (k : TValue Number) (i : ℕ) (n : Node Number)
        → Ok k
        → At t.node i n
        → is_nil n.i_key ≡ false
        → rawequal_obj ops n.i_key k ≡ true
        → get_any ops t k ≡ some (node_slot i)
    unfolding get_any
    get_any_hit k i n ok at used e =
        let (s, run, out) =
          find-finds t (λ x. rawequal_obj ops x k) (sizenode t) (mainposition ops t k)
            (chain _ (mainposition_lt ops t k)) in
        run ∙ answer s out
      where
        answer :
            (s : Slot)
            → Outcome t (λ x. rawequal_obj ops x k) (mainposition ops t k) s
            → some s ≡ some (node_slot i)
        answer s (found {k = j} n' at' passes) =
            ap (λ x. some (node_slot x))
              (sym (
                inv.keys.unique i j n n' at at' used
                  ((laws t).transitive _ _ _ e ((laws t).symmetric _ _ passes))))
        answer s (nothing missed) = absurd (
            false-true _
              (Missed-Reach missed
                (subst (λ x. Reach t.node x i)
                  ((laws t).same_main n.i_key k (inv.keys.ok i n at used) ok e)
                  (inv.keys.reach i n at used))
                at)
              e)

    -- Where the search for a key ends.
    pub data Search (k : TValue Number) : Option Slot → Type 0 where
      hit :
          {o : Option Slot} (i : ℕ) (n : Node Number)
          → At t.node i n
          → rawequal_obj ops n.i_key k ≡ true
          → o ≡ some (node_slot i)
          → Search k o
      missing :
          {o : Option Slot}
          → o ≡ some nilobject
          → ((i : ℕ) (n : Node Number) → At t.node i n → rawequal_obj ops n.i_key k ≡ true → ⊥)
          → Search k o

    pub get_any-Search : (k : TValue Number) → Ok k → is_nil k ≡ false → Search k (get_any ops t k)
    get_any-Search k ok used =
        let (s, run, out) =
          find-finds t (λ x. rawequal_obj ops x k) (sizenode t) (mainposition ops t k)
            (chain _ (mainposition_lt ops t k)) in
        answer s (get_any_lem ops t k ∙ run) out
      where
        answer :
            (s : Slot)
            → get_any ops t k ≡ some s
            → Outcome t (λ x. rawequal_obj ops x k) (mainposition ops t k) s
            → Search k (get_any ops t k)
        answer s run (found {k = j} n at passes) = hit j n at passes run
        answer s run (nothing missed) = missing run λ i n at e.
            slot-clash (sym run ∙ get_any_hit k i n ok at ((laws t).not_nil _ _ used e) e)

  module _ (t t' : Table Number) (inv : Hashed ops Ok t) (inv' : Hashed ops Ok t') {place : ℕ → ℕ}
      {c : ℕ} {new : Node Number} (placed : Placed t.node t'.node place c new) where
    -- A new key leaves what the search finds for every other key.
    pub Placed-read :
        (k : TValue Number)
        → Ok k
        → is_nil k ≡ false
        → (rawequal_obj ops new.i_key k ≡ true → ⊥)
        → read t' (get_any ops t' k) ≡ read t (get_any ops t k)
    Placed-read k ok used other =
        compare (get_any-Search t inv k ok used) (get_any-Search t' inv' k ok used)
      where
        lost :
            (i i' : ℕ) (n n' : Node Number)
            → At t.node i n
            → rawequal_obj ops n.i_key k ≡ true
            → rawequal_obj ops n'.i_key k ≡ true
            → ((i' ≡ c) × (n' ≡ new)) ⊎ Kept t.node place i' n'
            → n'.i_val ≡ n.i_val
        lost i i' n n' at e e' (inl (p, q)) =
            absurd (other (subst (λ x. rawequal_obj ops x.i_key k ≡ true) q e'))
        lost i i' n n' at e e' (inr kept) =
            let eq : rawequal_obj ops kept.node.i_key k ≡ true =
              subst (λ x. rawequal_obj ops x k ≡ true) kept.key e' in
            let same : kept.index ≡ i =
              inv.keys.unique kept.index i kept.node n kept.at at ((laws t).not_nil _ _ used eq)
                ((laws t).transitive _ _ _ eq ((laws t).symmetric _ _ e)) in
            kept.val ∙ ap (λ x. x.i_val) (At-same kept.at (ap (get_elem? t.node) same ∙ at))

        unknown :
            (i' : ℕ) (n' : Node Number)
            → ((i : ℕ) (n : Node Number) → At t.node i n → rawequal_obj ops n.i_key k ≡ true → ⊥)
            → rawequal_obj ops n'.i_key k ≡ true
            → ((i' ≡ c) × (n' ≡ new)) ⊎ Kept t.node place i' n'
            → ⊥
        unknown i' n' unseen e' (inl (p, q)) =
            other (subst (λ x. rawequal_obj ops x.i_key k ≡ true) q e')
        unknown i' n' unseen e' (inr kept) =
            unseen kept.index kept.node kept.at
              (subst (λ x. rawequal_obj ops x k ≡ true) kept.key e')

        compare :
            {o o' : Option Slot} → Search t inv k o → Search t' inv' k o' → read t' o' ≡ read t o
        compare (hit i n at e q) (hit i' n' at' e' q') =
            read_hit t' _ i' n' at' q'
            ∙ ap some (lost i i' n n' at e e' (placed.back i' n' at'))
            ∙ sym (read_hit t _ i n at q)
        compare (hit i n at e q) (missing q' unseen) =
            read_miss t' _ q'
            ∙ ap some (gone (Bool-cases (is_nil n.i_val)))
            ∙ sym (read_hit t _ i n at q)
          where
            gone : (is_nil n.i_val ≡ true) ⊎ (is_nil n.i_val ≡ false) → nil ≡ n.i_val
            gone (inl dead) = sym (nil-value n.i_val dead)
            gone (inr live) =
                let (n', at', key, val) = placed.forth i n at live in
                absurd
                  (unseen (place i) n' at' (subst (λ x. rawequal_obj ops x k ≡ true) (sym key) e))
        compare (missing q unseen) (hit i' n' at' e' q') =
            absurd (unknown i' n' unseen e' (placed.back i' n' at'))
        compare (missing q unseen) (missing q' unseen') = read_miss t' _ q' ∙ sym (read_miss t _ q)
