-- ===== src/Upvalues/Sharing.antt =====
-- luaF_findupval gives the closures over one variable one upvalue.
use soft_renderer_lua.Base.{
  Listed, first, later, ℕ, bit_xor, ◌<◌, ◌≡◌, refl, sym, ◌∙◌, subst, ◌⊎◌, inl, inr, arith, Bool,
  true, false, ◌==◌, leb, Bool-cases, if◌then◌else◌, List, [], ◌∷◌,
}
use soft_renderer_lua.Strings.{isdead, whitebits}
use soft_renderer_lua.Upvalues.{
  UpVal, State, Collector, revive, find_or_chain, new_upval, findupval,
}
use soft_renderer_lua.Upvalues.Order.{Sorted, nothing, above}

-- An upvalue with the same address and place; the marks may differ.
abbrev pub Same : UpVal → UpVal → Type 0
Same q p = (q.address ≡ p.address) × (q.v ≡ p.v)

revive-Same : (w : ℕ) (p : UpVal) → Same (revive w p) p
unfolding revive
revive-Same w p = of (isdead w p.marked)
  where
    of : (d : Bool) → Same (if d then record p { marked = bit_xor p.marked whitebits } else p) p
    of true = (refl, refl)
    of false = (refl, refl)

-- The list has the upvalue, what was in it before, and nothing else; an upvalue of the same place is shared.
pub record Shared (new : UpVal) (list : List UpVal) (uv : UpVal) (list' : List UpVal) : Type 0 where
  pub place : uv.v ≡ new.v
  pub within : Listed uv list'
  pub sorted : Sorted list'
  pub kept : (p : UpVal) → Listed p list → (q : UpVal) × Listed q list' × Same q p
  pub only : (q : UpVal) → Listed q list' → (q ≡ new) ⊎ ((p : UpVal) × Listed p list × Same q p)
  pub one : (p : UpVal) → Listed p list → p.v ≡ new.v → uv.address ≡ p.address

module _ (w : ℕ) (new : UpVal) where
  -- At the end, or in front of a lower place
  chained :
      (list : List UpVal)
      → Sorted list
      → ((q : UpVal) → Listed q list → q.v < new.v)
      → Shared new list new (new ∷ list)
  chained list sorted lower = record {
    place = refl;
    within = first;
    sorted = above lower sorted;
    kept = λ p m. (p, later m, (refl, refl));
    only = λ q m. of q m;
    one = λ p m e. absurd (omega (arith, lower p m, e));
  }
    where
      of :
          (q : UpVal) → Listed q (new ∷ list) → (q ≡ new) ⊎ ((p : UpVal) × Listed p list × Same q p)
      of q first = inl refl
      of q (later m) = inr (q, m, (refl, refl))

  here :
      (p : UpVal) (list : List UpVal)
      → ((q : UpVal) → Listed q list → q.v < p.v)
      → Sorted list
      → p.v ≡ new.v
      → Shared new (p ∷ list) (revive w p) (revive w p ∷ list)
  here p list lower sorted e =
      let (a, v) = revive-Same w p in
      record {
        place = v ∙ e;
        within = first;
        sorted = above (λ q m. subst (λ x. q.v < x) (sym v) (lower q m)) sorted;
        kept = λ q m. kept q m;
        only = λ q m. inr (only q m);
        one = λ q m f. one q m f;
      }
    where
      kept :
          (q : UpVal) → Listed q (p ∷ list) → (r : UpVal) × Listed r (revive w p ∷ list) × Same r q
      kept q first = (revive w p, first, revive-Same w p)
      kept q (later m) = (q, later m, (refl, refl))

      only :
          (q : UpVal) → Listed q (revive w p ∷ list) → (r : UpVal) × Listed r (p ∷ list) × Same q r
      only q first = (p, first, revive-Same w p)
      only q (later m) = (q, later m, (refl, refl))

      one : (q : UpVal) → Listed q (p ∷ list) → q.v ≡ new.v → (revive w p).address ≡ q.address
      one q first f = (revive-Same w p).0
      one q (later m) f = absurd (omega (arith, lower q m, e, f))

  further :
      (p : UpVal) (list list' : List UpVal) (uv : UpVal)
      → ((q : UpVal) → Listed q list → q.v < p.v)
      → new.v < p.v
      → Shared new list uv list'
      → Shared new (p ∷ list) uv (p ∷ list')
  further p list list' uv lower lt r = record {
    place = r.place;
    within = later r.within;
    sorted = above (λ q m. below q (r.only q m)) r.sorted;
    kept = λ q m. kept q m;
    only = λ q m. only q m;
    one = λ q m e. one q m e;
  }
    where
      below : (q : UpVal) → (q ≡ new) ⊎ ((x : UpVal) × Listed x list × Same q x) → q.v < p.v
      below q (inl e) = subst (λ x. x.v < p.v) (sym e) lt
      below q (inr (x, m, s)) = subst (λ y. y < p.v) (sym s.1) (lower x m)

      kept : (q : UpVal) → Listed q (p ∷ list) → (x : UpVal) × Listed x (p ∷ list') × Same x q
      kept q first = (q, first, (refl, refl))
      kept q (later m) = let (x, m', s) = r.kept q m in (x, later m', s)

      only :
          (q : UpVal)
          → Listed q (p ∷ list')
          → (q ≡ new) ⊎ ((x : UpVal) × Listed x (p ∷ list) × Same q x)
      only q first = inr (q, first, (refl, refl))
      only q (later m) = elim (r.only q m) [ inl e ↦ inl e | inr (x, m', s) ↦ inr (x, later m', s) ]

      one : (q : UpVal) → Listed q (p ∷ list) → q.v ≡ new.v → uv.address ≡ q.address
      one q first e = absurd (omega (arith, lt, e))
      one q (later m) e = r.one q m e

  abbrev pub Chain : List UpVal → UpVal × Bool × List UpVal → Type 0
  Chain list r = Shared new list r.0 r.2

  chain_end : find_or_chain w new [] ≡ (new, true, new ∷ [])
  unfolding find_or_chain
  chain_end = refl

  chain_step :
      (p : UpVal) (list : List UpVal)
      → find_or_chain w new (p ∷ list) ≡ (
          if leb new.v p.v
          then (if p.v == new.v then (revive w p, false, revive w p ∷ list) else (
            (find_or_chain w new list).0,
            (find_or_chain w new list).1,
            p ∷ (find_or_chain w new list).2,
          ))
          else (new, true, new ∷ p ∷ list))
  unfolding find_or_chain
  chain_step p list = refl

  pub find_or_chain-Shared :
      (list : List UpVal) → Sorted list → Chain list (find_or_chain w new list)
  find_or_chain-Shared [] nothing =
      subst (Chain []) (sym chain_end) (chained [] nothing (λ q m. elim m [ ]))
  find_or_chain-Shared (p ∷ list) (above lower sorted) =
      subst (Chain (p ∷ list)) (sym (chain_step p list)) (elim (Bool-cases (leb new.v p.v)) [
        | inl e ↦ elim (Bool-cases (p.v == new.v)) [
          | inl e' ↦ rw (e, e') (here p list lower sorted (equal p.v new.v e'))
          | inr e' ↦
              rw (e, e')
                (further p list _ _ lower (less p.v new.v e e') (find_or_chain-Shared list sorted))
        ]
        | inr e ↦
            rw e
              (chained (p ∷ list) (above lower sorted) (λ q m. lower_all q m (below p.v new.v e)))
      ])
    where
      equal : (a b : ℕ) → (a == b) ≡ true → a ≡ b
      equal a b h = ground arith

      less : (a b : ℕ) → leb b a ≡ true → (a == b) ≡ false → b < a
      less a b h k = ground arith

      below : (a b : ℕ) → leb b a ≡ false → a < b
      below a b h = ground arith

      lower_all : (q : UpVal) → Listed q (p ∷ list) → p.v < new.v → q.v < new.v
      lower_all q first lt = lt
      lower_all q (later m) lt = omega (arith, lower q m, lt)

module _ {Value : Type 0} where
  -- luaF_findupval answers an open upvalue of the place: the one that the list has, if it has one, and the list keeps its
  -- order and every upvalue, and has no other new one. The stack and the closed upvalues stay as they are.
  pub findupval-Shared :
      (g : Collector) (address : ℕ) (s : State Value) (level : ℕ)
      → Sorted s.openupval
      → Shared
          (new_upval g address level)
          s.openupval
          (findupval g address s level).0
          (findupval g address s level).1.openupval
        × ((findupval g address s level).1.stack ≡ s.stack)
        × ((findupval g address s level).1.closed ≡ s.closed)
  unfolding findupval
  findupval-Shared g address s level sorted = (
    find_or_chain-Shared g.currentwhite (new_upval g address level) s.openupval sorted,
    refl,
    refl,
  )
