-- ===== src/Upvalues/Closing.antt =====
-- luaF_close: the upvalues from a place of the stack on keep their values as they leave it.
use soft_renderer_lua.Base.{
  Listed, first, later, ℕ, ◌≤◌, ◌<◌, ◌≡◌, refl, sym, ap, ◌∙◌, subst, inl, inr, arith, Bool, true,
  false, leb, Bool-cases, some, List, [], ◌∷◌, get_elem?, get_elem?_of_lt, length,
}
use soft_renderer_lua.Strings.{isdead}
use soft_renderer_lua.Upvalues.{
  UpVal, Closed, State, Collector, unlinkupval, linked_marks, close_upval, close_list, close,
}
use soft_renderer_lua.Upvalues.Order.{Sorted, nothing, above}

false-true : (b : Bool) → b ≡ false → b ≡ true → ⊥
false-true b e e' = cc

lower_all :
    (level : ℕ) (uv : UpVal) (list : List UpVal)
    → ((q : UpVal) → Listed q list → q.v < uv.v)
    → leb level uv.v ≡ false
    → (q : UpVal) → Listed q (uv ∷ list)
    → q.v < level
lower_all level uv list lower e q first = ground arith
lower_all level uv list lower e q (later m) = ground (arith, lower q m)

module _ {Value : Type 0} (g : Collector) (level : ℕ) where
  -- Of the upvalues in the list the ones below the level are still open, and the living others are closed with the value
  -- that their place in the stack has.
  pub record Closing (list : List UpVal) (s s' : State Value) : Type 0 where
    pub stack : s'.stack ≡ s.stack
    pub below : (p : UpVal) → Listed p s'.openupval → Listed p list × (p.v < level)
    pub kept : (p : UpVal) → Listed p list → p.v < level → Listed p s'.openupval
    pub sorted : Sorted s'.openupval
    pub value :
        (p : UpVal)
        → Listed p list
        → level ≤ p.v
        → isdead g.currentwhite p.marked ≡ false
        → (c : Closed Value) × Listed c s'.closed
          × (c.address ≡ p.address)
          × (get_elem? s.stack p.v ≡ some c.value)
    pub before : (c : Closed Value) → Listed c s.closed → Listed c s'.closed

  -- A round of the loop
  record Left (uv : UpVal) (s s' : State Value) : Type 0 where
    stack : s'.stack ≡ s.stack
    value :
        isdead g.currentwhite uv.marked ≡ false
        → (c : Closed Value) × Listed c s'.closed
          × (c.address ≡ uv.address)
          × (get_elem? s.stack uv.v ≡ some c.value)
    before : (c : Closed Value) → Listed c s.closed → Listed c s'.closed

  close_upval-Left :
      (uv : UpVal) (s : State Value)
      → uv.v < length s.stack
      → (s' : State Value) × (close_upval g uv s ≡ some s') × Left uv s s'
  unfolding close_upval
  close_upval-Left uv s lt = elim (Bool-cases (isdead g.currentwhite uv.marked)) [
    | inl dead ↦ (
      record s { uvhead = unlinkupval uv.address s.uvhead },
      rw dead refl,
      record { stack = refl; value = λ alive. absurd (false-true _ alive dead); before = λ c m. m },
    )
    | inr alive ↦
        let (x, at) = get_elem?_of_lt s.stack uv.v lt in
        let c : Closed Value = record {
          address = uv.address;
          marked = linked_marks g uv.marked;
          value = x;
        } in
        (
          record s { uvhead = unlinkupval uv.address s.uvhead; closed = c ∷ s.closed },
          rw (alive, at) refl,
          record { stack = refl; value = λ a. (c, first, refl, at); before = λ d m. later m },
        )
  ]

  close_list-end : (s : State Value) → close_list g level [] s ≡ some (record s { openupval = [] })
  unfolding close_list
  close_list-end s = refl

  close_list-stop :
      (uv : UpVal) (list : List UpVal) (s : State Value)
      → leb level uv.v ≡ false
      → close_list g level (uv ∷ list) s ≡ some (record s { openupval = uv ∷ list })
  unfolding close_list
  close_list-stop uv list s e = rw (close_list, e) refl

  close_list-next :
      (uv : UpVal) (list : List UpVal) (s s' : State Value)
      → leb level uv.v ≡ true
      → close_upval g uv s ≡ some s'
      → close_list g level (uv ∷ list) s ≡ close_list g level list s'
  unfolding close_list
  close_list-next uv list s s' e run = rw (close_list, e, run) refl

  one_more :
      (uv : UpVal) (list : List UpVal) (s s1 s' : State Value)
      → leb level uv.v ≡ true
      → Left uv s s1
      → Closing list s1 s'
      → Closing (uv ∷ list) s s'
  one_more uv list s s1 s' e l r = record {
    stack = r.stack ∙ l.stack;
    below = λ p m. (later (r.below p m).0, (r.below p m).1);
    kept = λ p m lt. kept p m lt;
    sorted = r.sorted;
    value = λ p m le alive. value p m le alive;
    before = λ c m. r.before c (l.before c m);
  }
    where
      kept : (p : UpVal) → Listed p (uv ∷ list) → p.v < level → Listed p s'.openupval
      kept p first lt = absurd (ground arith)
      kept p (later m) lt = r.kept p m lt

      value :
          (p : UpVal)
          → Listed p (uv ∷ list)
          → level ≤ p.v
          → isdead g.currentwhite p.marked ≡ false
          → (c : Closed Value) × Listed c s'.closed
            × (c.address ≡ p.address)
            × (get_elem? s.stack p.v ≡ some c.value)
      value p first le alive = let (c, m, same, at) = l.value alive in (c, r.before c m, same, at)
      value p (later m) le alive =
          let (c, m', same, at) = r.value p m le alive in
          (c, m', same, ap (λ x. get_elem? x p.v) (sym l.stack) ∙ at)

  close_list-Closing :
      (list : List UpVal) (s : State Value)
      → Sorted list
      → ((p : UpVal) → Listed p list → p.v < length s.stack)
      → (s' : State Value) × (close_list g level list s ≡ some s') × Closing list s s'
  close_list-Closing [] s nothing inside = (
    record s { openupval = [] },
    close_list-end s,
    record {
      stack = refl;
      below = λ p m. elim m [ ];
      kept = λ p m lt. elim m [ ];
      sorted = nothing;
      value = λ p m le alive. elim m [ ];
      before = λ c m. m;
    },
  )
  close_list-Closing (uv ∷ list) s (above lower sorted) inside =
      elim (Bool-cases (leb level uv.v)) [
        | inl e ↦
            let (s1, run, l) = close_upval-Left uv s (inside uv first) in
            let (s', run', r) =
              close_list-Closing list s1 sorted
                (λ p m. subst (λ x. p.v < length x) (sym l.stack) (inside p (later m))) in
            (s', close_list-next uv list s s1 e run ∙ run', one_more uv list s s1 s' e l r)
        | inr e ↦ (
          record s { openupval = uv ∷ list },
          close_list-stop uv list s e,
          record {
            stack = refl;
            below = λ p m. (m, lower_all level uv list lower e p m);
            kept = λ p m lt. m;
            sorted = above lower sorted;
            value = λ p m le alive. absurd (omega (arith, lower_all level uv list lower e p m, le));
            before = λ c m. m;
          },
        )
      ]

  close_lem : (s : State Value) → close g s level ≡ close_list g level s.openupval s
  unfolding close
  close_lem s = refl

  -- luaF_close ends, for open upvalues in their order and in the stack: exactly the ones below the level stay open, in
  -- order, each living other one is closed with the value of its place, and none that was closed is lost.
  pub close-Closing :
      (s : State Value)
      → Sorted s.openupval
      → ((p : UpVal) → Listed p s.openupval → p.v < length s.stack)
      → (s' : State Value) × (close g s level ≡ some s') × Closing s.openupval s s'
  close-Closing s sorted inside =
      let (s', run, r) = close_list-Closing s.openupval s sorted inside in
      (s', close_lem s ∙ run, r)
