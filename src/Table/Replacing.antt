-- ===== src/Table/Replacing.antt =====
-- The move of a colliding node keeps the keys in order and places the new one.
use soft_renderer_lua.Base.{
  ℕ, ◌≡◌, ◌≢◌, refl, sym, ap, ◌⊎◌, ◌∙◌, subst, arith, Bool, true, false, inl, inr, List, get_elem?,
}
use soft_renderer_lua.Table.{TValue, Node, is_nil}
use soft_renderer_lua.Table.Links.{At, At-same, Reach, here, Links, same-or-not}
use soft_renderer_lua.Table.Changes.{Moved}
use soft_renderer_lua.Table.Move.{Moved-Reach, Moved-Reach_free}
use soft_renderer_lua.Table.Keys.{KeyLaws, Home, Keys, Kept, Placed, Placed-Keys}
use soft_renderer_lua.Table.Placing.{move_to, no_value, no_home}

place_moved : (m f : ℕ) → f ≡ move_to m f m
place_moved m f = ground arith

place_other : (m f i : ℕ) → i ≢ m → i ≡ move_to m f i
place_other m f i q = ground arith

module _ {Number : Type 0} {main : TValue Number → ℕ} {eq : TValue Number → TValue Number → Bool}
    {Ok : TValue Number → Type 0} {nodes nodes' : List (Node Number)} {rank : ℕ → ℕ}
    (laws : KeyLaws main eq Ok) (keys : Keys main eq Ok nodes) (links : Links nodes rank)
    {m f p : ℕ} {old free new before after : Node Number}
    (c : Moved nodes nodes' m f p old free new before after) (empty : is_nil new.i_val ≡ true) where
  back :
      (i : ℕ) (n : Node Number)
      → At nodes' i n
      → ((i ≡ m) × (n ≡ new)) ⊎ Kept nodes (move_to m f) i n
  back i n at = elim (same-or-not i m) [
    | inl q ↦ inl (q, At-same at (ap (get_elem? nodes') q ∙ c.now))
    | inr q ↦ elim (same-or-not i f) [
      | inl r ↦
          let same : n ≡ old = At-same at (ap (get_elem? nodes') r ∙ c.now_free) in
          inr (record {
            index = m;
            node = old;
            at = c.was;
            moved = r ∙ place_moved m f;
            key = ap (λ x. x.i_key) same;
            val = ap (λ x. x.i_val) same;
          })
      | inr r ↦ elim (same-or-not i p) [
        | inl s ↦
            let same : n ≡ after = At-same at (ap (get_elem? nodes') s ∙ c.now_before) in
            inr (record {
              index = i;
              node = before;
              at = ap (get_elem? nodes) s ∙ c.was_before;
              moved = place_other m f i q;
              key = ap (λ x. x.i_key) same ∙ c.same_key;
              val = ap (λ x. x.i_val) same ∙ c.same_val;
            })
        | inr s ↦ inr (record {
          index = i;
          node = n;
          at = sym (c.others i q r s) ∙ at;
          moved = place_other m f i q;
          key = refl;
          val = refl;
        })
      ]
    ]
  ]

  forth :
      (i : ℕ) (n : Node Number)
      → At nodes i n
      → is_nil n.i_val ≡ false
      → (n' : Node Number) × At nodes' (move_to m f i) n'
        × (n'.i_key ≡ n.i_key)
        × (n'.i_val ≡ n.i_val)
  forth i n at live = elim (same-or-not i m) [
    | inl q ↦
        let same : old ≡ n = At-same c.was (ap (get_elem? nodes) (sym q) ∙ at) in
        (
          old,
          ap (get_elem? nodes') (ap (move_to m f) q ∙ sym (place_moved m f)) ∙ c.now_free,
          ap (λ x. x.i_key) same,
          ap (λ x. x.i_val) same,
        )
    | inr q ↦ elim (same-or-not i f) [
      | inl r ↦ absurd (no_value f keys c.was_free c.empty (ap (get_elem? nodes) (sym r) ∙ at) live)
      | inr r ↦ elim (same-or-not i p) [
        | inl s ↦
            let same : before ≡ n = At-same c.was_before (ap (get_elem? nodes) (sym s) ∙ at) in
            (
              after,
              ap (get_elem? nodes') (sym (place_other m f i q) ∙ s) ∙ c.now_before,
              c.same_key ∙ ap (λ x. x.i_key) same,
              c.same_val ∙ ap (λ x. x.i_val) same,
            )
        | inr s ↦ (
          n,
          ap (get_elem? nodes') (sym (place_other m f i q)) ∙ c.others i q r s ∙ at,
          refl,
          refl,
        )
      ]
    ]
  ]

  pub Moved-Placed : Placed nodes nodes' (move_to m f) m new
  Moved-Placed = record { now = c.now; key = c.key; empty = empty; back = back; forth = forth }

  module _ (out : main old.i_key ≢ m) where
    -- No key is at home where the colliding node stands.
    elsewhere : (k : TValue Number) → Home main nodes k → main k ≢ m
    elsewhere k h q =
        out (
          ap (λ x. main x.i_key) (At-same c.was (ap (get_elem? nodes) (sym q) ∙ h.at)) ∙ h.same ∙ q)

    Home-before : (k : TValue Number) → Home main nodes k → Home main nodes' k
    Home-before k h = elim (same-or-not (main k) f) [
      | inl r ↦ absurd (no_home c.was_free c.empty (ap (get_elem? nodes) (sym r) ∙ h.at) h.key)
      | inr r ↦ elim (same-or-not (main k) p) [
        | inl s ↦
            let same : before ≡ h.node =
              At-same c.was_before (ap (get_elem? nodes) (sym s) ∙ h.at) in
            let key : after.i_key ≡ h.node.i_key = c.same_key ∙ ap (λ x. x.i_key) same in
            record {
              node = after;
              at = ap (get_elem? nodes') s ∙ c.now_before;
              key = ap is_nil key ∙ h.key;
              same = ap main key ∙ h.same;
            }
        | inr s ↦ record {
          node = h.node;
          at = c.others (main k) (elsewhere k h) r s ∙ h.at;
          key = h.key;
          same = h.same;
        }
      ]
    ]

    old_reach :
        (i : ℕ) (n : Node Number)
        → At nodes i n
        → is_nil n.i_key ≡ false
        → Reach nodes' (main n.i_key) (move_to m f i)
    old_reach i n at used =
        let away = elsewhere n.i_key (keys.home i n at used) in
        elim (same-or-not i m) [
          | inl q ↦
              subst (Reach nodes' (main n.i_key)) (place_moved m f ∙ ap (move_to m f) (sym q))
                (Moved-Reach_free links c (keys.reach i n at used) q away)
          | inr q ↦
              subst (Reach nodes' (main n.i_key)) (place_other m f i q)
                (Moved-Reach links c (keys.reach i n at used) away q)
        ]

    pub Moved-Keys :
        ((i : ℕ) (n : Node Number) → At nodes i n → eq n.i_key new.i_key ≡ true → ⊥)
        → Ok new.i_key
        → main new.i_key ≡ m
        → Keys main eq Ok nodes'
    Moved-Keys absent ok at_home =
        Placed-Keys laws keys Moved-Placed absent ok
          (
            subst (λ k. Reach nodes' k m) (sym at_home) here,
            record {
              node = new;
              at = ap (get_elem? nodes') at_home ∙ c.now;
              key = c.key;
              same = refl;
            },
          )
          λ i n at used. (old_reach i n at used, Home-before n.i_key (keys.home i n at used))
