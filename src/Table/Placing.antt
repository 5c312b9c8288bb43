-- ===== src/Table/Placing.antt =====
-- Each of the three changes of newkey keeps the keys in order and places the new one.
use soft_renderer_lua.Base.{
  ℕ, ◌≡◌, refl, sym, ap, ◌∙◌, subst, Bool, true, false, ◌==◌, if◌then◌else◌, inl, inr, Option, some,
  List, get_elem?,
}
use soft_renderer_lua.Table.{TValue, Node, is_nil}
use soft_renderer_lua.Table.Links.{At, At-same, Reach, here, Links, same-or-not}
use soft_renderer_lua.Table.Changes.{Overwritten, Spliced, Overwritten-Reach}
use soft_renderer_lua.Table.Splice.{Spliced-Reach, Spliced-Reach_new}
use soft_renderer_lua.Table.Keys.{KeyLaws, Home, Keys, Placed, Placed-Keys}

abbrev pub stay : ℕ → ℕ
stay i = i

abbrev pub move_to : ℕ → ℕ → ℕ → ℕ
move_to m f i = if i == m then f else i

nil-clash : (b : Bool) → b ≡ true → b ≡ false → ⊥
nil-clash b e e' = cc

-- A node whose key is nil has no value, and is nobody's home.
pub no_value :
    {Number : Type 0} {main : TValue Number → ℕ} {eq : TValue Number → TValue Number → Bool}
    {Ok : TValue Number → Type 0} {nodes : List (Node Number)} (f : ℕ) {n n' : Node Number}
    → Keys main eq Ok nodes
    → At nodes f n
    → is_nil n.i_key ≡ true
    → At nodes f n'
    → is_nil n'.i_val ≡ false
    → ⊥
no_value f {n} keys at empty at' live =
    nil-clash _ (keys.fresh f n at empty)
      (subst (λ x. is_nil x.i_val ≡ false) (At-same at' at) live)

pub no_home :
    {Number : Type 0} {o : Option (Node Number)} {n n' : Node Number}
    → o ≡ some n
    → is_nil n.i_key ≡ true
    → o ≡ some n'
    → is_nil n'.i_key ≡ false
    → ⊥
no_home at empty at' used =
    nil-clash _ empty (subst (λ x. is_nil x.i_key ≡ false) (At-same at' at) used)

module _ {Number : Type 0} {main : TValue Number → ℕ} {eq : TValue Number → TValue Number → Bool}
    {Ok : TValue Number → Type 0} {nodes nodes' : List (Node Number)} {rank : ℕ → ℕ}
    (laws : KeyLaws main eq Ok) (keys : Keys main eq Ok nodes) (links : Links nodes rank) where
  module _ {m : ℕ} {old new : Node Number} (c : Overwritten nodes nodes' m old new)
      (dead : is_nil old.i_val ≡ true) (empty : is_nil new.i_val ≡ true) where
    pub Overwritten-Placed : Placed nodes nodes' stay m new
    Overwritten-Placed = record {
      now = c.now;
      key = c.key;
      empty = empty;
      back = λ i n at. elim (same-or-not i m) [
        | inl q ↦ inl (q, At-same at (ap (get_elem? nodes') q ∙ c.now))
        | inr q ↦ inr (record {
          index = i;
          node = n;
          at = sym (c.others i q) ∙ at;
          moved = refl;
          key = refl;
          val = refl;
        })
      ];
      forth = λ i n at live. elim (same-or-not i m) [
        | inl q ↦ absurd (
            nil-clash _ dead (
              subst (λ x. is_nil x.i_val ≡ false) (At-same at (ap (get_elem? nodes) q ∙ c.was))
                live))
        | inr q ↦ (n, c.others i q ∙ at, refl, refl)
      ];
    }

    pub Overwritten-Keys :
        ((i : ℕ) (n : Node Number) → At nodes i n → eq n.i_key new.i_key ≡ true → ⊥)
        → Ok new.i_key
        → main new.i_key ≡ m
        → Keys main eq Ok nodes'
    Overwritten-Keys absent ok at_home =
        Placed-Keys laws keys Overwritten-Placed absent ok
          (subst (λ k. Reach nodes' k m) (sym at_home) here, new_home new.i_key at_home)
          λ i n at used. (
            Overwritten-Reach links c (keys.reach i n at used),
            old_home n.i_key (keys.home i n at used),
          )
      where
        new_home : (k : TValue Number) → main k ≡ m → Home main nodes' k
        new_home k e = record {
          node = new;
          at = ap (get_elem? nodes') e ∙ c.now;
          key = c.key;
          same = at_home ∙ sym e;
        }

        old_home : (k : TValue Number) → Home main nodes k → Home main nodes' k
        old_home k h = elim (same-or-not (main k) m) [
          | inl q ↦ new_home k q
          | inr q ↦ record {
            node = h.node;
            at = c.others (main k) q ∙ h.at;
            key = h.key;
            same = h.same;
          }
        ]

  module _ {m f : ℕ} {old linked free new : Node Number}
      (c : Spliced nodes nodes' m f old linked free new) (empty : is_nil new.i_val ≡ true) where
    pub Spliced-Placed : Placed nodes nodes' stay f new
    Spliced-Placed = record {
      now = c.now_free;
      key = c.key;
      empty = empty;
      back = λ i n at. elim (same-or-not i f) [
        | inl q ↦ inl (q, At-same at (ap (get_elem? nodes') q ∙ c.now_free))
        | inr q ↦ elim (same-or-not i m) [
          | inl r ↦
              let same : n ≡ linked = At-same at (ap (get_elem? nodes') r ∙ c.now) in
              inr (record {
                index = i;
                node = old;
                at = ap (get_elem? nodes) r ∙ c.was;
                moved = refl;
                key = ap (λ x. x.i_key) same ∙ c.same_key;
                val = ap (λ x. x.i_val) same ∙ c.same_val;
              })
          | inr r ↦ inr (record {
            index = i;
            node = n;
            at = sym (c.others i r q) ∙ at;
            moved = refl;
            key = refl;
            val = refl;
          })
        ]
      ];
      forth = λ i n at live. elim (same-or-not i f) [
        | inl q ↦
            absurd (no_value f keys c.was_free c.empty (ap (get_elem? nodes) (sym q) ∙ at) live)
        | inr q ↦ elim (same-or-not i m) [
          | inl r ↦
              let same : old ≡ n = At-same c.was (ap (get_elem? nodes) (sym r) ∙ at) in
              (
                linked,
                ap (get_elem? nodes') r ∙ c.now,
                c.same_key ∙ ap (λ x. x.i_key) same,
                c.same_val ∙ ap (λ x. x.i_val) same,
              )
          | inr r ↦ (n, c.others i r q ∙ at, refl, refl)
        ]
      ];
    }

    pub Spliced-Keys :
        ((i : ℕ) (n : Node Number) → At nodes i n → eq n.i_key new.i_key ≡ true → ⊥)
        → Ok new.i_key
        → main new.i_key ≡ m
        → main old.i_key ≡ m
        → Keys main eq Ok nodes'
    Spliced-Keys absent ok at_home old_at_home =
        Placed-Keys laws keys Spliced-Placed absent ok
          (
            subst (λ k. Reach nodes' k f) (sym at_home) (Spliced-Reach_new links c),
            head_home new.i_key at_home,
          )
          λ i n at used. (
            Spliced-Reach links c (keys.reach i n at used),
            old_home n.i_key (keys.home i n at used),
          )
      where
        head_home : (k : TValue Number) → main k ≡ m → Home main nodes' k
        head_home k e = record {
          node = linked;
          at = ap (get_elem? nodes') e ∙ c.now;
          key = ap is_nil c.same_key ∙ c.used;
          same = ap main c.same_key ∙ old_at_home ∙ sym e;
        }

        old_home : (k : TValue Number) → Home main nodes k → Home main nodes' k
        old_home k h = elim (same-or-not (main k) m) [
          | inl q ↦ head_home k q
          | inr q ↦ elim (same-or-not (main k) f) [
            | inl r ↦
                absurd (no_home c.was_free c.empty (ap (get_elem? nodes) (sym r) ∙ h.at) h.key)
            | inr r ↦ record {
              node = h.node;
              at = c.others (main k) q r ∙ h.at;
              key = h.key;
              same = h.same;
            }
          ]
        ]
