-- ===== src/Table/Newkey.antt =====
-- newkey with a free place in the node vector: the key comes into the table, and the rest is as it was.
use soft_renderer_lua.Base.{
  ℕ, ◌≡◌, ◌≢◌, refl, sym, ap, ◌∙◌, subst, arith, Bool, true, false, not, ◌||◌, ◌==◌, Bool-cases,
  inl, inr, Option, none, some, length, get_elem?, get_elem?_of_lt, set, length-set,
}
use soft_renderer_lua.Table.{
  NumberOps, TValue, nil, Node, Table, Slot, nilobject, node_slot, is_nil, rawequal_obj,
  mainposition, get_any,
}
use soft_renderer_lua.Table.Chains.{mainposition_lt}
use soft_renderer_lua.Table.Insert.{free_from, set_lastfree, set_nodes, put_key, newkey_at, newkey}
use soft_renderer_lua.Table.Links.{At, Edge, same-or-not, count_used-le}
use soft_renderer_lua.Table.Changes.{Overwritten-Links, free-source}
use soft_renderer_lua.Table.Splice.{Spliced-Links}
use soft_renderer_lua.Table.Move.{Moved-Links}
use soft_renderer_lua.Table.Keys.{KeyLaws}
use soft_renderer_lua.Table.Placing.{
  Overwritten-Placed, Overwritten-Keys, Spliced-Placed, Spliced-Keys, no_home,
}
use soft_renderer_lua.Table.Replacing.{Moved-Placed, Moved-Keys}
use soft_renderer_lua.Table.Steps.{
  Free, free_from-Free, find_previous-finds, put_key_lem, count-new, count-put,
}
use soft_renderer_lua.Table.Linking.{
  put-Overwritten, linked_nodes, linked_f, link_node_lem, link-Spliced, moved_nodes, moved_m,
  move_node_lem, move-Moved,
}
use soft_renderer_lua.Table.Lookup.{Hashed, get_any-Search, Search, hit, missing}
use soft_renderer_lua.Table.Inserted.{same_main, Inserted, inserted, false-true}

module _ {Number : Type 0} (ops : NumberOps Number) (Ok : TValue Number → Type 0)
    (laws : (t : Table Number) → KeyLaws (mainposition ops t) (rawequal_obj ops) Ok)
    (t : Table Number) (inv : Hashed ops Ok t) (key : TValue Number) (ok : Ok key)
    (used : is_nil key ≡ false) (self : rawequal_obj ops key key ≡ true) where
  module _ (absent : get_any ops t key ≡ some nilobject) where
    nowhere : (i : ℕ) (n : Node Number) → At t.node i n → rawequal_obj ops n.i_key key ≡ true → ⊥
    nowhere i n at e = of (get_any-Search ops Ok laws t inv key ok used)
      where
        clash : {j : ℕ} → ◌≡◌ {A = Option Slot} (some nilobject) (some (node_slot j)) → ⊥
        clash h = cc

        of : Search ops Ok laws t inv key (get_any ops t key) → ⊥
        of (hit j n' at' e' run) = clash (sym absent ∙ run)
        of (missing run unseen) = unseen i n at e

    -- newkey writes the key to its main position, which has no value.
    put :
        (grow : Table Number → TValue Number → Option (Slot × Table Number)) (m : Node Number)
        → At t.node (mainposition ops t key) m
        → (not (is_nil m.i_val) || t.node_is_dummy) ≡ false
        → newkey ops grow t key ≡ put_key t t.node (mainposition ops t key) key
    unfolding newkey
    put grow m at e = rw (at, e) refl

    -- newkey has a free node `f` and a main position that is in use.
    collide :
        (grow : Table Number → TValue Number → Option (Slot × Table Number)) (m : Node Number)
        (f : ℕ)
        → At t.node (mainposition ops t key) m
        → (not (is_nil m.i_val) || t.node_is_dummy) ≡ true
        → free_from t.node t.lastfree ≡ some f
        → newkey ops grow t key
          ≡ newkey_at ops (set_lastfree t f) key (mainposition ops t key) m.i_key f
    unfolding newkey
    collide grow m f at e room = rw (at, e, room) refl

    abbrev Result : Option (Slot × Table Number) → Type 0
    Result o =
        (i : ℕ) × (t' : Table Number) × (o ≡ some (node_slot i, t')) × Inserted ops Ok t key i t'

    put-Result :
        (m : Node Number)
        → At t.node (mainposition ops t key) m
        → is_nil m.i_val ≡ true
        → t.node_is_dummy ≡ false
        → Result (put_key t t.node (mainposition ops t key) key)
    put-Result m at dead real =
        let p = mainposition ops t key in
        let c = put-Overwritten t.node p m key at used in
        (
          p,
          set_nodes t (set t.node p (record m { i_key = key })),
          put_key_lem t t.node p key m at,
          inserted ops Ok laws t inv key ok used self t.lastfree
              (set t.node p (record m { i_key = key })) refl (length-set t.node p _) inv.lastfree
              real
              (Overwritten-Links inv.links c (count-put t.node p m _ at used)
                (λ free. omega (arith, count-new t.node p m _ at free used)))
              (Overwritten-Keys (laws t) inv.keys inv.links c dead dead nowhere ok refl)
              (Overwritten-Placed (laws t) inv.keys inv.links c dead dead),
        )

    link-Result :
        (m : Node Number) (f : ℕ)
        → At t.node (mainposition ops t key) m
        → is_nil m.i_key ≡ false
        → t.node_is_dummy ≡ false
        → Free t.node t.lastfree f
        → mainposition ops t m.i_key ≡ mainposition ops t key
        → Result (newkey_at ops (set_lastfree t f) key (mainposition ops t key) m.i_key f)
    unfolding newkey_at
    link-Result m f at used_m real free home =
        let p = mainposition ops t key in
        let ne : p ≢ f =
          λ e. no_home free.at free.empty (ap (get_elem? t.node) (sym e) ∙ at) used_m in
        let c = link-Spliced t.node p f m free.node key ne at free.at used_m free.empty used in
        let linked = linked_nodes t.node p f m free.node key ne at free.at used_m free.empty used in
        let dead : is_nil free.node.i_val ≡ true = inv.keys.fresh f free.node free.at free.empty in
        let test : (mainposition ops (set_lastfree t f) m.i_key == p) ≡ true =
          same-test _ _ (same_main ops t f t.node m.i_key ∙ home) in
        (
          f,
          set_nodes (set_lastfree t f)
              (set linked f (record free.node { next = m.next; i_key = key })),
          rw (test, link_node_lem t.node p f m free.node key ne at free.at used_m free.empty used)
              (put_key_lem (set_lastfree t f) linked f key (record free.node { next = m.next })
                (linked_f t.node p f m free.node key ne at free.at used_m free.empty used)),
          inserted ops Ok laws t inv key ok used self f _ refl
              (length-set linked f _ ∙ length-set (set t.node f _) p _ ∙ length-set t.node f _)
              (omega (arith, free.before, inv.lastfree)) real (Spliced-Links inv.links c)
              (Spliced-Keys (laws t) inv.keys inv.links c dead nowhere ok refl home)
              (Spliced-Placed (laws t) inv.keys inv.links c dead),
        )
      where
        same-test : (a b : ℕ) → a ≡ b → (a == b) ≡ true
        same-test a b e = ground arith

    move-Result :
        (m : Node Number) (f : ℕ)
        → At t.node (mainposition ops t key) m
        → is_nil m.i_key ≡ false
        → t.node_is_dummy ≡ false
        → Free t.node t.lastfree f
        → mainposition ops t m.i_key ≢ mainposition ops t key
        → Result (newkey_at ops (set_lastfree t f) key (mainposition ops t key) m.i_key f)
    unfolding newkey_at
    move-Result m f at used_m real free out =
        let q = mainposition ops t key in
        let o = mainposition ops t m.i_key in
        let home = inv.keys.home q m at used_m in
        let bound = inv.links.bound o (record { node = home.node; at = home.at; key = home.key }) in
        let (p, run, edge) =
          find_previous-finds (length t.node) inv.links (inv.keys.reach q m at used_m) refl out
            (omega (arith, bound, count_used-le t.node)) in
        let ne : q ≢ f =
          λ e. no_home free.at free.empty (ap (get_elem? t.node) (sym e) ∙ at) used_m in
        let p_m : p ≢ q = λ e. omega (arith, inv.links.descends p q edge, ap inv.rank e) in
        let p_f : p ≢ f =
          λ e. free-source inv.links free.at free.empty (subst (λ k. Edge t.node k q) e edge) in
        let c =
          move-Moved t.node q f m free.node key ne at free.at used_m free.empty used o p edge.from
            edge.at edge.next p_m p_f run in
        let moved =
          moved_nodes t.node q f m free.node key ne at free.at used_m free.empty used o p edge.from
            edge.at edge.next p_m p_f run in
        let e : mainposition ops (set_lastfree t f) m.i_key ≡ o =
          same_main ops t f t.node m.i_key in
        let test : (o == q) ≡ false = other-test o q out in
        (
          q,
          set_nodes (set_lastfree t f)
              (set moved q (record m { next = none; i_val = nil; i_key = key })),
          rw
              (
                e,
                test,
                move_node_lem t.node q f m free.node key ne at free.at used_m free.empty used o p
                    edge.from edge.at edge.next p_m p_f run,
              )
              (put_key_lem (set_lastfree t f) moved q key (record m { next = none; i_val = nil })
                (moved_m t.node q f m free.node key ne at free.at used_m free.empty used o p
                  edge.from edge.at edge.next p_m p_f run)),
          inserted ops Ok laws t inv key ok used self f _ refl
              (length-set moved q _
                ∙ length-set (set (set t.node p _) f _) q _
                ∙ length-set (set t.node p _) f _
                ∙ length-set t.node p _)
              (omega (arith, free.before, inv.lastfree)) real (Moved-Links inv.links c)
              (Moved-Keys (laws t) inv.keys inv.links c refl out nowhere ok refl)
              (Moved-Placed (laws t) inv.keys inv.links c refl),
        )
      where
        other-test : (a b : ℕ) → a ≢ b → (a == b) ≡ false
        other-test a b e = ground arith

    -- In a table whose hash part is in order and has a free place, newkey of a key that is not in it, not nil and
    -- equal to itself puts the key in: its place is what the search now finds, it has no value yet, the hash part
    -- is in order, and every key that is not equal to the new one has the value that it had. `laws` says that
    -- raw equality is symmetric and transitive and that equal keys have one main position.
    pub newkey-Inserted :
        (grow : Table Number → TValue Number → Option (Slot × Table Number)) (f : ℕ)
        → free_from t.node t.lastfree ≡ some f
        → (i : ℕ) × (t' : Table Number) × (newkey ops grow t key ≡ some (node_slot i, t'))
          × Inserted ops Ok t key i t'
    newkey-Inserted grow f room =
        let q = mainposition ops t key in
        let (m, at) =
          get_elem?_of_lt t.node q (omega (arith, mainposition_lt ops t key, inv.size)) in
        elim (Bool-cases (not (is_nil m.i_val) || t.node_is_dummy)) [
          | inl e ↦
              let live = busy m.i_val t.node_is_dummy e real in
              let used_m = has_key q m at live in
              elim (same-or-not (mainposition ops t m.i_key) q) [
                | inl home ↦
                    along (collide grow m f at e room) (link-Result m f at used_m real free home)
                | inr out ↦
                    along (collide grow m f at e room) (move-Result m f at used_m real free out)
              ]
          | inr e ↦
              along (put grow m at e) (put-Result m at (vacant m.i_val t.node_is_dummy e) real)
        ]
      where
        free : Free t.node t.lastfree f
        free = free_from-Free t.node t.lastfree f room

        real : t.node_is_dummy ≡ false
        real = not_dummy t.node_is_dummy (λ d. omega (arith, inv.dummy d, free.before))
          where
            not_dummy : (b : Bool) → (b ≡ true → ⊥) → b ≡ false
            not_dummy true h = absurd (h refl)
            not_dummy false h = refl

        busy :
            (v : TValue Number) (d : Bool)
            → (not (is_nil v) || d) ≡ true
            → d ≡ false
            → is_nil v ≡ false
        busy v d e r = ground arith

        vacant : (v : TValue Number) (d : Bool) → (not (is_nil v) || d) ≡ false → is_nil v ≡ true
        vacant v d e = ground arith

        has_key :
            (i : ℕ) (n : Node Number)
            → At t.node i n
            → is_nil n.i_val ≡ false
            → is_nil n.i_key ≡ false
        has_key i n at live = elim (Bool-cases (is_nil n.i_key)) [
          | inl empty ↦ absurd (false-true _ live (inv.keys.fresh i n at empty))
          | inr used ↦ used
        ]

        along : {o o' : Option (Slot × Table Number)} → o ≡ o' → Result o' → Result o
        along e (i, t', run, rest) = (i, t', e ∙ run, rest)
