-- ===== src/Table/Linking.antt =====
-- link_node and move_node run, and with the key in place they make the changes that Changes is about.
use soft_renderer_lua.Base.{
  ℕ, suc, ◌≡◌, ◌≢◌, refl, sym, ap, ◌∙◌, true, false, some, none, List, length, set,
}
use soft_renderer_lua.Table.{TValue, nil, Node, is_nil}
use soft_renderer_lua.Table.Insert.{find_previous, move_node, link_node}
use soft_renderer_lua.Table.Links.{At}
use soft_renderer_lua.Table.Changes.{Overwritten, Spliced, Moved}
use soft_renderer_lua.Table.Steps.{written, kept, count-same, count-new, set_next_lem}

module _ {Number : Type 0} where
  pub put-Overwritten :
      (nodes : List (Node Number)) (m : ℕ) (old : Node Number) (key : TValue Number)
      → At nodes m old
      → is_nil key ≡ false
      → Overwritten nodes
          (set nodes m (record old { i_key = key }))
          m
          old
          (record old { i_key = key })
  put-Overwritten nodes m old key at used = record {
    was = at;
    now = written nodes m old _ at;
    next = refl;
    key = used;
    others = λ i q. kept nodes m i _ q;
  }

module _ {Number : Type 0} (nodes : List (Node Number)) (m f : ℕ) (old free : Node Number)
    (key : TValue Number) (ne : m ≢ f) (at_m : At nodes m old) (at_f : At nodes f free)
    (used_m : is_nil old.i_key ≡ false) (empty : is_nil free.i_key ≡ true)
    (used : is_nil key ≡ false) where
  abbrev pub linked_nodes : List (Node Number)
  linked_nodes =
      set (set nodes f (record free { next = old.next })) m (record old { next = some f })

  abbrev pub spliced_nodes : List (Node Number)
  spliced_nodes = set linked_nodes f (record free { next = old.next; i_key = key })

  chain_m : At (set nodes f (record free { next = old.next })) m old
  chain_m = kept nodes f m _ ne ∙ at_m

  pub linked_f : At linked_nodes f (record free { next = old.next })
  linked_f = kept (set nodes f _) m f _ (λ e. ne (sym e)) ∙ written nodes f free _ at_f

  pub link_node_lem : link_node nodes m f ≡ some linked_nodes
  unfolding link_node
  link_node_lem =
      rw (at_m, set_next_lem nodes f old.next free at_f)
        (set_next_lem (set nodes f _) m (some f) old chain_m)

  pub link-Spliced :
      Spliced nodes spliced_nodes m f old
        (record old { next = some f })
        free
        (record free { next = old.next; i_key = key })
  link-Spliced = record {
    distinct = ne;
    was = at_m;
    was_free = at_f;
    used = used_m;
    empty = empty;
    now = kept linked_nodes f m _ ne ∙ written (set nodes f _) m old _ chain_m;
    now_free = written linked_nodes f _ _ linked_f;
    key = used;
    same_key = refl;
    same_val = refl;
    next = refl;
    next_free = refl;
    count =
        count-new linked_nodes f _ _ linked_f empty used
        ∙ ap suc
            (count-same (set nodes f _) m old _ chain_m refl ∙ count-same nodes f free _ at_f refl);
    others = λ i q r. kept linked_nodes f i _ r ∙ kept (set nodes f _) m i _ q ∙ kept nodes f i _ r;
  }

  module _ (o p : ℕ) (before : Node Number) (at_p : At nodes p before) (to_m : before.next ≡ some m)
      (p_m : p ≢ m) (p_f : p ≢ f) (found : find_previous (length nodes) nodes o m ≡ some p) where
    abbrev relinked : List (Node Number)
    relinked = set nodes p (record before { next = some f })

    abbrev copied : List (Node Number)
    copied = set relinked f old

    abbrev vacant : Node Number
    vacant = record old { next = none; i_val = nil }

    abbrev pub moved_nodes : List (Node Number)
    moved_nodes = set copied m vacant

    abbrev pub replaced_nodes : List (Node Number)
    replaced_nodes = set moved_nodes m (record vacant { i_key = key })

    relinked_m : At relinked m old
    relinked_m = kept nodes p m _ (λ e. p_m (sym e)) ∙ at_m

    relinked_f : At relinked f free
    relinked_f = kept nodes p f _ (λ e. p_f (sym e)) ∙ at_f

    copied_m : At copied m old
    copied_m = kept relinked f m _ ne ∙ relinked_m

    pub moved_m : At moved_nodes m vacant
    moved_m = written copied m old _ copied_m

    pub move_node_lem : move_node nodes o m f ≡ some moved_nodes
    unfolding move_node
    move_node_lem = rw (found, set_next_lem nodes p (some f) before at_p, relinked_m) refl

    pub move-Moved :
        Moved nodes replaced_nodes m f p old free
          (record vacant { i_key = key })
          before
          (record before { next = some f })
    move-Moved = record {
      distinct = ne;
      distinct_before = p_m;
      was = at_m;
      was_free = at_f;
      was_before = at_p;
      used = used_m;
      empty = empty;
      now = written moved_nodes m _ _ moved_m;
      now_free =
          kept moved_nodes m f _ (λ e. ne (sym e))
          ∙ kept copied m f _ (λ e. ne (sym e))
          ∙ written relinked f free _ relinked_f;
      now_before =
          kept moved_nodes m p _ p_m
          ∙ kept copied m p _ p_m
          ∙ kept relinked f p _ p_f
          ∙ written nodes p before _ at_p;
      key = used;
      same_key = refl;
      same_val = refl;
      linked = to_m;
      next_before = refl;
      next = refl;
      count =
          count-same moved_nodes m vacant _ moved_m (used ∙ sym used_m)
          ∙ count-same copied m old _ copied_m refl
          ∙ count-new relinked f free _ relinked_f empty used_m
          ∙ ap suc (count-same nodes p before _ at_p refl);
      others = λ i q r s.
          kept moved_nodes m i _ q
          ∙ kept copied m i _ q
          ∙ kept relinked f i _ r
          ∙ kept nodes p i _ s;
    }
