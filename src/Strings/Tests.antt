-- ===== src/Strings/Tests.antt =====
-- A table with one list, in which is the string "a"; "b" makes it too crowded.
use soft_renderer_lua.Base.{
  Listed, first, later, ℕ, zero, suc, ◌≡◌, ◌↔◌, refl, sym, ap, subst, ◌∙◌, arith, false, Option,
  some, List, [], ◌∷◌,
}
use soft_renderer_lua.Strings.{
  TString, StringTable, Collector, interned, lmod, hash_loop, hash_of, push, rehash_list,
  rehash_lists, empty_lists, resize, newlstr, find_string, after_search, luas_newlstr,
}
use soft_renderer_lua.Strings.Push.{Is, Entry, Somewhere}
use soft_renderer_lua.Strings.Interning.{InOrder, Result}
use soft_renderer_lua.Strings.Newlstr.{luas_newlstr-Result, luas_newlstr-same}

abbrev text_a : List ℕ
text_a = b'a' ∷ []

abbrev text_b : List ℕ
text_b = b'b' ∷ []

abbrev string_a : TString
string_a = record { address = 4096; marked = 1; hash = 128; bytes = text_a }

abbrev one_string : StringTable
one_string = record { hash = (string_a ∷ []) ∷ []; nuse = 1 }

abbrev collector : Collector
collector = record { currentwhite = 1; sweepstring = false }

hash_a : hash_of text_a ≡ some 128
unfolding hash_of hash_loop
hash_a = refl

abbrev string_b : TString
string_b = record { address = 8192; marked = 1; hash = 131; bytes = text_b }

doubled :
    luas_newlstr collector 8192 one_string text_b
    ≡ some (interned string_b (record { hash = (string_a ∷ []) ∷ (string_b ∷ []) ∷ []; nuse = 2 }))
unfolding luas_newlstr after_search newlstr find_string hash_of hash_loop push resize rehash_lists
    rehash_list empty_lists soft_renderer_lua.Chunk.bytes_eq
doubled = refl

only_a : (i a h : ℕ) (b : List ℕ) → Entry one_string.hash i a h b → (i ≡ 0) × Is string_a a h b
only_a zero a h b (l, e, (ts, m, is)) = (refl, alone e m is)
  where
    alone :
        {l : List TString} {ts : TString}
        → ◌≡◌ {A = Option (List TString)} (some (string_a ∷ [])) (some l)
        → Listed ts l
        → Is ts a h b
        → Is string_a a h b
    alone {ts} e m is = subst (λ x. Is x a h b) (same (subst (Listed ts) (list_of e) m)) is
      where
        list_of :
            {l : List TString}
            → ◌≡◌ {A = Option (List TString)} (some (string_a ∷ [])) (some l)
            → l ≡ string_a ∷ []
        list_of e = cc

        same : {ts : TString} → Listed ts (string_a ∷ []) → ts ≡ string_a
        same first = refl
        same (later m) = elim m [ ]
only_a (suc i) a h b (l, e, one) = absurd (cc)

one_string-InOrder : InOrder one_string
one_string-InOrder = record {
  k = 0;
  size = refl;
  filed = λ i a h b e.
      let (p, is) = only_a i a h b e in
      (p ∙ ap (λ x. lmod x 1) (sym is.1), ap hash_of is.2 ∙ hash_a ∙ ap some (sym is.1));
  unique = λ a h a' h' b x y. (only_a x.0 a h b x.1).1.0 ∙ sym (only_a y.0 a' h' b y.1).1.0;
  apart = λ a h h' b b' x y. (only_a x.0 a h b x.1).1.2 ∙ sym (only_a y.0 a h' b' y.1).1.2;
}

second_address : (h : ℕ) (b : List ℕ) → Somewhere one_string.hash 8192 h b → ⊥
second_address h b x = omega (arith, (only_a x.0 8192 h b x.1).1.0)

luas_newlstr-Result_example :
    (ts : TString) × (tb' : StringTable) × (luas_newlstr collector 8192 one_string text_b
      ≡ some (interned ts tb'))
    × Result one_string text_b ts tb'
luas_newlstr-Result_example =
    luas_newlstr-Result collector 8192 one_string one_string-InOrder text_b (omega arith)
      second_address

luas_newlstr-same_example :
    (ts : TString) × (tb' : StringTable) × (luas_newlstr collector 8192 one_string text_a
      ≡ some (interned ts tb'))
    × ((4096 ≡ ts.address) ↔ (text_a ≡ text_a))
luas_newlstr-same_example =
    luas_newlstr-same collector 8192 one_string one_string-InOrder 4096 128 text_a text_a
      (zero, (string_a ∷ [], refl, (string_a, first, (refl, refl, refl)))) (omega arith)
      second_address
