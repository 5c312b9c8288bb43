-- ===== src/Strings/Resize.antt =====
-- luaS_resize: every string of the table comes into the new lists, and nothing else.
use soft_renderer_lua.Base.{
  Listed, first, later, ℕ, zero, suc, ◌^◌, ◌≡◌, refl, sym, ap, ◌∙◌, subst, ◌⊎◌, inl, inr, arith,
  false, Option, none, some, List, [], ◌∷◌, length,
}
use soft_renderer_lua.Strings.{
  TString, StringTable, lmod, push, rehash_list, rehash_lists, empty_lists, resize,
}
use soft_renderer_lua.Strings.Push.{Named, Is, OneOf, Entry, Somewhere, Moved, push-Moved}

abbrev Both : Named → Named → Named
Both P Q a h b = P a h b ⊎ Q a h b

Moved-then :
    {P Q : Named} {x y z : List (List TString)} → Moved P x y → Moved Q y z → Moved (Both P Q) x z
Moved-then {P} {Q} {x} {y} {z} m m' = record {
  size = m'.size ∙ m.size;
  back = λ i a h b e. back i a h b (m'.back i a h b e);
  forth = λ i a h b e. m'.forth i a h b (m.forth i a h b e);
  moved = λ a h b both. moved a h b both;
}
  where
    same : (h : ℕ) → lmod h (length y) ≡ lmod h (length x)
    same h = ap (lmod h) m.size

    back :
        (i a h : ℕ) (b : List ℕ)
        → (Q a h b × (i ≡ lmod h (length y))) ⊎ Entry y i a h b
        → (Both P Q a h b × (i ≡ lmod h (length x))) ⊎ Entry x i a h b
    back i a h b (inl (q, e)) = inl (inr q, e ∙ same h)
    back i a h b (inr e) = elim (m.back i a h b e) [
      | inl (p, at) ↦ inl (inl p, at)
      | inr old ↦ inr old
    ]

    moved : (a h : ℕ) (b : List ℕ) → Both P Q a h b → Entry z (lmod h (length x)) a h b
    moved a h b (inl p) = m'.forth _ a h b (m.moved a h b p)
    moved a h b (inr q) = subst (λ i. Entry z i a h b) (same h) (m'.moved a h b q)

Moved-as :
    {P Q : Named} {x y : List (List TString)}
    → ((a h : ℕ) (b : List ℕ) → P a h b → Q a h b)
    → ((a h : ℕ) (b : List ℕ) → Q a h b → P a h b)
    → Moved P x y
    → Moved Q x y
Moved-as {P} {Q} {x} {y} f g m = record {
  size = m.size;
  back = λ i a h b e. back i a h b (m.back i a h b e);
  forth = m.forth;
  moved = λ a h b q. m.moved a h b (g a h b q);
}
  where
    back :
        (i a h : ℕ) (b : List ℕ)
        → (P a h b × (i ≡ lmod h (length x))) ⊎ Entry x i a h b
        → (Q a h b × (i ≡ lmod h (length x))) ⊎ Entry x i a h b
    back i a h b (inl (p, e)) = inl (f a h b p, e)
    back i a h b (inr e) = inr e

Moved-nothing :
    {P : Named} (x : List (List TString)) → ((a h : ℕ) (b : List ℕ) → P a h b → ⊥) → Moved P x x
Moved-nothing x none_named = record {
  size = refl;
  back = λ i a h b e. inr e;
  forth = λ i a h b e. e;
  moved = λ a h b p. absurd (none_named a h b p);
}

rehash_list-step :
    (p : TString) (list : List TString) (x y : List (List TString))
    (o : Option (List (List TString)))
    → push x p ≡ some y
    → rehash_list list y ≡ o
    → rehash_list (p ∷ list) x ≡ o
unfolding rehash_list
rehash_list-step p list x y o e e' = rw e e'

rehash_list-nil : (x : List (List TString)) → rehash_list [] x ≡ some x
unfolding rehash_list
rehash_list-nil x = refl

rehash_list-Moved :
    (k : ℕ) (list : List TString) (x : List (List TString))
    → length x ≡ 2 ^ k
    → (y : List (List TString)) × (rehash_list list x ≡ some y) × Moved (OneOf list) x y
rehash_list-Moved k [] x e = (x, rehash_list-nil x, Moved-nothing x (λ a h b one. empty one))
  where
    empty : {a h : ℕ} {b : List ℕ} → OneOf [] a h b → ⊥
    empty (ts, m, is) = elim m [ ]
rehash_list-Moved k (p ∷ list) x e =
    let (y, run, m) = push-Moved k x p e in
    let (z, run', m') = rehash_list-Moved k list y (m.size ∙ e) in
    (z, rehash_list-step p list x y (some z) run run', Moved-as to from (Moved-then m m'))
  where
    to : (a h : ℕ) (b : List ℕ) → Both (Is p) (OneOf list) a h b → OneOf (p ∷ list) a h b
    to a h b (inl is) = (p, first, is)
    to a h b (inr (ts, m, is)) = (ts, later m, is)

    from : (a h : ℕ) (b : List ℕ) → OneOf (p ∷ list) a h b → Both (Is p) (OneOf list) a h b
    from a h b (ts, first, is) = inl is
    from a h b (ts, later m, is) = inr (ts, m, is)

rehash_lists-step :
    (b : List TString) (lists x y : List (List TString)) (o : Option (List (List TString)))
    → rehash_list b x ≡ some y
    → rehash_lists lists y ≡ o
    → rehash_lists (b ∷ lists) x ≡ o
unfolding rehash_lists
rehash_lists-step b lists x y o e e' = rw e e'

rehash_lists-nil : (x : List (List TString)) → rehash_lists [] x ≡ some x
unfolding rehash_lists
rehash_lists-nil x = refl

rehash_lists-Moved :
    (k : ℕ) (lists x : List (List TString))
    → length x ≡ 2 ^ k
    → (y : List (List TString)) × (rehash_lists lists x ≡ some y) × Moved (Somewhere lists) x y
rehash_lists-Moved k [] x e =
    (x, rehash_lists-nil x, Moved-nothing x (λ a h b some_at. absurd (no_list some_at.1.1)))
  where
    no_list : {l : List TString} → ◌≡◌ {A = Option (List TString)} none (some l) → ⊥
    no_list h = cc
rehash_lists-Moved k (l ∷ lists) x e =
    let (y, run, m) = rehash_list-Moved k l x e in
    let (z, run', m') = rehash_lists-Moved k lists y (m.size ∙ e) in
    (z, rehash_lists-step l lists x y (some z) run run', Moved-as to from (Moved-then m m'))
  where
    list_same : {l' : List TString} → ◌≡◌ {A = Option (List TString)} (some l) (some l') → l' ≡ l
    list_same h = cc

    to :
        (a h : ℕ) (b : List ℕ)
        → Both (OneOf l) (Somewhere lists) a h b
        → Somewhere (l ∷ lists) a h b
    to a h b (inl one) = (zero, (l, refl, one))
    to a h b (inr (i, rest)) = (suc i, rest)

    from :
        (a h : ℕ) (b : List ℕ)
        → Somewhere (l ∷ lists) a h b
        → Both (OneOf l) (Somewhere lists) a h b
    from a h b (zero, e) = inl (subst (λ x. OneOf x a h b) (list_same e.1) e.2)
    from a h b (suc i, rest) = inr (i, rest)

empty_lists-length : (n : ℕ) → length (empty_lists n) ≡ n
unfolding empty_lists
empty_lists-length zero = refl
empty_lists-length (suc n) = omega (arith, empty_lists-length n)

empty_lists-empty : (n i a h : ℕ) (b : List ℕ) → Entry (empty_lists n) i a h b → ⊥
unfolding empty_lists
empty_lists-empty zero i a h b (l, at, one) = absurd (cc)
empty_lists-empty (suc n) zero a h b (l, at, (ts, m, is)) = nothing at m
  where
    nothing :
        {l : List TString} → ◌≡◌ {A = Option (List TString)} (some []) (some l) → Listed ts l → ⊥
    nothing e first = cc
    nothing e (later m) = cc
empty_lists-empty (suc n) (suc i) a h b e = empty_lists-empty n i a h b e

resize_run :
    (tb : StringTable) (newsize : ℕ) (x : List (List TString))
    → rehash_lists tb.hash (empty_lists newsize) ≡ some x
    → resize false tb newsize ≡ some (record { hash = x; nuse = tb.nuse })
unfolding resize
resize_run tb newsize x e = rw e refl

-- The new table has the same strings, each in the list of its hash.
pub record Resized (hash hash' : List (List TString)) (newsize : ℕ) : Type 0 where
  pub size : length hash' ≡ newsize
  pub filed :
      (i a h : ℕ) (b : List ℕ)
      → Entry hash' i a h b
      → (i ≡ lmod h (length hash')) × Somewhere hash a h b
  pub kept : (a h : ℕ) (b : List ℕ) → Somewhere hash a h b → Somewhere hash' a h b

pub resize-Resized :
    (k : ℕ) (tb : StringTable)
    → (tb' : StringTable) × (resize false tb (2 ^ k) ≡ some tb')
      × Resized tb.hash tb'.hash (2 ^ k)
      × (tb'.nuse ≡ tb.nuse)
resize-Resized k tb =
    let size = empty_lists-length (2 ^ k) in
    let (x, run, m) = rehash_lists-Moved k tb.hash (empty_lists (2 ^ k)) size in
    (
      record { hash = x; nuse = tb.nuse },
      resize_run tb (2 ^ k) x run,
      record {
        size = m.size ∙ size;
        filed = λ i a h b e. filed x m i a h b (m.back i a h b e);
        kept = λ a h b e. (lmod h (length (empty_lists (2 ^ k))), m.moved a h b e);
      },
      refl,
    )
  where
    filed :
        (x : List (List TString))
        → Moved (Somewhere tb.hash) (empty_lists (2 ^ k)) x
        → (i a h : ℕ) (b : List ℕ)
        → (Somewhere tb.hash a h b × (i ≡ lmod h (length (empty_lists (2 ^ k)))))
          ⊎ Entry (empty_lists (2 ^ k)) i a h b
        → (i ≡ lmod h (length x)) × Somewhere tb.hash a h b
    filed x m i a h b (inl (there, e)) = (e ∙ ap (lmod h) (sym m.size), there)
    filed x m i a h b (inr e) = absurd (empty_lists-empty (2 ^ k) i a h b e)
