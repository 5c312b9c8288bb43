-- ===== src/Strings/Find.antt =====
-- The search for a string in its list, which brings a dead string back to life.
use soft_renderer_lua.Base.{
  Listed, first, later, ℕ, ◌≡◌, refl, sym, ◌∙◌, subst, inl, inr, Bool, true, false, Bool-cases,
  if◌then◌else◌, Option, none, some, List, [], ◌∷◌,
}
use soft_renderer_lua.Chunk.{bytes_eq}
use soft_renderer_lua.Chunk.Bytes.{bytes_eq_refl, bytes_eq_lem}
use soft_renderer_lua.Strings.{TString, isdead, changewhite, find_string}
use soft_renderer_lua.Strings.Push.{Is, OneOf}

abbrev revived : ℕ → TString → TString
revived w ts = if isdead w ts.marked then changewhite ts else ts

-- The change of its mark leaves what it is.
revived-Is : (w : ℕ) (ts : TString) → Is (revived w ts) ts.address ts.hash ts.bytes
unfolding changewhite
revived-Is w ts = of (isdead w ts.marked)
  where
    of : (d : Bool) → Is (if d then changewhite ts else ts) ts.address ts.hash ts.bytes
    of true = (refl, refl, refl)
    of false = (refl, refl, refl)

-- The list after a search has the same strings.
pub record Kept (list list' : List TString) : Type 0 where
  pub back : (a h : ℕ) (b : List ℕ) → OneOf list' a h b → OneOf list a h b
  pub forth : (a h : ℕ) (b : List ℕ) → OneOf list a h b → OneOf list' a h b

pub data Search (str : List ℕ) (list : List TString)
    : Option (TString × List TString) → Type 0 where
  known :
      {o : Option (TString × List TString)} (ts : TString) (list' : List TString)
      → o ≡ some (ts, list')
      → ts.bytes ≡ str
      → Listed ts list'
      → Kept list list'
      → Search str list o
  unknown :
      {o : Option (TString × List TString)}
      → o ≡ none
      → ((a h : ℕ) → OneOf list a h str → ⊥)
      → Search str list o

Is-Is :
    (x y : TString) (a h : ℕ) (b : List ℕ) → Is y x.address x.hash x.bytes → Is x a h b → Is y a h b
Is-Is x y a h b s t = (t.0 ∙ s.0, t.1 ∙ s.1, t.2 ∙ s.2)

Is-back : (x y : TString) → Is y x.address x.hash x.bytes → Is x y.address y.hash y.bytes
Is-back x y s = (sym s.0, sym s.1, sym s.2)

swap_first :
    (x y : TString) (list : List TString) (a h : ℕ) (b : List ℕ)
    → Is y x.address x.hash x.bytes
    → OneOf (x ∷ list) a h b
    → OneOf (y ∷ list) a h b
swap_first x y list a h b s (t, first, is) = (y, first, Is-Is x y a h b s is)
swap_first x y list a h b s (t, later m, is) = (t, later m, is)

Kept-later :
    (p : TString) (list list' : List TString) → Kept list list' → Kept (p ∷ list) (p ∷ list')
Kept-later p list list' k = record {
  back = λ a h b o. under list' list k.back a h b o;
  forth = λ a h b o. under list list' k.forth a h b o;
}
  where
    one_more : {l : List TString} {a h : ℕ} {b : List ℕ} → OneOf l a h b → OneOf (p ∷ l) a h b
    one_more (ts, m, is) = (ts, later m, is)

    under :
        (l l' : List TString)
        → ((a h : ℕ) (b : List ℕ) → OneOf l a h b → OneOf l' a h b)
        → (a h : ℕ) (b : List ℕ) → OneOf (p ∷ l) a h b
        → OneOf (p ∷ l') a h b
    under l l' f a h b (ts, first, is) = (ts, first, is)
    under l l' f a h b (ts, later m, is) = one_more (f a h b (ts, m, is))

false-true : (b : Bool) → b ≡ false → b ≡ true → ⊥
false-true b e e' = cc

find_here :
    (w : ℕ) (str : List ℕ) (ts : TString) (list : List TString)
    → bytes_eq str ts.bytes ≡ true
    → find_string w str (ts ∷ list) ≡ some (revived w ts, revived w ts ∷ list)
unfolding find_string
find_here w str ts list e = rw e refl

find_later :
    (w : ℕ) (str : List ℕ) (ts : TString) (list : List TString) (r : TString) (list' : List TString)
    → bytes_eq str ts.bytes ≡ false
    → find_string w str list ≡ some (r, list')
    → find_string w str (ts ∷ list) ≡ some (r, ts ∷ list')
unfolding find_string
find_later w str ts list r list' e e' = rw (e, e') refl

find_nowhere :
    (w : ℕ) (str : List ℕ) (ts : TString) (list : List TString)
    → bytes_eq str ts.bytes ≡ false
    → find_string w str list ≡ none
    → find_string w str (ts ∷ list) ≡ none
unfolding find_string
find_nowhere w str ts list e e' = rw (e, e') refl

find_end : (w : ℕ) (str : List ℕ) → find_string w str [] ≡ none
unfolding find_string
find_end w str = refl

pub find_string-Search :
    (w : ℕ) (str : List ℕ) (list : List TString) → Search str list (find_string w str list)
find_string-Search w str [] = unknown (find_end w str) λ a h (ts, m, is). elim m [ ]
find_string-Search w str (ts ∷ list) = elim (Bool-cases (bytes_eq str ts.bytes)) [
  | inl e ↦
      let new = revived w ts in
      let s = revived-Is w ts in
      known new (new ∷ list) (find_here w str ts list e)
        (sym s.2 ∙ sym (bytes_eq_lem str ts.bytes e)) first
        (record {
          back = λ a h b o. swap_first new ts list a h b (Is-back ts new s) o;
          forth = λ a h b o. swap_first ts new list a h b s o;
        })
  | inr e ↦ further e (find_string-Search w str list)
]
  where
    other : bytes_eq str ts.bytes ≡ false → {a h : ℕ} → Is ts a h str → ⊥
    other e is = false-true _ e (subst (λ x. bytes_eq str x ≡ true) is.2 (bytes_eq_refl str))

    further :
        bytes_eq str ts.bytes ≡ false
        → Search str list (find_string w str list)
        → Search str (ts ∷ list) (find_string w str (ts ∷ list))
    further e (known r list' run bytes m k) =
        known r (ts ∷ list') (find_later w str ts list r list' e run) bytes (later m)
          (Kept-later ts list list' k)
    further e (unknown run no_one) =
        unknown (find_nowhere w str ts list e run) λ a h o. absurd (missing a h o)
      where
        missing : (a h : ℕ) → OneOf (ts ∷ list) a h str → ⊥
        missing a h (x, first, is) = other e is
        missing a h (x, later m, is) = no_one a h (x, m, is)
