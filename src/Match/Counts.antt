-- ===== src/Match/Counts.antt =====
-- The count of the substitutions of string.gsub, and its result without one.
use soft_renderer_lua.Base.{
  ℕ, zero, suc, ◌+◌, ◌-◌, ◌≤◌, ◌<◌, ◌≡◌, refl, sym, ap, ◌∙◌, arith, true, some, List, [], ◌∷◌, ◌++◌,
  length, get_elem?, take, drop, length-drop,
}
use soft_renderer_lua.Base.Int.{ℤ, pos, ltb_ℤ, pos_part}
use soft_renderer_lua.Base.Run.{Run, Ensures, value, Ensures-bind}
use soft_renderer_lua.Match.{MatchError}
use soft_renderer_lua.Match.Parts.{part}
use soft_renderer_lua.Match.Bytes.{some-inj}
use soft_renderer_lua.Match.Gsub.{prepend}

-- What is given from the place `s` on, after `n` substitutions; `k` more than the characters that are left are
-- possible.
pub record Counted (src : List ℕ) (max_s : ℤ) (k s n : ℕ) (r : List ℕ × ℕ) : Type 0 where
  pub more : n ≤ r.1
  pub at_most : n ≤ pos_part max_s → r.1 ≤ pos_part max_s
  pub rounds : r.1 ≤ n + (length src - s) + k
  pub unchanged : r.1 ≡ n → r.0 ≡ drop s src

pub take-all : (v : List ℕ) → take (length v) v ≡ v
take-all [] = refl
take-all (c ∷ v) = ap (λ l. c ∷ l) (take-all v)

part-end : (v : List ℕ) (s : ℕ) → part v s (length v - s) ≡ drop s v
part-end v s = ap (λ k. take k (drop s v)) (sym (length-drop s v)) ∙ take-all (drop s v)

pub drop-byte : (v : List ℕ) (s c : ℕ) → get_elem? v s ≡ some c → c ∷ drop (suc s) v ≡ drop s v
drop-byte [] s c h = absurd (cc)
drop-byte (d ∷ v) zero c h = ap (λ x. x ∷ v) (sym (some-inj h))
drop-byte (d ∷ v) (suc s) c h = drop-byte v s c h

module _ (src : List ℕ) (max_s : ℤ) where
  pub end-Counted : (k s n : ℕ) → Counted src max_s k s n (part src s (length src - s), n)
  end-Counted k s n = record {
    more = omega arith;
    at_most = λ h. h;
    rounds = omega arith;
    unchanged = λ e. part-end src s;
  }

  -- A character is put before the rest.
  pub char-Counted :
      (s n c : ℕ) (r : List ℕ × ℕ)
      → s < length src
      → get_elem? src s ≡ some c
      → Counted src max_s 1 (s + 1) n r
      → Counted src max_s 0 s n (c ∷ r.0, r.1)
  char-Counted s n c r lt e h = record {
    more = h.more;
    at_most = h.at_most;
    rounds = omega (arith, h.rounds);
    unchanged =
        λ q. ap (λ l. c ∷ l) (h.unchanged q ∙ ap (λ i. drop i src) (next s)) ∙ drop-byte src s c e;
  }
    where
      next : (i : ℕ) → i + 1 ≡ suc i
      next i = omega arith

  -- After a substitution at `s`, the rest is done from `s'` on.
  pub matched-Counted :
      (k s s' n : ℕ) (b : List ℕ) (r : List ℕ × ℕ)
      → n < pos_part max_s
      → length src - s' + k ≤ length src - s
      → Counted src max_s k s' (n + 1) r
      → Counted src max_s 1 s n (b ++ r.0, r.1)
  matched-Counted k s s' n b r lt le h = record {
    more = omega (arith, h.more);
    at_most = λ q. h.at_most (omega arith);
    rounds = omega (arith, h.rounds);
    unchanged = λ e. absurd (omega (arith, h.more, e));
  }

  pub weaker : (s n : ℕ) (r : List ℕ × ℕ) → Counted src max_s 0 s n r → Counted src max_s 1 s n r
  weaker s n r h = record {
    more = h.more;
    at_most = h.at_most;
    rounds = omega (arith, h.rounds);
    unchanged = h.unchanged;
  }

pub below : (n : ℕ) (m : ℤ) → ltb_ℤ (pos n) m ≡ true → n < pos_part m
below n m h = ground arith

pub prepend-Ensures :
    {Q R : List ℕ × ℕ → Type 0} {m : Run MatchError (List ℕ × ℕ)} (b : List ℕ)
    → Ensures Q m
    → ((r : List ℕ × ℕ) → Q r → R (b ++ r.0, r.1))
    → Ensures R (prepend b m)
unfolding prepend
prepend-Ensures b h k = Ensures-bind h λ r q. value (k r q)
