-- ===== src/Match/Results.antt =====
-- What string.find, string.match and string.gmatch push stays in the subject.
use soft_renderer_lua.Base.{
  ℕ, zero, suc, ◌+◌, ◌≤◌, ◌<◌, ◌≡◌, ◌≢◌, refl, ◌∙◌, arith, Bool, true, false, not, ◌&&◌, ◌||◌, ◌==◌,
  ltb, leb, ltb→lt, leb→le, Bool-cases, inl, inr, if◌then◌else◌, Option, none, some, List, [], ◌∷◌,
  length,
}
use soft_renderer_lua.Base.Int.{ℤ}
use soft_renderer_lua.Base.Run.{Ensures, value, Ensures-bind, Ensures-weaken, Ensures-if}
use soft_renderer_lua.Match.{lua_maxcaptures, Ctype, MatchState}
use soft_renderer_lua.Match.Items.{in-eq, char_at-Ensures}
use soft_renderer_lua.Match.Captures.{Inv}
use soft_renderer_lua.Match.Safe.{match-Ensures}
use soft_renderer_lua.Match.Find.{
  Pushed, find_start, has_specials, cleared, push_match, find_loop, push_plain, str_find_aux,
  gmatch_loop, gmatch_aux,
}
use soft_renderer_lua.Match.Plain.{FirstFrom, Occurs-within, lmemfind-FirstFrom}
use soft_renderer_lua.Match.Pushes.{AllIn, push_captures-In, on_match-Ensures, cleared-Inv}

find_start-le : (init : ℤ) (n : ℕ) → find_start init n ≤ n
unfolding find_start
find_start-le init n = ground arith

pub anchored : (x n : ℕ) → (x ≢ 0 → 0 < n) → (if x == b'^' then 1 else 0) ≤ n
anchored x n h = elim (Bool-cases (x == b'^')) [
  | inl e ↦ rw e (in-eq x b'^' (omega arith) e h)
  | inr e ↦ rw e (omega arith)
]

-- An occurrence that is the first ends in the subject, also if the pattern is empty.
first-within :
    (src pat : List ℕ) (s i : ℕ)
    → s ≤ length src
    → FirstFrom src pat s (some i)
    → i + length pat ≤ length src
first-within src [] s i le (le', o, q) = elim (Bool-cases (ltb s i)) [
  | inl e ↦ absurd (q s (omega arith) (ltb→lt s i e) (λ j lt. elim lt [ ]))
  | inr e ↦ ground arith
]
first-within src (c ∷ pat) s i le (le', o, q) =
    omega (arith, Occurs-within src (c ∷ pat) i (length pat) refl o)

-- What a call of the iterator at `s` gives: nothing, or values and a later position.
abbrev pub Advances : ℕ → ℕ → Option (List Pushed × ℕ) → Type 0
Advances n s none = Unit {0}
Advances n s (some r) = AllIn n r.0 × s < r.1 × r.1 ≤ n + 1

next : (s e : ℕ) → s ≤ e → s < (if e == s then e + 1 else e)
next s e le = ground arith

next-le : (e s : ℕ) → (if e == s then e + 1 else e) ≤ e + 1
next-le e s = ground arith

later : (n s : ℕ) (r : Option (List Pushed × ℕ)) → Advances n (s + 1) r → Advances n s r
later n s none h = tt
later n s (some r) (h, lt, le) = (h, omega arith, le)

-- isdigit is false of the zero byte.
module _ (ctype : Ctype) (no_digit : ctype.isdigit 0 ≡ false) (room : ℕ → Bool)
    (src pat : List ℕ) where
  push_match-In :
      (find : Bool) (s1 res : ℕ) (ms : MatchState)
      → s1 ≤ res
      → Inv (length src) res ms
      → Ensures (AllIn (length src)) (push_match ctype room src pat find s1 res ms)
  unfolding push_match
  push_match-In true s1 res ms le inv =
      Ensures-bind (push_captures-In inv room none tt)
        λ vs h. value (omega (arith, inv.within), (omega (arith, inv.within), h))
  push_match-In false s1 res ms le inv = push_captures-In inv room (some (s1, res)) (le, inv.within)

  find_loop-In :
      (fuel : ℕ) (find anchor : Bool) (ms : MatchState) (s1 p : ℕ)
      → length src < fuel + s1
      → s1 ≤ length src
      → p ≤ length pat
      → length ms.capture ≡ lua_maxcaptures
      → Ensures (AllIn (length src)) (find_loop ctype room src pat fuel find anchor ms s1 p)
  unfolding find_loop
  find_loop-In zero find anchor ms s1 p enough le in_pat size = absurd (omega arith)
  find_loop-In (suc fuel) find anchor ms s1 p enough le in_pat size =
      Ensures-bind
        (match-Ensures ctype no_digit src pat (cleared ms) s1 p in_pat
          (cleared-Inv (length src) s1 ms size le))
        λ r q.
          on_match-Ensures r q (λ e ms' le' inv. push_match-In find s1 e ms' le' inv)
            λ ms' same.
              Ensures-if (ltb s1 (length src) && not anchor)
                (λ h.
                  find_loop-In fuel find anchor ms' (s1 + 1) p (omega arith) (ground arith) in_pat
                    (same.size ∙ size))
                (λ h. value (tt, tt))

  push_plain-In :
      {s : ℕ} (r : Option ℕ)
      → s ≤ length src
      → FirstFrom src pat s r
      → AllIn (length src) (push_plain ctype room src pat r)
  push_plain-In none le q = (tt, tt)
  push_plain-In {s} (some i) le q =
      let h = first-within src pat s i le q in (omega (arith, h), (omega (arith, h), tt))

  -- With isdigit false of the zero byte and room for the captures in a MatchState, string.find and string.match
  -- end for every subject, pattern and initial position, with an error or with values that are in the subject: a position that is pushed is at most
  -- one past its length and a string that is pushed is a part of it. They read nothing outside.
  pub str_find_aux-InSubject :
      (ms : MatchState) (find plain : Bool) (init : ℤ)
      → length ms.capture ≡ lua_maxcaptures
      → Ensures (AllIn (length src)) (str_find_aux ctype room src pat ms find plain init)
  unfolding str_find_aux
  str_find_aux-InSubject ms find plain init size =
      let le = find_start-le init (length src) in
      Ensures-if (find && (plain || not (has_specials pat)))
        (λ h.
          Ensures-bind (lmemfind-FirstFrom src pat (find_start init (length src)) le)
            λ s2 q. value (push_plain-In s2 le q))
        (λ h. Ensures-bind (char_at-Ensures pat 0 (omega arith)) λ x in_x.
          find_loop-In (length src + 1) find (x == b'^') ms _ _ (omega arith) le
            (anchored x (length pat) in_x) size)

  gmatch_loop-Advances :
      (fuel : ℕ) (ms : MatchState) (s : ℕ)
      → length src < fuel + s
      → length ms.capture ≡ lua_maxcaptures
      → Ensures (Advances (length src) s) (gmatch_loop ctype room src pat fuel ms s)
  unfolding gmatch_loop
  gmatch_loop-Advances zero ms s enough size =
      Ensures-if (leb s (length src)) (λ h. absurd (ground arith)) (λ h. value tt)
  gmatch_loop-Advances (suc fuel) ms s enough size =
      Ensures-if (leb s (length src))
        (λ h.
          let le = leb→le s (length src) h in
          Ensures-bind
            (match-Ensures ctype no_digit src pat (cleared ms) s 0 (omega arith)
              (cleared-Inv (length src) s ms size le))
            λ r q.
              on_match-Ensures r q
                (λ e ms' le' inv.
                  Ensures-bind (push_captures-In inv room (some (s, e)) (le', inv.within))
                    λ vs k. value (k, next s e le', omega (arith, next-le e s, inv.within)))
                λ ms' same.
                  Ensures-weaken (later (length src) s)
                    (gmatch_loop-Advances fuel ms' (s + 1) (omega arith) (same.size ∙ size)))
        (λ h. value tt)

  -- Under the same conditions a call of the iterator of string.gmatch that gives a match gives values that are in the subject, and its next
  -- position is after the one it began at and at most one past the length. Every call ends, and reads nothing
  -- outside: so there are at most as many matches as positions.
  pub gmatch_aux-Advances :
      (ms : MatchState) (s : ℕ)
      → length ms.capture ≡ lua_maxcaptures
      → Ensures (Advances (length src) s) (gmatch_aux ctype room src pat ms s)
  gmatch_aux-Advances ms s size = gmatch_loop-Advances (length src + 1) ms s (omega arith) size
