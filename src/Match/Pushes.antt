-- ===== src/Match/Pushes.antt =====
-- The pushes of a match: push_onecapture and push_captures, and what follows a call of match.
use soft_renderer_lua.Base.{
  ℕ, zero, suc, ◌+◌, ◌≤◌, ◌<◌, ◌≡◌, arith, Bool, ◌==◌, leb, Option, none, some, List, [], ◌∷◌,
  length,
}
use soft_renderer_lua.Base.Run.{Run, Ensures, value, error, Ensures-bind, Ensures-if}
use soft_renderer_lua.Match.{
  MatchError, lua_maxcaptures, CaptureLength, cap_unfinished, cap_position, closed, MatchState,
}
use soft_renderer_lua.Match.Captures.{Fits, Inv, Same, Post}
use soft_renderer_lua.Match.Groups.{found-Ensures}
use soft_renderer_lua.Match.Find.{
  Pushed, integer, text, nil, push_length, push_onecapture, push_loop, nlevels, push_captures,
  on_match, cleared,
}

-- A position is one of the subject or the one behind it, and a text is a part of the subject.
abbrev pub InSubject : ℕ → Pushed → Type 0
InSubject n (integer k) = k ≤ n + 1
InSubject n (text init k) = init + k ≤ n
InSubject n nil = Unit {0}

abbrev pub AllIn : ℕ → List Pushed → Type 0
AllIn n [] = Unit {0}
AllIn n (v ∷ vs) = InSubject n v × AllIn n vs

-- The whole match that push_captures is given.
abbrev Whole : ℕ → Option (ℕ × ℕ) → Type 0
Whole n none = Unit {0}
Whole n (some w) = w.0 ≤ w.1 × w.1 ≤ n

push_length-In :
    (n s init : ℕ) (len : CaptureLength)
    → Fits n s init len
    → Ensures (InSubject n) (push_length init len)
unfolding push_length
push_length-In n s init cap_unfinished h = error
push_length-In n s init cap_position h = value (omega arith)
push_length-In n s init (closed k) h = value h

module _ {n p : ℕ} {ms : MatchState} (inv : Inv n p ms) where
  pub push_onecapture-In :
      (i s e : ℕ) → s ≤ e → e ≤ n → Ensures (InSubject n) (push_onecapture ms i s e)
  unfolding push_onecapture
  push_onecapture-In i s e le le' =
      Ensures-if (leb ms.level i) (λ h. Ensures-if (i == 0) (λ k. value (omega arith)) (λ k. error))
        (λ h.
          let lt : i < ms.level = ground arith in
          Ensures-bind (found-Ensures ms.capture i (omega (arith, lt, inv.size, inv.bounded)))
            λ c q. push_length-In n p c.init c.len (inv.inside i c lt q))

  push_loop-In : (s e i k : ℕ) → s ≤ e → e ≤ n → Ensures (AllIn n) (push_loop ms s e i k)
  unfolding push_loop
  push_loop-In s e i zero le le' = value tt
  push_loop-In s e i (suc k) le le' =
      Ensures-bind (push_onecapture-In i s e le le')
        λ v h. Ensures-bind (push_loop-In s e (i + 1) k le le') λ vs hs. value (h, hs)

  pub push_captures-In :
      (room : ℕ → Bool) (whole : Option (ℕ × ℕ))
      → Whole n whole
      → Ensures (AllIn n) (push_captures room ms whole)
  unfolding push_captures
  push_captures-In room none h =
      Ensures-if (room (nlevels ms none)) (λ k. push_loop-In 0 0 0 _ (omega arith) (omega arith))
        (λ k. error)
  push_captures-In room (some w) (le, le') =
      Ensures-if (room (nlevels ms (some w))) (λ k. push_loop-In w.0 w.1 0 _ le le') (λ k. error)

pub on_match-Ensures :
    {n s : ℕ} {ms : MatchState} {A : Type 0} {Q : A → Type 0} (r : Option ℕ × MatchState)
    {f : ℕ → MatchState → Run MatchError A} {g : MatchState → Run MatchError A}
    → Post n ms s r
    → ((e : ℕ) (ms' : MatchState) → s ≤ e → Inv n e ms' → Ensures Q (f e ms'))
    → ((ms' : MatchState) → Same ms ms' → Ensures Q (g ms'))
    → Ensures Q (on_match r f g)
unfolding on_match
on_match-Ensures (none, ms') h k l = l ms' h
on_match-Ensures (some e, ms') (le, inv) k l = k e ms' le inv

pub cleared-Inv :
    (n s : ℕ) (ms : MatchState) → length ms.capture ≡ lua_maxcaptures → s ≤ n → Inv n s (cleared ms)
cleared-Inv n s ms size le = record {
  size = size;
  bounded = omega arith;
  within = le;
  inside = λ i c lt e. elim lt [ ];
}
