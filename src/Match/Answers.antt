-- ===== src/Match/Answers.antt =====
-- The three ways in which match can end: an error of the pattern, a match, and NULL.
use soft_renderer_lua.Base.{ℕ, ◌≤◌, ◌≡◌, ◌≢◌, false, none, some, List, length}
use soft_renderer_lua.Base.Run.{done, outside, stuck, Ensures-ends, Ensures-done}
use soft_renderer_lua.Match.{Ctype, MatchState}
use soft_renderer_lua.Match.Engine.{match}
use soft_renderer_lua.Match.Captures.{Inv, Same}
use soft_renderer_lua.Match.Safe.{match-Ensures}

module _ (ctype : Ctype) (no_digit : ctype.isdigit 0 ≡ false) (src pat : List ℕ) (ms : MatchState)
    (s p : ℕ) (le : p ≤ length pat) (inv : Inv (length src) s ms) where
  -- With isdigit false of the zero byte, a match from a place of the subject at which the captures are in order,
  -- and from any place of any pattern, ends with a value or an error, and reads nothing outside of the subject,
  -- the pattern and the captures.
  pub match-total : match ctype src pat ms s p ≢ outside × match ctype src pat ms s p ≢ stuck
  match-total = Ensures-ends (match-Ensures ctype no_digit src pat ms s p le inv)

  -- If such a match succeeds, what it has matched ends at its beginning or after it and in the subject, and the
  -- captures are in order there: each closed one is a part of the subject.
  pub match-InSubject :
      (e : ℕ) (ms' : MatchState)
      → match ctype src pat ms s p ≡ done (some e, ms')
      → s ≤ e × Inv (length src) e ms'
  match-InSubject e ms' h = Ensures-done h (match-Ensures ctype no_digit src pat ms s p le inv)

  -- If such a match fails, the number of captures and each of them are what they were before.
  pub match-Same : (ms' : MatchState) → match ctype src pat ms s p ≡ done (none, ms') → Same ms ms'
  match-Same ms' h = Ensures-done h (match-Ensures ctype no_digit src pat ms s p le inv)
