-- ===== src/Match/Class.antt =====
-- Character classes of patterns: classend, match_class, matchbracketclass and singlematch.
use soft_renderer_lua.Base.{
  ℕ, zero, suc, ◌+◌, ◌-◌, Bool, true, false, not, ◌&&◌, ◌==◌, ltb, leb, if◌then◌else◌, Option, none,
  some, List, length,
}
use soft_renderer_lua.Base.Run.{Run, done, raised, stuck, ◌>>=◌}
use soft_renderer_lua.Match.{MatchError, ends_with_escape, missing_bracket, char_at, Ctype}

-- L_ESC
abbrev pub l_esc : ℕ
l_esc = b'%'

module _ (pat : List ℕ) where
  -- The loop of classend that looks for a `]`. Each round takes a character at least.
  unfoldable pub class_loop : ℕ → ℕ → Run MatchError ℕ
  class_loop zero p = stuck
  class_loop (suc fuel) p = do
    c ← char_at pat p
    if c == 0 then raised missing_bracket else (do
      d ← char_at pat (p + 1)
      let p' = if c == l_esc && not (d == 0) then p + 2 else p + 1
      e ← char_at pat p'
      if e == b']' then done (p' + 1) else class_loop fuel p')

  unfoldable pub classend : ℕ → Run MatchError ℕ
  classend p = do
    c ← char_at pat p
    if c == l_esc
        then (do d ← char_at pat (p + 1); if d == 0 then raised ends_with_escape else done (p + 2))
        else if c == b'['
        then (do
          d ← char_at pat (p + 1)
          class_loop (length pat + 1) (if d == b'^' then p + 2 else p + 1))
        else done (p + 1)

module _ (ctype : Ctype) where
  -- The test that a letter stands for, if it stands for one.
  unfoldable pub class_test : ℕ → ℕ → Option Bool
  class_test c l =
      if l == b'a'
      then some (ctype.isalpha c)
      else if l == b'c'
      then some (ctype.iscntrl c)
      else if l == b'd'
      then some (ctype.isdigit c)
      else if l == b'l'
      then some (ctype.islower c)
      else if l == b'p'
      then some (ctype.ispunct c)
      else if l == b's'
      then some (ctype.isspace c)
      else if l == b'u'
      then some (ctype.isupper c)
      else if l == b'w'
      then some (ctype.isalnum c)
      else if l == b'x'
      then some (ctype.isxdigit c)
      else if l == b'z'
      then some (c == 0)
      else none

  abbrev pub resolve : Option Bool → Bool → Bool → Bool
  resolve none lower same = same
  resolve (some res) lower same = if lower then res else not res

  unfoldable pub match_class : ℕ → ℕ → Bool
  match_class c cl = resolve (class_test c (ctype.tolower cl)) (ctype.islower cl) (cl == c)

  module _ (pat : List ℕ) where
    -- The body of the loop of matchbracketclass, after `++p < ec`; `again` is the next round.
    unfoldable pub bracket_round :
        ℕ → Bool → ℕ → ℕ → (ℕ → Run MatchError Bool) → Run MatchError Bool
    bracket_round c sig p ec again = do
      x ← char_at pat p
      if x == l_esc
          then (do cl ← char_at pat (p + 1); if match_class c cl then done sig else again (p + 1))
          else (do
            dash ← char_at pat (p + 1)
            if dash == b'-' && ltb (p + 2) ec
                then (do
                  hi ← char_at pat (p + 2)
                  if leb x c && leb c hi then done sig else again (p + 2))
                else if x == c
                then done sig
                else again p)

    unfoldable pub bracket_loop : ℕ → ℕ → Bool → ℕ → ℕ → Run MatchError Bool
    bracket_loop zero c sig p ec = if ltb (p + 1) ec then stuck else done (not sig)
    bracket_loop (suc fuel) c sig p ec =
        if ltb (p + 1) ec
        then bracket_round c sig (p + 1) ec (λ p'. bracket_loop fuel c sig p' ec)
        else done (not sig)

    unfoldable pub matchbracketclass : ℕ → ℕ → ℕ → Run MatchError Bool
    matchbracketclass c p ec = do
      x ← char_at pat (p + 1)
      if x == b'^'
          then bracket_loop (length pat) c false (p + 1) ec
          else bracket_loop (length pat) c true p ec

    unfoldable pub singlematch : ℕ → ℕ → ℕ → Run MatchError Bool
    singlematch c p ep = do
      x ← char_at pat p
      if x == b'.'
          then done true
          else if x == l_esc
          then (do cl ← char_at pat (p + 1); done (match_class c cl))
          else if x == b'['
          then matchbracketclass c p (ep - 1)
          else done (x == c)
