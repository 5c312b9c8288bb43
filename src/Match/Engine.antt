-- ===== src/Match/Engine.antt =====
-- match of lstrlib.c with its parts. Each call and each `goto init` is at a later place of the pattern, which
-- bounds the fuel. A part takes the next match as the argument `again`.
-- The answer NULL is `none`; the state is passed on in both cases.
use soft_renderer_lua.Base.{
  ℕ, zero, suc, ◌+◌, ◌-◌, Bool, false, ◌==◌, ltb, if◌then◌else◌, none, some, List, length,
}
use soft_renderer_lua.Base.Run.{Run, done, raised, stuck, ◌>>=◌}
use soft_renderer_lua.Match.{
  MatchError, missing_after_f, char_at, Ctype, cap_unfinished, cap_position, MatchState,
}
use soft_renderer_lua.Match.Class.{l_esc, classend, matchbracketclass, singlematch}
use soft_renderer_lua.Match.Parts.{
  Again, Answer, end_capture, match_capture, matchbalance, or_else, or_null, start_capture,
}

module _ (ctype : Ctype) (src pat : List ℕ) where
  -- `s < ms->src_end && singlematch(uchar( *s), p, ep)`
  unfoldable pub single : ℕ → ℕ → ℕ → Run MatchError Bool
  single s p ep =
      if ltb s (length src)
      then (do c ← char_at src s; singlematch ctype pat c p ep)
      else done false

  -- The first loop of max_expand
  unfoldable pub count_loop : ℕ → ℕ → ℕ → ℕ → ℕ → Run MatchError ℕ
  count_loop zero s p ep i = stuck
  count_loop (suc fuel) s p ep i = do
    m ← single (s + i) p ep
    if m then count_loop fuel s p ep (i + 1) else done i

  module _ (again : Again) where
    -- The second one
    unfoldable pub try_loop : ℕ → MatchState → ℕ → ℕ → Answer
    try_loop zero ms s ep = again ms s (ep + 1)
    try_loop (suc i) ms s ep = do
      r ← again ms (s + suc i) (ep + 1)
      or_else r (λ ms'. try_loop i ms' s ep)

    unfoldable pub max_expand : MatchState → ℕ → ℕ → ℕ → Answer
    max_expand ms s p ep = do i ← count_loop (length src + 1) s p ep 0; try_loop i ms s ep

    unfoldable pub expand_loop : ℕ → MatchState → ℕ → ℕ → ℕ → Answer
    expand_loop zero ms s p ep = stuck
    expand_loop (suc fuel) ms s p ep = do
      r ← again ms s (ep + 1)
      or_else r (λ ms'. do
        m ← single s p ep
        if m then expand_loop fuel ms' (s + 1) p ep else done (none, ms'))

    abbrev pub min_expand : MatchState → ℕ → ℕ → ℕ → Answer
    min_expand = expand_loop (length src + 1)

    -- The label `dflt` of match
    unfoldable pub match_default : MatchState → ℕ → ℕ → Answer
    match_default ms s p = do
      ep ← classend pat p
      m ← single s p ep
      x ← char_at pat ep
      if x == b'?'
          then (if m
              then (do r ← again ms (s + 1) (ep + 1); or_else r (λ ms'. again ms' s (ep + 1)))
              else again ms s (ep + 1))
          else if x == b'*'
          then max_expand ms s p ep
          else if x == b'+'
          then (if m then max_expand ms (s + 1) p ep else done (none, ms))
          else if x == b'-'
          then min_expand ms s p ep
          else if m
          then again ms (s + 1) ep
          else done (none, ms)

    -- `previous` of the case of the frontier
    unfoldable pub previous : ℕ → Run MatchError ℕ
    previous zero = done 0
    previous (suc s) = char_at src s

    unfoldable pub match_frontier : MatchState → ℕ → ℕ → Answer
    match_frontier ms s p = do
      x ← char_at pat p
      if x == b'['
          then (do
            ep ← classend pat p
            c ← previous s
            before ← matchbracketclass ctype pat c p (ep - 1)
            if before then done (none, ms) else (do
              d ← char_at src s
              after ← matchbracketclass ctype pat d p (ep - 1)
              if after then again ms s ep else done (none, ms)))
          else raised missing_after_f

    unfoldable pub match_escape : MatchState → ℕ → ℕ → Answer
    match_escape ms s p = do
      x ← char_at pat (p + 1)
      if x == b'b'
          then (do r ← matchbalance src pat s (p + 2); or_null ms r (λ s'. again ms s' (p + 4)))
          else if x == b'f'
          then match_frontier ms s (p + 2)
          else if ctype.isdigit x
          then (do r ← match_capture src ms s x; or_null ms r (λ s'. again ms s' (p + 2)))
          else match_default ms s p

    -- The body of match; `again` is the call of match as well as `goto init`.
    unfoldable pub match_item : MatchState → ℕ → ℕ → Answer
    match_item ms s p = do
      x ← char_at pat p
      if x == b'('
          then (do
            y ← char_at pat (p + 1)
            if y == b')'
                then start_capture again ms s (p + 2) cap_position
                else start_capture again ms s (p + 1) cap_unfinished)
          else if x == b')'
          then end_capture again ms s (p + 1)
          else if x == l_esc
          then match_escape ms s p
          else if x == 0
          then done (some s, ms)
          else if x == b'$'
          then (do
            y ← char_at pat (p + 1)
            if y == 0
                then done (if s == length src then some s else none, ms)
                else match_default ms s p)
          else match_default ms s p

  unfoldable pub match_from : ℕ → Again
  match_from zero ms s p = stuck
  match_from (suc fuel) ms s p = match_item (match_from fuel) ms s p

  abbrev pub match : Again
  match = match_from (length pat + 1)
