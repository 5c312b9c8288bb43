-- ===== src/Match/Parts.antt =====
-- The parts of match that open, close and match captures, and matchbalance.
-- The answer NULL is `none`; the state is passed on in both cases. A part takes the next match as `again`.
use soft_renderer_lua.Base.{
  ℕ, zero, suc, ◌+◌, ◌-◌, Bool, true, false, ◌&&◌, ◌||◌, ◌==◌, ltb, leb, if◌then◌else◌, Option,
  none, some, List, [], ◌∷◌, length, take, drop, set, get_elem?,
}
use soft_renderer_lua.Base.Run.{Run, done, raised, outside, stuck, ◌>>=◌}
use soft_renderer_lua.Match.{
  MatchError, invalid_capture_index, invalid_pattern_capture, unbalanced_pattern, too_many_captures,
  char_at, lua_maxcaptures, CaptureLength, cap_unfinished, cap_position, closed, Capture,
  MatchState,
}

abbrev pub Answer : Type 0
Answer = Run MatchError (Option ℕ × MatchState)

abbrev pub Again : Type 0
Again = MatchState → ℕ → ℕ → Answer

abbrev pub is_unfinished : CaptureLength → Bool
is_unfinished cap_unfinished = true
is_unfinished cap_position = false
is_unfinished (closed n) = false

abbrev pub found : {A : Type 0} → Option A → Run MatchError A
found none = outside
found (some x) = done x

-- The loop of capture_to_close, from below `level` on.
unfoldable pub capture_to_close : List Capture → ℕ → Run MatchError ℕ
capture_to_close cs zero = raised invalid_pattern_capture
capture_to_close cs (suc level) = do
  c ← found (get_elem? cs level)
  if is_unfinished c.len then done level else capture_to_close cs level

-- check_capture; `l` is the digit in the pattern.
unfoldable pub check_capture : MatchState → ℕ → Run MatchError Capture
check_capture ms l =
    if ltb l b'1' || leb ms.level (l - b'1') then raised invalid_capture_index else (do
      c ← found (get_elem? ms.capture (l - b'1'))
      if is_unfinished c.len then raised invalid_capture_index else done c)

-- Two strings are the same.
unfoldable pub same_part : List ℕ → List ℕ → Bool
same_part [] [] = true
same_part [] (b ∷ bs) = false
same_part (a ∷ l) [] = false
same_part (a ∷ l) (b ∷ bs) = a == b && same_part l bs

-- A part of the subject from `i` on
abbrev pub part : List ℕ → ℕ → ℕ → List ℕ
part src i n = take n (drop i src)

-- `memcmp(u + a, v + b, n) == 0`
unfoldable pub mem_cmp : List ℕ → ℕ → List ℕ → ℕ → ℕ → Run MatchError Bool
mem_cmp u a v b n =
    if leb (a + n) (length u) && leb (b + n) (length v)
    then done (same_part (part u a n) (part v b n))
    else outside

module _ (src : List ℕ) where
  -- The rest of match_capture: a position has the length -2, which as a size_t is longer than the subject.
  unfoldable pub capture_again : ℕ → ℕ → CaptureLength → Run MatchError (Option ℕ)
  capture_again s init cap_unfinished = done none
  capture_again s init cap_position = done none
  capture_again s init (closed n) =
      if leb n (length src - s)
      then (do same ← mem_cmp src init src s n; done (if same then some (s + n) else none))
      else done none

  unfoldable pub match_capture : MatchState → ℕ → ℕ → Run MatchError (Option ℕ)
  match_capture ms s l = do c ← check_capture ms l; capture_again s c.init c.len

  -- The body of the loop of matchbalance, after `++s < ms->src_end`; `next` is the next round.
  unfoldable pub balance_round :
      ℕ → ℕ → ℕ → ℕ → (ℕ → ℕ → Run MatchError (Option ℕ)) → Run MatchError (Option ℕ)
  balance_round b e s cont next = do
    c ← char_at src s
    if c == e
        then (if cont == 1 then done (some (s + 1)) else next s (cont - 1))
        else if c == b
        then next s (cont + 1)
        else next s cont

  unfoldable pub balance_loop : ℕ → ℕ → ℕ → ℕ → ℕ → Run MatchError (Option ℕ)
  balance_loop zero b e s cont = stuck
  balance_loop (suc fuel) b e s cont =
      if ltb (s + 1) (length src)
      then balance_round b e (s + 1) cont (λ s' cont'. balance_loop fuel b e s' cont')
      else done none

  module _ (pat : List ℕ) where
    unfoldable pub matchbalance : ℕ → ℕ → Run MatchError (Option ℕ)
    matchbalance s p = do
      b ← char_at pat p
      if b == 0 then raised unbalanced_pattern else (do
        e ← char_at pat (p + 1)
        if e == 0 then raised unbalanced_pattern else (do
          c ← char_at src s
          if c == b then balance_loop (length src + 1) b e s 1 else done none))

-- `res = match(...)`, and what follows when it is NULL
unfoldable pub or_else : Option ℕ × MatchState → (MatchState → Answer) → Answer
or_else (none, ms) f = f ms
or_else (some e, ms) f = done (some e, ms)

-- `s = ...; if (s == NULL) return NULL;`
unfoldable pub or_null : MatchState → Option ℕ → (ℕ → Answer) → Answer
or_null ms none f = done (none, ms)
or_null ms (some s) f = f s

abbrev pub set_capture : MatchState → ℕ → Capture → MatchState
set_capture ms l c = record { level = ms.level; capture = set ms.capture l c }

abbrev pub set_level : MatchState → ℕ → MatchState
set_level ms n = record { level = n; capture = ms.capture }

unfoldable pub start_capture : Again → MatchState → ℕ → ℕ → CaptureLength → Answer
start_capture again ms s p what =
    if leb lua_maxcaptures ms.level then raised too_many_captures else (do
      r ←
          again
            (set_level (set_capture ms ms.level (record { init = s; len = what })) (ms.level + 1)) s
            p
      or_else r (λ ms'. done (none, set_level ms' (ms'.level - 1))))

-- `ms->capture[l].len = len`
unfoldable pub set_len : MatchState → ℕ → CaptureLength → Run MatchError MatchState
set_len ms l len = do
  c ← found (get_elem? ms.capture l)
  done (set_capture ms l (record { init = c.init; len = len }))

unfoldable pub end_capture : Again → MatchState → ℕ → ℕ → Answer
end_capture again ms s p = do
  l ← capture_to_close ms.capture ms.level
  c ← found (get_elem? ms.capture l)
  closed_ms ← set_len ms l (closed (s - c.init))
  r ← again closed_ms s p
  or_else r (λ ms'. do undone ← set_len ms' l cap_unfinished; done (none, undone))
