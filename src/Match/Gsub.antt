-- ===== src/Match/Gsub.antt =====
-- string.gsub: add_s, add_value and str_gsub. A luaL_Buffer is the list of its bytes. The conversion of a number
-- to a string and the calls of a replacement function or table are parameters.
use soft_renderer_lua.Base.{
  ℕ, zero, suc, ◌+◌, ◌-◌, Bool, not, ◌==◌, ltb, if◌then◌else◌, some, List, [], ◌∷◌, ◌++◌, length,
}
use soft_renderer_lua.Base.Int.{ℤ, pos, ltb_ℤ}
use soft_renderer_lua.Base.Run.{Run, done, raised, stuck, ◌>>=◌}
use soft_renderer_lua.Match.{MatchError, invalid_replacement, char_at, Ctype, MatchState}
use soft_renderer_lua.Match.Class.{l_esc}
use soft_renderer_lua.Match.Parts.{part}
use soft_renderer_lua.Match.Engine.{match}
use soft_renderer_lua.Match.Find.{
  Pushed, integer, text, nil, push_onecapture, push_captures, on_match, cleared,
}

-- What a call of the replacement gives: nil or false, a string or a number, or something else.
pub data Replaced : Type 0 where
  falsy : Replaced
  string : List ℕ → Replaced
  other : Replaced

-- The third argument of string.gsub
pub data Replacement : Type 0 where
  template : List ℕ → Replacement
  function : (List Pushed → Run MatchError Replaced) → Replacement
  table : (Pushed → Run MatchError Replaced) → Replacement

-- The bytes of the result so far are put before those of the rest.
unfoldable pub prepend : List ℕ → Run MatchError (List ℕ × ℕ) → Run MatchError (List ℕ × ℕ)
prepend b m = do r ← m; done (b ++ r.0, r.1)

module _ (ctype : Ctype) (room : ℕ → Bool) (number_text : ℕ → List ℕ) (src : List ℕ) where
  -- luaL_addvalue of a capture
  abbrev pub value_text : Pushed → List ℕ
  value_text (integer k) = number_text k
  value_text (text init n) = part src init n
  value_text nil = []

  -- What add_s adds for an escape and the character `d`
  unfoldable pub add_escape : MatchState → ℕ → ℕ → ℕ → Run MatchError (List ℕ)
  add_escape ms s e d =
      if not (ctype.isdigit d)
      then done (d ∷ [])
      else if d == b'0'
      then done (part src s (e - s))
      else (do v ← push_onecapture ms (d - b'1') s e; done (value_text v))

  -- The loop of add_s, from `i` on
  unfoldable pub add_loop : ℕ → MatchState → List ℕ → ℕ → ℕ → ℕ → Run MatchError (List ℕ)
  add_loop zero ms news s e i = if ltb i (length news) then stuck else done []
  add_loop (suc fuel) ms news s e i =
      if ltb i (length news)
      then (do
        c ← char_at news i
        if c == l_esc
            then (do
              d ← char_at news (i + 1)
              b ← add_escape ms s e d
              bs ← add_loop fuel ms news s e (i + 2)
              done (b ++ bs))
            else (do bs ← add_loop fuel ms news s e (i + 1); done (c ∷ bs)))
      else done []

  abbrev pub add_s : MatchState → List ℕ → ℕ → ℕ → Run MatchError (List ℕ)
  add_s ms news s e = add_loop (length news) ms news s e 0

  -- The end of add_value
  unfoldable pub add_replaced : ℕ → ℕ → Replaced → Run MatchError (List ℕ)
  add_replaced s e falsy = done (part src s (e - s))
  add_replaced s e (string bs) = done bs
  add_replaced s e other = raised invalid_replacement

  unfoldable pub add_value : MatchState → Replacement → ℕ → ℕ → Run MatchError (List ℕ)
  add_value ms (template news) s e = add_s ms news s e
  add_value ms (function f) s e = do
    vs ← push_captures room ms (some (s, e))
    v ← f vs
    add_replaced s e v
  add_value ms (table t) s e = do k ← push_onecapture ms 0 s e; v ← t k; add_replaced s e v

  -- After the loop of str_gsub, at `s` with `n` substitutions
  abbrev pub gsub_end : ℕ → ℕ → Run MatchError (List ℕ × ℕ)
  gsub_end s n = done (part src s (length src - s), n)

  -- `if (anchor) break;`
  abbrev pub gsub_next :
      Bool → ℕ → ℕ → (ℕ → ℕ → Run MatchError (List ℕ × ℕ)) → Run MatchError (List ℕ × ℕ)
  gsub_next anchor s n again = if anchor then gsub_end s n else again s n

  -- A round that does not move on by a match
  unfoldable pub gsub_char :
      Bool → ℕ → ℕ → (ℕ → ℕ → Run MatchError (List ℕ × ℕ)) → Run MatchError (List ℕ × ℕ)
  gsub_char anchor s n again =
      if ltb s (length src)
      then (do c ← char_at src s; prepend (c ∷ []) (gsub_next anchor (s + 1) n again))
      else gsub_end s n

  module _ (pat : List ℕ) where
    unfoldable pub gsub_loop :
        ℕ → Replacement → ℤ → Bool → MatchState → ℕ → ℕ → ℕ → Run MatchError (List ℕ × ℕ)
    gsub_loop zero repl max_s anchor ms s n p = stuck
    gsub_loop (suc fuel) repl max_s anchor ms s n p =
        if ltb_ℤ (pos n) max_s
        then (do
          r ← match ctype src pat (cleared ms) s p
          on_match r
              (λ e ms'. do
                b ← add_value ms' repl s e
                prepend b (
                    if ltb s e
                    then gsub_next anchor e (n + 1)
                        (λ s' n'. gsub_loop fuel repl max_s anchor ms' s' n' p)
                    else gsub_char anchor s (n + 1)
                        (λ s' n'. gsub_loop fuel repl max_s anchor ms' s' n' p)))
              (λ ms'. gsub_char anchor s n (λ s' n'. gsub_loop fuel repl max_s anchor ms' s' n' p)))
        else gsub_end s n

    -- `ms` is the local variable before its assignments. The result and the number of substitutions
    unfoldable pub str_gsub : MatchState → Replacement → ℤ → Run MatchError (List ℕ × ℕ)
    str_gsub ms repl max_s = do
      x ← char_at pat 0
      gsub_loop (length src + 2) repl max_s (x == b'^') ms 0 0 (if x == b'^' then 1 else 0)
