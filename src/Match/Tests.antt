-- ===== src/Match/Tests.antt =====
-- Runs of the pattern matcher, with the functions of ctype.h for ASCII.
use soft_renderer_lua.Base.{
  ℕ, ◌+◌, Bool, ◌&&◌, ◌||◌, ◌==◌, leb, if◌then◌else◌, Option, none, some, List, [], ◌∷◌, replicate,
  ◌≡◌, refl,
}
use soft_renderer_lua.Base.Run.{Run, done, raised, outside, stuck, ◌>>=◌}
use soft_renderer_lua.Match.{MatchError, char_at, Ctype, closed, Capture, MatchState}
use soft_renderer_lua.Base.Int.{negsuc, pos, pos_part}
use soft_renderer_lua.Match.Gsub.{
  Replacement, template, str_gsub, gsub_loop, gsub_char, prepend, add_value, add_loop, add_escape,
}
use soft_renderer_lua.Match.Find.{on_match, push_onecapture, push_length}
use soft_renderer_lua.Match.Substitution.{str_gsub-Bounded, str_gsub-unchanged}
use soft_renderer_lua.Base.Run.{Ensures}
use soft_renderer_lua.Base.{◌≤◌, ◌≢◌, arith, true, false, leb}
use soft_renderer_lua.Match.Captures.{Inv, Same}
use soft_renderer_lua.Match.Parts.{mem_cmp, same_part}
use soft_renderer_lua.Match.Answers.{match-total, match-InSubject, match-Same}
use soft_renderer_lua.Match.Find.{
  lmemfind, lmemfind_loop, lmemfind_round, mem_chr, str_find_aux, gmatch_aux,
}
use soft_renderer_lua.Match.Plain.{FirstFrom, lmemfind-FirstFrom}
use soft_renderer_lua.Match.Pushes.{AllIn}
use soft_renderer_lua.Match.Results.{Advances, str_find_aux-InSubject, gmatch_aux-Advances}
use soft_renderer_lua.Match.Class.{
  classend, class_loop, singlematch, matchbracketclass, bracket_loop, bracket_round, match_class,
  class_test,
}
use soft_renderer_lua.Match.Parts.{
  matchbalance, balance_loop, balance_round, or_null, or_else, start_capture, end_capture, set_len,
  capture_to_close,
}
use soft_renderer_lua.Match.Engine.{
  match, match_from, match_item, match_default, single, max_expand, count_loop, try_loop,
  match_escape, expand_loop,
}

abbrev range : ℕ → ℕ → ℕ → Bool
range a b c = leb a c && leb c b

abbrev ascii : Ctype
ascii = record {
  isalpha = λ c. range 65 90 c || range 97 122 c;
  iscntrl = λ c. leb c 31 || c == 127;
  isdigit = range 48 57;
  islower = range 97 122;
  ispunct = λ c. range 33 47 c || range 58 64 c || range 91 96 c || range 123 126 c;
  isspace = λ c. range 9 13 c || c == 32;
  isupper = range 65 90;
  isalnum = λ c. range 48 57 c || range 65 90 c || range 97 122 c;
  isxdigit = λ c. range 48 57 c || range 65 70 c || range 97 102 c;
  tolower = λ c. if range 65 90 c then c + 32 else c;
}

abbrev no_capture : Capture
no_capture = record { init = 0; len = closed 0 }

abbrev start : MatchState
start = record { level = 0; capture = replicate 32 no_capture }

abbrev end_of : Run MatchError (Option ℕ × MatchState) → Option ℕ
end_of (done (r, ms)) = r
end_of (raised e) = none
end_of outside = none
end_of stuck = none

-- "abcab" against "a(.-)(a)b"
abbrev subject : List ℕ
subject = 97 ∷ 98 ∷ 99 ∷ 97 ∷ 98 ∷ []

abbrev pattern1 : List ℕ
pattern1 = 97 ∷ 40 ∷ 46 ∷ 45 ∷ 41 ∷ 40 ∷ 97 ∷ 41 ∷ 98 ∷ []

match-pattern1 : end_of (match ascii subject pattern1 start 0 0) ≡ some 5
unfolding match_from match_item ◌>>=◌ char_at match_default classend class_loop single singlematch
    matchbracketclass bracket_loop bracket_round max_expand count_loop try_loop match_escape
    matchbalance balance_loop balance_round or_null or_else start_capture end_capture set_len
    capture_to_close expand_loop match_class class_test
match-pattern1 = refl

-- "[a-b]*c%a+$"
abbrev pattern2 : List ℕ
pattern2 = 91 ∷ 97 ∷ 45 ∷ 98 ∷ 93 ∷ 42 ∷ 99 ∷ 37 ∷ 97 ∷ 43 ∷ 36 ∷ []

match-pattern2 : end_of (match ascii subject pattern2 start 0 0) ≡ some 5
unfolding match_from match_item ◌>>=◌ char_at match_default classend class_loop single singlematch
    matchbracketclass bracket_loop bracket_round max_expand count_loop try_loop match_escape
    matchbalance balance_loop balance_round or_null or_else start_capture end_capture set_len
    capture_to_close expand_loop match_class class_test
match-pattern2 = refl

-- "%bacc"
abbrev pattern3 : List ℕ
pattern3 = 37 ∷ 98 ∷ 97 ∷ 99 ∷ 97 ∷ []

match-pattern3 : end_of (match ascii subject pattern3 start 0 0) ≡ some 4
unfolding match_from match_item ◌>>=◌ char_at match_default classend class_loop single singlematch
    matchbracketclass bracket_loop bracket_round max_expand count_loop try_loop match_escape
    matchbalance balance_loop balance_round or_null or_else start_capture end_capture set_len
    capture_to_close expand_loop match_class class_test
match-pattern3 = refl

start-Inv : Inv 5 0 start
start-Inv = record {
  size = refl;
  bounded = omega arith;
  within = omega arith;
  inside = λ i c lt e. elim lt [ ];
}

abbrev state_of : Run MatchError (Option ℕ × MatchState) → MatchState
state_of (done (r, ms)) = ms
state_of (raised e) = start
state_of outside = start
state_of stuck = start

-- "(x)" does not match.
abbrev pattern4 : List ℕ
pattern4 = b'(' ∷ b'x' ∷ b')' ∷ []

match-total_example :
    match ascii subject pattern1 start 0 0 ≢ outside
    × match ascii subject pattern1 start 0 0 ≢ stuck
match-total_example = match-total ascii refl subject pattern1 start 0 0 (omega arith) start-Inv

run1 :
    match ascii subject pattern1 start 0 0
    ≡ done (some 5, state_of (match ascii subject pattern1 start 0 0))
unfolding match_from match_item ◌>>=◌ char_at match_default classend class_loop single singlematch
    matchbracketclass bracket_loop bracket_round max_expand count_loop try_loop match_escape
    matchbalance balance_loop balance_round or_null or_else start_capture end_capture set_len
    capture_to_close expand_loop match_class class_test
run1 = refl

match-InSubject_example : 0 ≤ 5 × Inv 5 5 (state_of (match ascii subject pattern1 start 0 0))
match-InSubject_example =
    match-InSubject ascii refl subject pattern1 start 0 0 (omega arith) start-Inv 5
      (state_of (match ascii subject pattern1 start 0 0)) run1

run4 :
    match ascii subject pattern4 start 0 0
    ≡ done (none, state_of (match ascii subject pattern4 start 0 0))
unfolding match_from match_item ◌>>=◌ char_at match_default classend class_loop single singlematch
    matchbracketclass bracket_loop bracket_round max_expand count_loop try_loop match_escape
    matchbalance balance_loop balance_round or_null or_else start_capture end_capture set_len
    capture_to_close expand_loop match_class class_test
run4 = refl

match-Same_example : Same start (state_of (match ascii subject pattern4 start 0 0))
match-Same_example =
    match-Same ascii refl subject pattern4 start 0 0 (omega arith) start-Inv
      (state_of (match ascii subject pattern4 start 0 0)) run4

-- "ab" from the second character on
abbrev text_ab : List ℕ
text_ab = b'a' ∷ b'b' ∷ []

lmemfind-FirstFrom_example : Ensures (FirstFrom subject text_ab 1) (lmemfind subject text_ab 1 4 2)
lmemfind-FirstFrom_example = lmemfind-FirstFrom subject text_ab 1 (omega arith)

lmemfind-text_ab : lmemfind subject text_ab 1 4 2 ≡ done (some 3)
unfolding lmemfind lmemfind_loop lmemfind_round mem_chr char_at mem_cmp same_part ◌>>=◌
lmemfind-text_ab = refl

abbrev enough : ℕ → Bool
enough n = leb n 100

str_find_aux-InSubject_example :
    Ensures (AllIn 5) (str_find_aux ascii enough subject pattern1 start true false (negsuc 4))
str_find_aux-InSubject_example =
    str_find_aux-InSubject ascii refl enough subject pattern1 start true false (negsuc 4) refl

gmatch_aux-Advances_example :
    Ensures (Advances 5 1) (gmatch_aux ascii enough subject pattern2 start 1)
gmatch_aux-Advances_example = gmatch_aux-Advances ascii refl enough subject pattern2 start 1 refl

abbrev no_text : ℕ → List ℕ
no_text n = []

-- "[%0%1]"
abbrev brackets : Replacement
brackets = template (b'[' ∷ b'%' ∷ b'0' ∷ b'%' ∷ b'1' ∷ b']' ∷ [])

str_gsub-Bounded_example :
    Ensures
      (λ r. r.1 ≤ pos_part (pos 9) × r.1 ≤ 6)
      (str_gsub ascii enough no_text subject pattern1 start brackets (pos 9))
str_gsub-Bounded_example =
    str_gsub-Bounded ascii enough no_text subject refl pattern1 brackets tt start (pos 9) refl

not_found :
    str_gsub ascii enough no_text subject pattern4 start brackets (pos 9) ≡ done (subject, 0)
unfolding match_from match_item ◌>>=◌ char_at match_default classend class_loop single singlematch
    matchbracketclass bracket_loop bracket_round max_expand count_loop try_loop match_escape
    matchbalance balance_loop balance_round or_null or_else start_capture end_capture set_len
    capture_to_close expand_loop match_class class_test on_match str_gsub gsub_loop gsub_char
    prepend add_value add_loop add_escape push_onecapture push_length
not_found = refl

str_gsub-unchanged_example : subject ≡ subject
str_gsub-unchanged_example =
    str_gsub-unchanged ascii enough no_text subject refl pattern4 brackets tt start (pos 9) subject
      refl not_found

-- gsub("abcab", "([a-b])", "[%0%1]", 2)
abbrev class_pattern : List ℕ
class_pattern = b'(' ∷ b'[' ∷ b'a' ∷ b'-' ∷ b'b' ∷ b']' ∷ b')' ∷ []

substituted :
    str_gsub ascii enough no_text (b'c' ∷ b'a' ∷ b'c' ∷ []) class_pattern start brackets (pos 2)
    ≡ done (b'c' ∷ b'[' ∷ b'a' ∷ b'a' ∷ b']' ∷ b'c' ∷ [], 1)
unfolding match_from match_item ◌>>=◌ char_at match_default classend class_loop single singlematch
    matchbracketclass bracket_loop bracket_round max_expand count_loop try_loop match_escape
    matchbalance balance_loop balance_round or_null or_else start_capture end_capture set_len
    capture_to_close expand_loop match_class class_test on_match str_gsub gsub_loop gsub_char
    prepend add_value add_loop add_escape push_onecapture push_length
substituted = refl
