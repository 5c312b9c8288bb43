-- ===== src/Match.antt =====
-- lstrlib.c: the pattern matcher of string.find, string.match and the others.
-- A pointer into the subject or the pattern is an index. Both end with a zero byte, which is read at the
-- index that is the length; a read past it is `outside`. The functions of ctype.h are a parameter.
pub mod Class
pub mod Parts
pub mod Engine
pub mod Items
pub mod Captures
pub mod Groups
pub mod Recall
pub mod Expand
pub mod Safe
pub mod Answers
pub mod Find
pub mod Pushes
pub mod Results
pub mod Gsub
pub mod Counts
pub mod Substitution
pub mod Bytes
pub mod Plain
mod Tests
use soft_renderer_lua.Base.{
  ℕ, zero, suc, ◌+◌, ◌-◌, ◌<◌, Bool, true, false, ◌==◌, ltb, if◌then◌else◌, Option, none, some,
  List, [], ◌∷◌, length,
}
use soft_renderer_lua.Base.Run.{Run, done, raised, outside, stuck, ◌>>=◌}

-- The messages of luaL_error.
pub data MatchError : Type 0 where
  invalid_capture_index invalid_pattern_capture ends_with_escape missing_bracket unbalanced_pattern
        too_many_captures missing_after_f unfinished_capture stack_overflow invalid_replacement
        slice_too_long invalid_value :
      MatchError

-- `*(v + i)`
unfoldable pub char_at : List ℕ → ℕ → Run MatchError ℕ
char_at [] zero = done 0
char_at [] (suc i) = outside
char_at (c ∷ v) zero = done c
char_at (c ∷ v) (suc i) = char_at v i

-- isalpha, iscntrl, isdigit, islower, ispunct, isspace, isupper, isalnum, isxdigit and tolower
pub record Ctype : Type 0 where
  pub isalpha : ℕ → Bool
  pub iscntrl : ℕ → Bool
  pub isdigit : ℕ → Bool
  pub islower : ℕ → Bool
  pub ispunct : ℕ → Bool
  pub isspace : ℕ → Bool
  pub isupper : ℕ → Bool
  pub isalnum : ℕ → Bool
  pub isxdigit : ℕ → Bool
  pub tolower : ℕ → ℕ

-- LUA_MAXCAPTURES of luaconf.h
abbrev pub lua_maxcaptures : ℕ
lua_maxcaptures = 32

-- The `len` of a capture: CAP_UNFINISHED, CAP_POSITION, or a length.
pub data CaptureLength : Type 0 where
  cap_unfinished cap_position : CaptureLength
  closed : ℕ → CaptureLength

pub record Capture : Type 0 where
  pub init : ℕ
  pub len : CaptureLength

-- struct MatchState; src_init is 0, and src_end the length of the subject.
pub record MatchState : Type 0 where
  pub level : ℕ
  pub capture : List Capture
