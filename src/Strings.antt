-- ===== src/Strings.antt =====
-- lstring.c: the strings that are alive are in one table, each once. A string is at an address that the
-- memory manager gives, which is a parameter, and a list in the table is a list of objects.
pub mod Push
pub mod Resize
pub mod Find
pub mod Interning
pub mod Newlstr
mod Tests
use soft_renderer_lua.Base.{
  ℕ, zero, suc, ◌+◌, ◌-◌, ◌*◌, ◌/◌, ◌%◌, ◌^◌, bit_and, bit_xor, Bool, true, false, not, ◌&&◌, ◌==◌,
  ltb, leb, if◌then◌else◌, Option, none, some, List, [], ◌∷◌, length, get_elem?, set,
}
use soft_renderer_lua.Chunk.{bytes_eq}
use soft_renderer_lua.Memory.{max_sizet}
use soft_renderer_lua.Table.{max_int}
use soft_renderer_lua.Table.Insert.{◌>>=◌}

-- TString with the bytes behind it; `len` is their number.
pub record TString : Type 0 where
  pub address : ℕ
  pub marked : ℕ
  pub hash : ℕ
  pub bytes : List ℕ

-- stringtable; `size` is the length of `hash`.
pub record StringTable : Type 0 where
  pub hash : List (List TString)
  pub nuse : ℕ

-- WHITEBITS
abbrev pub whitebits : ℕ
whitebits = 3

abbrev pub otherwhite : ℕ → ℕ
otherwhite currentwhite = bit_xor currentwhite whitebits

-- Of the marks of an object
unfoldable pub isdead : ℕ → ℕ → Bool
isdead currentwhite marked = not (bit_and (bit_and marked (otherwhite currentwhite)) whitebits == 0)

unfoldable pub changewhite : TString → TString
changewhite ts = record ts { marked = bit_xor ts.marked whitebits }

-- lmod
abbrev pub lmod : ℕ → ℕ → ℕ
lmod s size = bit_and s (size - 1)

-- `h ^ ((h<<5)+(h>>2)+cast(unsigned char, str[l1-1]))`
abbrev pub mix : ℕ → ℕ → ℕ
mix h c = bit_xor h ((h * 2 ^ 5 % 2 ^ 32 + h / 2 ^ 2 + c) % 2 ^ 32)

-- The loop that computes the hash; `none` is fuel that ran out.
unfoldable pub hash_loop : ℕ → List ℕ → ℕ → ℕ → ℕ → Option ℕ
hash_loop zero str step l1 h = none
hash_loop (suc fuel) str step l1 h =
    if leb step l1
    then (do c ← get_elem? str (l1 - 1); hash_loop fuel str step (l1 - step) (mix h c))
    else some h

unfoldable pub hash_of : List ℕ → Option ℕ
hash_of str =
    hash_loop (length str + 1) str (length str / 2 ^ 5 + 1) (length str) (length str % 2 ^ 32)

-- `p->gch.next = newhash[h1]; newhash[h1] = p;`
unfoldable pub push : List (List TString) → TString → Option (List (List TString))
push hash ts = do
  let h = lmod ts.hash (length hash)
  b ← get_elem? hash h
  some (set hash h (ts ∷ b))

-- The inner loop of luaS_resize
unfoldable pub rehash_list : List TString → List (List TString) → Option (List (List TString))
rehash_list [] newhash = some newhash
rehash_list (p ∷ list) newhash = do newhash' ← push newhash p; rehash_list list newhash'

-- The outer one
unfoldable pub rehash_lists :
    List (List TString) → List (List TString) → Option (List (List TString))
rehash_lists [] newhash = some newhash
rehash_lists (b ∷ lists) newhash = do newhash' ← rehash_list b newhash; rehash_lists lists newhash'

unfoldable pub empty_lists : ℕ → List (List TString)
empty_lists zero = []
empty_lists (suc n) = [] ∷ empty_lists n

-- luaS_resize; the flag is `G(L)->gcstate == GCSsweepstring`.
unfoldable pub resize : Bool → StringTable → ℕ → Option StringTable
resize true tb newsize = some tb
resize false tb newsize = do
  newhash ← rehash_lists tb.hash (empty_lists newsize)
  some (record { hash = newhash; nuse = tb.nuse })

pub data Interned : Type 0 where
  too_big : Interned
  interned : TString → StringTable → Interned

-- The part of the global state that interning reads: `currentwhite` and whether the string table is being swept.
pub record Collector : Type 0 where
  pub currentwhite : ℕ
  pub sweepstring : Bool

-- `sizeof(TString)`
abbrev pub header_size : ℕ
header_size = 24

-- newlstr; `address` is what luaM_malloc answers.
unfoldable pub newlstr : Collector → ℕ → StringTable → List ℕ → ℕ → Option Interned
newlstr g address tb str h =
    if ltb (max_sizet - header_size) (length str + 1) then some too_big else (do
      let ts : TString = record {
        address = address;
        marked = bit_and g.currentwhite whitebits;
        hash = h;
        bytes = str;
      }
      chained ← push tb.hash ts
      let tb' : StringTable = record { hash = chained; nuse = tb.nuse + 1 }
      let size = length chained
      tb'' ←
          (if ltb size (tb.nuse + 1) && leb size (max_int / 2)
            then resize g.sweepstring tb' (size * 2)
            else some tb')
      some (interned ts tb''))

-- The search in a list: a string with these bytes, brought back to life in place when it is dead.
unfoldable pub find_string : ℕ → List ℕ → List TString → Option (TString × List TString)
find_string currentwhite str [] = none
find_string currentwhite str (ts ∷ list) =
    if bytes_eq str ts.bytes
    then (let ts' = (if isdead currentwhite ts.marked then changewhite ts else ts) in
        some (ts', ts' ∷ list))
    else (do r ← find_string currentwhite str list; some (r.0, ts ∷ r.1))

-- The end of luaS_newlstr, with what the search has found
unfoldable pub after_search :
    Collector → ℕ → StringTable → List ℕ → ℕ → Option (TString × List TString) → Option Interned
after_search g address tb str h none = newlstr g address tb str h
after_search g address tb str h (some (ts, list')) =
    some (interned ts (record tb { hash = set tb.hash (lmod h (length tb.hash)) list' }))

unfoldable pub luas_newlstr : Collector → ℕ → StringTable → List ℕ → Option Interned
luas_newlstr g address tb str = do
  h ← hash_of str
  list ← get_elem? tb.hash (lmod h (length tb.hash))
  after_search g address tb str h (find_string g.currentwhite str list)
