-- ===== src/Chunk/Loaded.antt =====
-- Each function of lundump.c reads the encoding of its part of a function.
use mathlib.Core.List.{append-nil}
use soft_renderer_lua.Base.{
  ℕ, suc, ◌+◌, ◌*◌, ◌≡◌, refl, ap, arith, none, some, List, [], ◌∷◌, ◌++◌, length, length-append,
}
use soft_renderer_lua.Zio.{Reader}
use soft_renderer_lua.Chunk.{Text, LocVar, to_le, from_le, header}
use soft_renderer_lua.Chunk.Dump.{words}
use soft_renderer_lua.Chunk.Bytes.{
  length-to_le, from_le-to_le, take-append_exact, drop-append_exact, bytes_eq_refl,
}
use soft_renderer_lua.Chunk.Encoding.{
  All, text_bytes, vector_bytes, locvar_bytes, list_bytes, table_bytes, IsInt, IsWord, IsText,
  IsLocVar,
}
use soft_renderer_lua.Chunk.Undump.{
  Loader, load_list, from_words, load_char, load_int, load_text, load_string, load_vector,
  load_locvar, load_locvars, load_upvalues, load_header,
}
use soft_renderer_lua.Chunk.Reading.{
  Reads, pure-Reads, bind-Reads, check-Reads, block-Reads, Reads-to,
}

length-words : (xs : List ℕ) → length (words xs) ≡ length xs * 4
unfolding words
length-words [] = refl
length-words (x ∷ xs) = rw (length-append, length-to_le) (omega (arith, length-words xs))

from_words-words : (xs : List ℕ) → All IsWord xs → from_words (length xs) (words xs) ≡ xs
unfolding words from_words
from_words-words [] h = refl
from_words-words (x ∷ xs) (hx, hxs) = rw (
  take-append_exact 4 (to_le 4 x) (words xs) (length-to_le 4 x),
  drop-append_exact 4 (to_le 4 x) (words xs) (length-to_le 4 x),
  from_le-to_le 4 x hx,
  from_words-words xs hxs,
)

byte_value : (c : ℕ) → from_le (c ∷ []) ≡ c
unfolding from_le
byte_value c = omega arith

module _ {D : Type 0} (reader : Reader D) where
  pub char-Reads : (c : ℕ) → Reads reader (load_char reader) (c ∷ []) c
  unfolding load_char
  char-Reads c =
      Reads-to reader refl (byte_value c)
        (bind-Reads reader _ (block-Reads reader 1 (c ∷ []) refl) (pure-Reads reader _))

  pub int-Reads : (x : ℕ) → IsInt x → Reads reader (load_int reader) (to_le 4 x) x
  unfolding load_int
  int-Reads x h =
      let back = from_le-to_le 4 x (omega arith) in
      Reads-to reader (append-nil (to_le 4 x)) back (
        bind-Reads reader _ (block-Reads reader 4 (to_le 4 x) (length-to_le 4 x)) (
          bind-Reads reader _ (check-Reads reader _ _ (rw back (ground arith)))
            (pure-Reads reader _)))

  pub string-Reads : (t : Text) → IsText t → Reads reader (load_string reader) (text_bytes t) t
  unfolding load_string load_text
  string-Reads none h =
      let size : from_le (to_le 8 0) ≡ 0 = from_le-to_le 8 0 (omega arith) in
      Reads-to reader (append-nil (to_le 8 0)) refl (
        bind-Reads reader _ (block-Reads reader 8 (to_le 8 0) (length-to_le 8 0))
          (rw size (pure-Reads reader none)))
  string-Reads (some s) h =
      let size : from_le (to_le 8 (length s + 1)) ≡ suc (length s) =
        omega (arith, from_le-to_le 8 (length s + 1) h) in
      bind-Reads reader _ (block-Reads reader 8 (to_le 8 (length s + 1)) (length-to_le 8 _)) (
        rw size (
          Reads-to reader (append-nil (s ++ 0 ∷ []))
            (ap some (take-append_exact (length s) s _ refl))
            (bind-Reads reader _
              (block-Reads reader (suc (length s)) (s ++ 0 ∷ [])
                (rw (length-append s (0 ∷ [])) (omega arith)))
              (pure-Reads reader _))))

  pub vector-Reads :
      (xs : List ℕ)
      → IsInt (length xs) × All IsWord xs
      → Reads reader (load_vector reader) (vector_bytes xs) xs
  unfolding load_vector
  vector-Reads xs (n, h) =
      Reads-to reader (ap (λ r. to_le 4 (length xs) ++ r) (append-nil (words xs)))
        (from_words-words xs h)
        (bind-Reads reader _ (int-Reads (length xs) n) (
          bind-Reads reader _ (block-Reads reader (length xs * 4) (words xs) (length-words xs))
            (pure-Reads reader _)))

  pub list-Reads :
      {A : Type 0} (m : Loader D A) (enc : A → List ℕ) (P : A → Type 0)
      → ((a : A) → P a → Reads reader m (enc a) a)
      → (xs : List A) → All P xs
      → Reads reader (load_list (length xs) m) (list_bytes enc xs) xs
  unfolding load_list
  list-Reads m enc P each [] h = pure-Reads reader []
  list-Reads m enc P each (x ∷ xs) (hx, hxs) =
      Reads-to reader (ap (λ r. enc x ++ r) (append-nil _)) refl (
        bind-Reads reader _ (each x hx)
          (bind-Reads reader _ (list-Reads m enc P each xs hxs) (pure-Reads reader _)))

  pub locvar-Reads :
      (v : LocVar) → IsLocVar v → Reads reader (load_locvar reader) (locvar_bytes v) v
  unfolding load_locvar
  locvar-Reads v h =
      Reads-to reader (ap (λ r. text_bytes v.varname ++ (to_le 4 v.startpc ++ r)) (append-nil _))
        refl
        (bind-Reads reader _ (string-Reads v.varname h.varname) (
          bind-Reads reader _ (int-Reads v.startpc h.startpc)
            (bind-Reads reader _ (int-Reads v.endpc h.endpc) (pure-Reads reader _))))

  pub locvars-Reads :
      (vs : List LocVar)
      → IsInt (length vs) × All IsLocVar vs
      → Reads reader (load_locvars reader) (table_bytes locvar_bytes vs) vs
  unfolding load_locvars
  locvars-Reads vs (n, h) =
      bind-Reads reader _ (int-Reads (length vs) n)
        (list-Reads (load_locvar reader) locvar_bytes IsLocVar locvar-Reads vs h)

  pub upvalues-Reads :
      (us : List Text)
      → IsInt (length us) × All IsText us
      → Reads reader (load_upvalues reader) (table_bytes text_bytes us) us
  unfolding load_upvalues
  upvalues-Reads us (n, h) =
      bind-Reads reader _ (int-Reads (length us) n)
        (list-Reads (load_string reader) text_bytes IsText string-Reads us h)

  pub header-Reads : Reads reader (load_header reader) header tt
  unfolding load_header
  header-Reads =
      bind-Reads reader _ (block-Reads reader 12 header refl)
        (check-Reads reader _ _ (bytes_eq_refl header))
