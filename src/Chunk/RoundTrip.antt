-- ===== src/Chunk/RoundTrip.antt =====
-- lundump.c reads back what ldump.c writes, from any reader.
use mathlib.Core.List.{append-nil}
use soft_renderer_lua.Base.{
  ℕ, ◌-◌, ◌≡◌, sym, ap, subst, ◌∙◌, Bool, true, false, none, some, List, [], ◌∷◌, ◌++◌,
}
use soft_renderer_lua.Zio.{Reader, Zio, init}
use soft_renderer_lua.Zio.Stream.{Delivers, init-Holds}
use soft_renderer_lua.Chunk.{NumberFormat, Text, Proto}
use soft_renderer_lua.Chunk.Dump.{Writer, dump}
use soft_renderer_lua.Chunk.Undump.{undump, luai_maxccalls, ok, err, unexpected_end}
use soft_renderer_lua.Chunk.Encoding.{chunk_bytes, Fits}
use soft_renderer_lua.Chunk.Written.{Accepts, dump-chunk_bytes}
use soft_renderer_lua.Chunk.Restored.{
  restored, Verified, Sourced, restored_full, without_debug, restored_stripped,
}
use soft_renderer_lua.Chunk.Reading.{Reads, bind-Reads}
use soft_renderer_lua.Chunk.Loaded.{header-Reads}
use soft_renderer_lua.Chunk.Functions.{function-Reads}

-- "=?"
abbrev pub unknown_source : Text
unknown_source = some (b'=' ∷ b'?' ∷ [])

-- The parameters: the number format, the reader that the chunk is loaded from, and the verifier.
module _ {D Number : Type 0} (format : NumberFormat Number) (reader : Reader D)
    (checkcode : Proto Number → Bool) (calls : ℕ) where
  pub undump-Reads :
      (strip : Bool) (f : Proto Number)
      → Fits (luai_maxccalls - calls) f
      → Verified checkcode (restored strip f none unknown_source)
      → Reads reader
          (undump reader format checkcode calls)
          (chunk_bytes format strip f)
          (restored strip f none unknown_source)
  unfolding undump
  undump-Reads strip f h v =
      bind-Reads reader _ (header-Reads reader)
        (function-Reads reader format checkcode strip _ f none unknown_source h v)

  -- What the reader delivers, put into the stream that luaU_undump starts with.
  dumped :
      {W : Type 0} (writer : Writer W) (log : W → List ℕ) (w : W) (strip : Bool) (f : Proto Number)
      → Accepts writer log
      → log w ≡ []
      → Fits (luai_maxccalls - calls) f
      → log (dump writer format strip f w).sink ≡ chunk_bytes format strip f
  dumped writer log w strip f accepts empty fits =
      (dump-chunk_bytes writer log accepts format strip _ f w fits).1
      ∙ ap (λ t. t ++ chunk_bytes format strip f) empty

  load_all_of :
      {W : Type 0} (writer : Writer W) (log : W → List ℕ) (w : W) (d : D) (strip : Bool)
      (f : Proto Number)
      → Accepts writer log
      → log w ≡ []
      → Fits (luai_maxccalls - calls) f
      → Verified checkcode (restored strip f none unknown_source)
      → Delivers reader d (log (dump writer format strip f w).sink)
      → (z : Zio D) × (undump reader format checkcode calls (init d)
          ≡ ok (restored strip f none unknown_source, z))
  load_all_of writer log w d strip f accepts empty fits verified delivers =
      let bytes = dumped writer log w strip f accepts empty fits ∙ sym (append-nil _) in
      let (z, run, _) =
        (undump-Reads strip f fits verified).whole (init d) []
          (init-Holds reader d _ (subst (λ s. Delivers reader d s) bytes delivers)) in
      (z, run)

  -- Loading what was dumped without stripping gives the function back: when the fields of `f` are in
  -- the ranges of their C types, it is nested no deeper than LUAI_MAXCCALLS allows, each function in
  -- it has a source and is accepted by the verifier, the writer accepts every block, and the reader
  -- delivers the bytes that the writer got, in blocks of any sizes.
  pub undump-dump :
      {W : Type 0} (writer : Writer W) (log : W → List ℕ) (w : W) (d : D) (f : Proto Number)
      → Accepts writer log
      → log w ≡ []
      → Fits (luai_maxccalls - calls) f
      → Sourced f
      → Verified checkcode f
      → Delivers reader d (log (dump writer format false f w).sink)
      → (z : Zio D) × (undump reader format checkcode calls (init d) ≡ ok (f, z))
  undump-dump writer log w d f accepts empty fits sourced verified delivers =
      let same = restored_full f unknown_source sourced in
      let (z, run) =
        load_all_of writer log w d false f accepts empty fits (rw same verified) delivers in
      (z, run ∙ ap (λ g. ok (g, z)) same)

  -- Loading a stripped dump gives the function without its line numbers, local names and upvalue
  -- names, and with "=?" for every source; no source is needed, and it is this function that the
  -- verifier has to accept.
  pub undump-dump_stripped :
      {W : Type 0} (writer : Writer W) (log : W → List ℕ) (w : W) (d : D) (f : Proto Number)
      → Accepts writer log
      → log w ≡ []
      → Fits (luai_maxccalls - calls) f
      → Verified checkcode (without_debug unknown_source f)
      → Delivers reader d (log (dump writer format true f w).sink)
      → (z : Zio D) × (undump reader format checkcode calls (init d)
          ≡ ok (without_debug unknown_source f, z))
  undump-dump_stripped writer log w d f accepts empty fits verified delivers =
      let same = restored_stripped f none unknown_source in
      let (z, run) =
        load_all_of writer log w d true f accepts empty fits (rw same verified) delivers in
      (z, run ∙ ap (λ g. ok (g, z)) same)

  -- A chunk that is cut off anywhere is refused with "unexpected end": whatever proper prefix `s` of
  -- a dump the reader delivers.
  pub undump_truncated :
      {W : Type 0} (writer : Writer W) (log : W → List ℕ) (w : W) (d : D) (strip : Bool)
      (f : Proto Number) (s t : List ℕ) (c : ℕ)
      → Accepts writer log
      → log w ≡ []
      → Fits (luai_maxccalls - calls) f
      → Verified checkcode (restored strip f none unknown_source)
      → log (dump writer format strip f w).sink ≡ s ++ c ∷ t
      → Delivers reader d s
      → undump reader format checkcode calls (init d) ≡ err unexpected_end
  undump_truncated writer log w d strip f s t c accepts empty fits verified e delivers =
      (undump-Reads strip f fits verified).cut (init d) s t c
        (sym (dumped writer log w strip f accepts empty fits) ∙ e) (init-Holds reader d s delivers)
