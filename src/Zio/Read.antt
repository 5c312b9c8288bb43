-- ===== src/Zio/Read.antt =====
-- luaZ_read takes the first bytes off the stream, whatever blocks the reader cuts it into.
use soft_renderer_lua.Base.{
  ℕ, zero, suc, ◌+◌, ◌-◌, ◌≤◌, ◌≡◌, refl, ◌∙◌, arith, leb, Option, none, some, List, [], ◌∷◌, ◌++◌,
  length, take, drop, length-drop, length-append, drop-drop, take-append_left, drop-append_left,
  take-append-take-drop, if◌then◌else◌,
}
use mathlib.Core.List.{append_assoc, append-nil}
use soft_renderer_lua.Zio.{Reader, Zio, lookahead, read_round, read_loop, read}
use soft_renderer_lua.Zio.Stream.{Holds, lookahead-end, lookahead-byte}

module _ {D : Type 0} (reader : Reader D) where
  advance : Zio D → ℕ → Zio D
  advance z m = record z { n = z.n - m; pos = z.pos + m }

  -- `memcpy` of bytes that lie in the block, and the two updates after it.
  advance_lem :
      (z : Zio D) (m : ℕ) (s : List ℕ)
      → Holds reader z s
      → m ≤ z.n
      → (take m s ≡ take m (drop z.pos z.block))
        × Holds reader (advance z m) (drop m s)
        × (m ≤ length s)
  unfolding advance
  advance_lem z m s h le =
      let room : m ≤ length (drop z.pos z.block) =
        omega (arith, length-drop z.pos z.block, h.unread) in
      (
        rw h.bytes (take-append_left m _ _ room),
        record {
          later = h.later;
          delivers = h.delivers;
          bytes = rw (h.bytes, drop-append_left m _ _ room, drop-drop z.pos m z.block);
          unread = omega (arith, h.unread);
          fits = h.fits;
        },
        rw (h.bytes, length-append) (omega arith),
      )

  round-end :
      (p : Option ℕ × Zio D) (n : ℕ) (copied : List ℕ)
      (again : Zio D → ℕ → List ℕ → Option (ℕ × List ℕ × Zio D))
      → p.0 ≡ none
      → read_round p n copied again ≡ some (n, copied, p.1)
  unfolding read_round
  round-end (none, z) n copied again e = refl
  round-end (some c, z) n copied again e = cc

  -- The result of a call that has to read `n` bytes of a stream that holds `s`.
  abbrev Reads : ℕ → List ℕ → List ℕ → Option (ℕ × List ℕ × Zio D) → Type 0
  Reads n s copied r =
      (z' : Zio D) × (r ≡ some (n - length s, copied ++ take n s, z'))
      × (n ≤ length s → Holds reader z' (drop n s))

  -- The rest of the loop after `m` bytes.
  resume :
      (m k n : ℕ) (s copied : List ℕ) (r : Option (ℕ × List ℕ × Zio D))
      → m + k ≡ n
      → m ≤ length s
      → Reads k (drop m s) (copied ++ take m s) r
      → Reads n s copied r
  resume m k n s copied r e le (z', run, rest) =
      (z', run ∙ joined, λ h. rw (← e, ← drop-drop m k s) (rest (omega (arith, length-drop m s))))
    where
      missing : k - length (drop m s) ≡ n - length s
      missing = omega (arith, length-drop m s)

      joined :
          ◌≡◌ {A = Option (ℕ × List ℕ × Zio D)}
            (some (k - length (drop m s), (copied ++ take m s) ++ take k (drop m s), z'))
            (some (n - length s, copied ++ take n s, z'))
      joined = rw (append_assoc, take-append-take-drop, e, missing)

  -- The length of one copy.
  abbrev chunk : ℕ → Zio D → ℕ
  chunk n z = if leb n z.n then n else z.n

  -- One round at a stream whose block is not used up.
  round_lem :
      (z : Zio D) (c n : ℕ) (s copied : List ℕ)
      (again : Zio D → ℕ → List ℕ → Option (ℕ × List ℕ × Zio D))
      → Holds reader z s
      → ((copied' : List ℕ)
          → Holds reader (advance z (chunk n z)) (drop (chunk n z) s)
          → Reads
              (n - chunk n z)
              (drop (chunk n z) s)
              copied'
              (again (advance z (chunk n z)) (n - chunk n z) copied'))
      → Reads n s copied (read_round (some c, z) n copied again)
  unfolding read_round advance
  round_lem z c n s copied again h next =
      let (copy, h', le) = advance_lem z (chunk n z) s h (ground arith) in
      let rest = next (copied ++ take (chunk n z) s) h' in
      resume (chunk n z) (n - chunk n z) n s copied _ (ground arith) le (rw (← copy) rest)

  read_loop_lem :
      (fuel : ℕ) (z : Zio D) (n : ℕ) (s copied : List ℕ)
      → n ≤ fuel
      → Holds reader z s
      → Reads n s copied (read_loop reader fuel z n copied)
  unfolding read_loop
  read_loop_lem fuel z zero s copied le h = (z, rw append-nil (ground arith), λ _. h)
  read_loop_lem zero z (suc n) s copied le h = absurd (omega arith)
  read_loop_lem (suc fuel) z (suc n) [] copied le h = (
    (lookahead reader z).1,
    rw (round-end (lookahead reader z) (suc n) copied _ (lookahead-end reader z h), append-nil)
        (ground arith),
    λ k. absurd (omega arith),
  )
  read_loop_lem (suc fuel) z (suc n) (c ∷ t) copied le h =
      let (z₁, look, h₁, pos) = lookahead-byte reader z c t h in
      rw look (
        round_lem z₁ c (suc n) (c ∷ t) copied (read_loop reader fuel) h₁
          λ copied' h'. read_loop_lem fuel _ (suc n - chunk (suc n) z₁) _ copied' (ground arith) h')

  -- luaZ_read of `n` bytes from a stream that holds `s` ends, copies the first `n` bytes of `s`, or all of
  -- them if there are fewer, and answers how many are missing; if none is, the stream then holds
  -- the rest of `s`.
  pub read_lem :
      (z : Zio D) (n : ℕ) (s : List ℕ)
      → Holds reader z s
      → (z' : Zio D) × (read reader z n ≡ some (n - length s, take n s, z'))
        × (n ≤ length s → Holds reader z' (drop n s))
  unfolding read
  read_lem z n s h = read_loop_lem n z n s [] (omega arith) h
