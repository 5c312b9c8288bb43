-- ===== src/Zio/Stream.antt =====
-- What a stream still holds, and that reading a byte takes it off.
use soft_renderer_lua.Base.{
  ℕ, suc, ◌+◌, ◌-◌, ◌%◌, ◌^◌, ◌<◌, ◌≡◌, refl, sym, ap, ◌∙◌, arith, false, ◌==◌, Option, none, some,
  List, [], ◌∷◌, ◌++◌, length, get_or, drop, drop-all, drop-get_or, ltb, Bool-cases, ◌⊎◌, inl, inr,
}
use native.Mathlib.Numerals.{add-one}
use soft_renderer_lua.Zio.{Reader, Zio, current, init, put_back, fill_with, fill, lookahead, zgetc}

module _ {D : Type 0} (reader : Reader D) where
  -- From the state `d` the reader delivers the bytes `s`, in blocks of its choice, and then the end.
  pub data Delivers : D → List ℕ → Type 0 where
    null : {d d' : D} → reader d ≡ (none, d') → Delivers d []
    empty : {d d' : D} → reader d ≡ (some [], d') → Delivers d []
    block :
        {d d' : D} {s : List ℕ} (b : ℕ) (bs rest : List ℕ)
        → reader d ≡ (some (b ∷ bs), d')
        → length (b ∷ bs) < 2 ^ 64
        → s ≡ (b ∷ bs) ++ rest
        → Delivers d' rest
        → Delivers d s

  -- The stream holds the bytes `s`: the unread part of its block, then what the reader delivers.
  pub record Holds (z : Zio D) (s : List ℕ) : Type 0 where
    pub later : List ℕ
    pub delivers : Delivers z.source later
    pub bytes : s ≡ drop z.pos z.block ++ later
    pub unread : z.pos + z.n ≡ length z.block
    pub fits : length z.block < 2 ^ 64

  pub init-Holds : (d : D) (s : List ℕ) → Delivers d s → Holds (init d) s
  unfolding init
  init-Holds d s h = record {
    later = s;
    delivers = h;
    bytes = refl;
    unread = omega arith;
    fits = omega arith;
  }

  -- A refill answers with the next byte and holds the bytes after it, or finds the end.
  fill_lem :
      (z : Zio D) {d : D} {s : List ℕ}
      → z.source ≡ d
      → Delivers d s
      → ((s ≡ []) × ((fill reader z).0 ≡ none))
        ⊎ ((c : ℕ) × (t : List ℕ) × (z' : Zio D) × (s ≡ c ∷ t)
            × (fill reader z ≡ (some c, z'))
            × (z'.pos ≡ 1)
            × (get_or z'.block 0 0 ≡ c)
            × Holds z' t)
  unfolding fill fill_with
  fill_lem z e (null r) = inl (refl, rw (e, r))
  fill_lem z e (empty r) = inl (refl, rw (e, r))
  fill_lem z e (block {d' = d'} b bs rest r small split more) = inr (
    b,
    bs ++ rest,
    record { n = length bs; block = b ∷ bs; pos = 1; source = d' },
    split,
    rw (e, r),
    refl,
    refl,
    record { later = rest; delivers = more; bytes = refl; unread = omega arith; fits = small },
  )

  -- With an empty block the stream holds what the reader delivers.
  used_up : (z : Zio D) {s : List ℕ} (h : Holds z s) → z.n ≡ 0 → s ≡ h.later
  used_up z h e =
      h.bytes ∙ ap (λ t. t ++ h.later) (drop-all z.block z.pos (omega (arith, h.unread)))

  left_over : (z : Zio D) {s : List ℕ} → Holds z s → (z.n == 0) ≡ false → z.pos < length z.block
  left_over z h e = ground (arith, h.unread)

  next_byte :
      (z : Zio D) {s : List ℕ} (h : Holds z s)
      → z.pos < length z.block
      → s ≡ current z ∷ (drop (suc z.pos) z.block ++ h.later)
  next_byte z h lt = h.bytes ∙ ap (λ t. t ++ h.later) (drop-get_or z.block z.pos 0 lt)

  put_back-none : (p : Option ℕ × Zio D) → p.0 ≡ none → (put_back p).0 ≡ none
  unfolding put_back
  put_back-none (none, z) e = refl
  put_back-none (some c, z) e = cc

  -- luaZ_lookahead at the end of the stream answers EOZ.
  pub lookahead-end : (z : Zio D) → Holds z [] → (lookahead reader z).0 ≡ none
  unfolding lookahead
  lookahead-end z h = elim (Bool-cases (z.n == 0)) [
    | inl out ↦
        let e = used_up z h (ground arith) in
        elim (fill_lem z refl h.delivers) [
          | inl (_, r) ↦ rw out (put_back-none (fill reader z) r)
          | inr (c, t, z', split, _, _, _, _) ↦ absurd (cc (e, split))
        ]
    | inr left ↦ absurd (cc (next_byte z h (left_over z h left)))
  ]

  reread : Zio D → Zio D
  reread z = record z { n = (z.n + 1) % 2 ^ 64; pos = z.pos - 1 }

  put_back_lem :
      (z : Zio D) (c : ℕ) (t : List ℕ)
      → z.pos ≡ 1
      → get_or z.block 0 0 ≡ c
      → Holds z t
      → (put_back (some c, z) ≡ (some c, reread z)) × Holds (reread z) (c ∷ t) × (0 < (reread z).n)
  unfolding put_back reread
  put_back_lem z c t first byte h =
      let zero_pos : z.pos - 1 ≡ 0 = omega arith in
      let count : (z.n + 1) % 2 ^ 64 ≡ z.n + 1 = omega (arith, h.unread, h.fits) in
      let filled : 0 < length z.block = omega (arith, h.unread) in
      (
        rw (zero_pos, byte),
        record {
          later = h.later;
          delivers = h.delivers;
          bytes =
              rw (zero_pos, h.bytes, first, ← byte)
                (ap (λ t. t ++ h.later) (sym (drop-get_or z.block 0 0 filled)));
          unread = omega (arith, h.unread);
          fits = h.fits;
        },
        omega arith,
      )

  -- luaZ_lookahead shows the next byte, leaves it in the stream, and has it in its block.
  pub lookahead-byte :
      (z : Zio D) (c : ℕ) (t : List ℕ)
      → Holds z (c ∷ t)
      → (z' : Zio D) × (lookahead reader z ≡ (some c, z')) × Holds z' (c ∷ t) × (0 < z'.n)
  unfolding lookahead
  lookahead-byte z c t h = elim (Bool-cases (z.n == 0)) [
    | inl out ↦
        let e = used_up z h (ground arith) in
        elim (fill_lem z refl h.delivers) [
          | inl (none_left, _) ↦ absurd (cc (e, none_left))
          | inr (c', t', z', split, run, first, byte, h') ↦
              let (run', h'', pos) = put_back_lem z' c' t' first byte h' in
              let same : c ≡ c' = cc (e ∙ split) in
              (reread z', rw (out, run, run', same), rw (e, split) h'', pos)
        ]
    | inr left ↦ (z, rw left (cc (next_byte z h (left_over z h left))), h, ground arith)
  ]

  -- zgetc on a stream that holds a byte answers that byte and takes it off the stream.
  pub zgetc-byte :
      (z : Zio D) (c : ℕ) (t : List ℕ)
      → Holds z (c ∷ t)
      → (z' : Zio D) × (zgetc reader z ≡ (some c, z')) × Holds z' t
  unfolding zgetc
  zgetc-byte z c t h = elim (Bool-cases (ltb 0 z.n)) [
    | inl left ↦
        let e = next_byte z h (ground (arith, h.unread)) in
        let same : current z ≡ c = cc e in
        (
          record z { n = z.n - 1; pos = z.pos + 1 },
          rw (left, same),
          record {
            later = h.later;
            delivers = h.delivers;
            bytes = rw add-one (cc e);
            unread = ground (arith, h.unread);
            fits = h.fits;
          },
        )
    | inr out ↦
        let e = used_up z h (ground arith) in
        elim (fill_lem (record z { n = 2 ^ 64 - 1 }) refl h.delivers) [
          | inl (none_left, _) ↦ absurd (cc (e, none_left))
          | inr (c', t', z', split, run, first, byte, h') ↦
              let same : c' ≡ c = cc (e ∙ split) in
              let rest : t ≡ t' = cc (e ∙ split) in (z', rw (out, run, same), rw rest h')
        ]
  ]

  fill_n : (z : Zio D) → (fill reader z).0 ≡ none → (fill reader z).1.n ≡ z.n
  unfolding fill fill_with
  fill_n z = fill_with_n (reader z.source) z
    where
      fill_with_n :
          (r : Option (List ℕ) × D) (z : Zio D)
          → (fill_with r z).0 ≡ none
          → (fill_with r z).1.n ≡ z.n
      fill_with_n (none, d) z e = refl
      fill_with_n (some [], d) z e = refl
      fill_with_n (some (b ∷ bs), d) z e = cc

  -- zgetc at the end of the stream answers EOZ and leaves the wrapped counter `n` behind, by which
  -- the next zgetc would read outside the block.
  pub zgetc-end :
      (z : Zio D) → Holds z [] → ((zgetc reader z).0 ≡ none) × ((zgetc reader z).1.n ≡ 2 ^ 64 - 1)
  unfolding zgetc
  zgetc-end z h = elim (Bool-cases (ltb 0 z.n)) [
    | inl left ↦ absurd (cc (next_byte z h (ground (arith, h.unread))))
    | inr out ↦
        let e = used_up z h (ground arith) in
        elim (fill_lem (record z { n = 2 ^ 64 - 1 }) refl h.delivers) [
          | inl (_, r) ↦ rw out (r, fill_n _ r)
          | inr (c, t, z', split, _, _, _, _) ↦ absurd (cc (e, split))
        ]
  ]
