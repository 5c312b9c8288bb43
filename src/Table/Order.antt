-- ===== src/Table/Order.antt =====
-- The search of luaH_next from a position on.
use mathlib.Core.Option
use soft_renderer_lua.Base.{
  ℕ, zero, suc, ◌+◌, ◌-◌, ◌≤◌, ◌<◌, ◌≡◌, refl, arith, Bool, true, false, ltb, not, if◌then◌else◌,
  Option, none, some, List, [], ◌∷◌, length, get_elem?, lt_of_get_elem?, Bool-cases, inl, inr,
}
use soft_renderer_lua.Base.Int.{ℤ, pos, pos_part, ◌+ℤ◌}
use soft_renderer_lua.Table.{NumberOps, TValue, number, Node, Table, is_nil}
use soft_renderer_lua.Table.Traversal.{shift, scan, live_node, find_index, next_from, next_entry}

module _ {A : Type 0} (test : A → Bool) where
  -- Whether there is an element at an index, and it passes.
  abbrev passes : Option A → Bool
  passes none = false
  passes (some x) = test x

  -- The first passing index from `i` on, or that there is none.
  data First (xs : List A) (i : ℕ) : Option (ℕ × A) → Type 0 where
    no_more : ((k : ℕ) → i ≤ k → passes (get_elem? xs k) ≡ false) → First xs i none
    at :
        (j : ℕ) (x : A)
        → i ≤ j
        → get_elem? xs j ≡ some x
        → test x ≡ true
        → ((k : ℕ) → i ≤ k → k < j → passes (get_elem? xs k) ≡ false)
        → First xs i (some (j, x))

  First-skip :
      (x : A) (xs : List A) (i : ℕ) (o : Option (ℕ × A))
      → First xs i o
      → First (x ∷ xs) (suc i) (shift test o)
  First-skip x xs i none (no_more none_there) = no_more between
    where
      between : (k : ℕ) → suc i ≤ k → passes (get_elem? (x ∷ xs) k) ≡ false
      between zero lo = absurd (omega arith)
      between (suc k) lo = none_there k (omega arith)
  First-skip x xs i (some (j, y)) (at _ _ le here yes_there before) =
      at (suc j) y (omega arith) here yes_there between
    where
      between : (k : ℕ) → suc i ≤ k → k < suc j → passes (get_elem? (x ∷ xs) k) ≡ false
      between zero lo hi = absurd (omega arith)
      between (suc k) lo hi = before k (omega arith) (omega arith)

  First-zero :
      (x : A) (xs : List A) (o : Option (ℕ × A))
      → test x ≡ false
      → First (x ∷ xs) 1 o
      → First (x ∷ xs) 0 o
  First-zero x xs none fails (no_more none_there) = no_more between
    where
      between : (k : ℕ) → 0 ≤ k → passes (get_elem? (x ∷ xs) k) ≡ false
      between zero lo = fails
      between (suc k) lo = none_there (suc k) (omega arith)
  First-zero x xs (some (j, y)) fails (at _ _ le here yes_there before) =
      at j y (omega arith) here yes_there between
    where
      between : (k : ℕ) → 0 ≤ k → k < j → passes (get_elem? (x ∷ xs) k) ≡ false
      between zero lo hi = fails
      between (suc k) lo hi = before (suc k) (omega arith) hi

  scan-First : (xs : List A) (i : ℕ) → First xs i (scan test xs i)
  unfolding scan
  scan-First [] i = no_more (λ k lo. refl)
  scan-First (x ∷ xs) (suc i) = First-skip x xs i (scan test xs i) (scan-First xs i)
  scan-First (x ∷ xs) zero = elim (Bool-cases (test x)) [
    | inl yes_there ↦
        rw yes_there (at 0 x (omega arith) refl yes_there λ k lo hi. absurd (omega arith))
    | inr fails ↦
        rw fails (First-zero x xs _ fails (First-skip x xs 0 (scan test xs 0) (scan-First xs 0)))
  ]

module _ {Number : Type 0} (ops : NumberOps Number) (t : Table Number) where
  -- Whether a position of the table has a value.
  abbrev pub live : ℕ → Bool
  live p =
      if ltb p (length t.array)
      then passes (λ v. not (is_nil v)) (get_elem? t.array p)
      else passes live_node (get_elem? t.node (p - length t.array))

  -- The element at the first position with a value from `i` on.
  pub data FirstLive (i : ℕ) : Option (TValue Number × TValue Number) → Type 0 where
    over : ((k : ℕ) → i ≤ k → live k ≡ false) → FirstLive i none
    in_array :
        (j : ℕ) (v : TValue Number)
        → i ≤ j
        → get_elem? t.array j ≡ some v
        → is_nil v ≡ false
        → ((k : ℕ) → i ≤ k → k < j → live k ≡ false)
        → FirstLive i (some (number (ops.cast_num (pos (j + 1))), v))
    in_node :
        (j : ℕ) (n : Node Number)
        → i ≤ length t.array + j
        → get_elem? t.node j ≡ some n
        → is_nil n.i_val ≡ false
        → ((k : ℕ) → i ≤ k → k < length t.array + j → live k ≡ false)
        → FirstLive i (some (n.i_key, n.i_val))

  not-true : (b : Bool) → not b ≡ true → b ≡ false
  not-true true h = cc
  not-true false h = refl

  out_of_range :
      {A : Type 0} (test : A → Bool) (xs : List A) (k : ℕ)
      → length xs ≤ k
      → passes test (get_elem? xs k) ≡ false
  out_of_range test [] k le = refl
  out_of_range test (x ∷ xs) zero le = absurd (omega arith)
  out_of_range test (x ∷ xs) (suc k) le = out_of_range test xs k (omega arith)

  live_array :
      (k : ℕ)
      → k < length t.array
      → passes (λ v. not (is_nil v)) (get_elem? t.array k) ≡ false
      → live k ≡ false
  live_array k lt e =
      let within : ltb k (length t.array) ≡ true = ground arith in rw (within, e) refl

  live_node_at :
      (k : ℕ)
      → length t.array ≤ k
      → passes live_node (get_elem? t.node (k - length t.array)) ≡ false
      → live k ≡ false
  live_node_at k le e =
      let beyond : ltb k (length t.array) ≡ false = ground arith in rw (beyond, e) refl

  -- No value in the array part from `i` on: the search goes to the nodes.
  nodes_lem :
      (i : ℕ)
      → ((k : ℕ) → i ≤ k → passes (λ v. not (is_nil v)) (get_elem? t.array k) ≡ false)
      → (o : Option (ℕ × Node Number)) → First live_node t.node (i - length t.array) o
      → FirstLive i (Option.map (λ (r : ℕ × Node Number). (r.1.i_key, r.1.i_val)) o)
  nodes_lem i gone none (no_more none_there) = over λ k lo.
      elim (Bool-cases (ltb k (length t.array))) [
        | inl lt ↦ live_array k (ground arith) (gone k lo)
        | inr ge ↦ live_node_at k (ground arith) (none_there (k - length t.array) (omega arith))
      ]
  nodes_lem i gone (some (j, n)) (at _ _ le here yes_there before) =
      in_node j n (omega arith) here (not-true (is_nil n.i_val) yes_there) λ k lo hi.
        elim (Bool-cases (ltb k (length t.array))) [
          | inl lt ↦ live_array k (ground arith) (gone k lo)
          | inr ge ↦
              live_node_at k (ground arith)
                (before (k - length t.array) (omega arith) (ground arith))
        ]

  array_lem :
      (i : ℕ) (o : Option (ℕ × TValue Number))
      → scan (λ v. not (is_nil v)) t.array i ≡ o
      → First (λ v. not (is_nil v)) t.array i o
      → FirstLive i (next_from ops t i)
  unfolding next_from
  array_lem i none run (no_more none_there) =
      rw (next_from, run)
        (nodes_lem i none_there _ (scan-First live_node t.node (i - length t.array)))
  array_lem i (some (j, v)) run (at _ _ le here yes_there before) =
      rw (next_from, run)
        (in_array j v le here (not-true (is_nil v) yes_there) λ k lo hi.
          live_array k (omega (arith, lt_of_get_elem? t.array j v here)) (before k lo hi))

  next_from-FirstLive : (i : ℕ) → FirstLive i (next_from ops t i)
  next_from-FirstLive i = array_lem i _ refl (scan-First _ t.array i)

  pub next_entry-from :
      (key : TValue Number) (i : ℤ) (p : ℕ)
      → find_index ops t key ≡ some (some i)
      → pos_part (i +ℤ pos 1) ≡ p
      → (o : Option (TValue Number × TValue Number)) × (next_entry ops t key ≡ some (some o))
        × FirstLive p o
  unfolding next_entry
  next_entry-from key i p found e = (next_from ops t p, rw (found, e) refl, next_from-FirstLive p)
