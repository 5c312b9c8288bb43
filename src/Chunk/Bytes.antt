-- ===== src/Chunk/Bytes.antt =====
-- The byte representations that both directions share.
use soft_renderer_lua.Base.{
  ℕ, zero, suc, ◌/◌, ◌^◌, ◌<◌, ◌≡◌, refl, ap, arith, true, none, some, List, [], ◌∷◌, ◌++◌, length,
  take, drop,
}
use native.Mathlib.Nat.{pow-suc}
use soft_renderer_lua.Chunk.{Text, to_le, from_le, bytes_eq, same_text}

pub length-to_le : (w n : ℕ) → length (to_le w n) ≡ w
unfolding to_le
length-to_le zero n = refl
length-to_le (suc w) n = ap suc (length-to_le w (n / 256))

pub from_le-to_le : (w n : ℕ) → n < 256 ^ w → from_le (to_le w n) ≡ n
unfolding to_le from_le
from_le-to_le zero n h = omega arith
from_le-to_le (suc w) n h =
    omega (arith, pow-suc 256 w, from_le-to_le w (n / 256) (omega (arith, pow-suc 256 w)))

pub bytes_eq_refl : (s : List ℕ) → bytes_eq s s ≡ true
unfolding bytes_eq
bytes_eq_refl [] = refl
bytes_eq_refl (b ∷ bs) = ground (arith, bytes_eq_refl bs)

pub bytes_eq_lem : (s t : List ℕ) → bytes_eq s t ≡ true → s ≡ t
unfolding bytes_eq
bytes_eq_lem [] [] h = refl
bytes_eq_lem [] (b ∷ bs) h = cc
bytes_eq_lem (a ∷ s) [] h = cc
bytes_eq_lem (a ∷ s) (b ∷ t) h = ground (arith, bytes_eq_lem s t)

pub same_text_lem : (s t : Text) → same_text s t ≡ true → s ≡ t
unfolding same_text
same_text_lem none none h = refl
same_text_lem none (some t) h = cc
same_text_lem (some s) none h = cc
same_text_lem (some s) (some t) h = ap some (bytes_eq_lem s t h)

pub take-append_exact {ℓ} : {A : Type ℓ} (k : ℕ) (s t : List A) → length s ≡ k → take k (s ++ t) ≡ s
take-append_exact zero [] t h = refl
take-append_exact zero (x ∷ s) t h = absurd (omega arith)
take-append_exact (suc k) [] t h = absurd (omega arith)
take-append_exact (suc k) (x ∷ s) t h = ap (λ r. x ∷ r) (take-append_exact k s t (omega arith))

pub drop-append_exact {ℓ} : {A : Type ℓ} (k : ℕ) (s t : List A) → length s ≡ k → drop k (s ++ t) ≡ t
drop-append_exact zero [] t h = refl
drop-append_exact zero (x ∷ s) t h = absurd (omega arith)
drop-append_exact (suc k) [] t h = absurd (omega arith)
drop-append_exact (suc k) (x ∷ s) t h = drop-append_exact k s t (omega arith)
