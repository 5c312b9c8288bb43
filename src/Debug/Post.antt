-- ===== src/Debug/Post.antt =====
-- Postconditions of the checks: a check that is passed gives what it checks, and no check reads outside
-- or runs out of fuel.
use soft_renderer_lua.Base.{
  ℕ, zero, suc, ◌<◌, ◌≡◌, refl, subst, arith, Bool, true, false, if◌then◌else◌, some, List, [], ◌∷◌,
  length, get_elem?,
}
use soft_renderer_lua.Debug.{Verdict, passed, refused, ◌>>=◌, check, fetch}

pub data Post {A : Type 0} (Q : A → Type 0) : Verdict A → Type 0 where
  done : {x : A} → Q x → Post Q (passed x)
  declined : Post Q refused

module _ {A : Type 0} {Q : A → Type 0} where
  pub Post-passed : {v : Verdict A} {x : A} → v ≡ passed x → Post Q v → Q x
  Post-passed {x = x} e (done {x = y} q) = subst Q (cc) q
  Post-passed e declined = absurd (refused-ne e)
    where
      refused-ne : {A : Type 0} {x : A} → refused ≡ passed x → ⊥
      refused-ne h = cc

  pub bind-Post :
      {B : Type 0} {R : B → Type 0} {m : Verdict A} {f : A → Verdict B}
      → Post Q m
      → ((x : A) → Q x → Post R (f x))
      → Post R (m >>= f)
  unfolding ◌>>=◌
  bind-Post (done {x = x} q) k = k x q
  bind-Post declined k = declined

pub check-Post : (b : Bool) → Post (λ (u : Unit {0}). b ≡ true) (check b)
unfolding check
check-Post true = done refl
check-Post false = declined

-- A check, and then the rest.
pub then-Post :
    {B : Type 0} {R : B → Type 0} (b : Bool) (f : Unit {0} → Verdict B)
    → (b ≡ true → Post R (f tt))
    → Post R (check b >>= f)
unfolding ◌>>=◌ check
then-Post true f k = k refl
then-Post false f k = declined

pub fetch-Post :
    {A : Type 0} (v : List A) (i : ℕ)
    → i < length v
    → Post (λ x. get_elem? v i ≡ some x) (fetch v i)
unfolding fetch
fetch-Post [] i lt = absurd (omega arith)
fetch-Post (x ∷ v) zero lt = done refl
fetch-Post (x ∷ v) (suc i) lt = fetch-Post v i (omega arith)

pub if-Post :
    {A : Type 0} {Q : A → Type 0} (b : Bool) {x y : Verdict A}
    → (b ≡ true → Post Q x)
    → (b ≡ false → Post Q y)
    → Post Q (if b then x else y)
if-Post true h k = h refl
if-Post false h k = k refl

pub weaken-Post :
    {A : Type 0} {Q R : A → Type 0} {v : Verdict A} → ((x : A) → Q x → R x) → Post Q v → Post R v
weaken-Post h (done {x = x} q) = done (h x q)
weaken-Post h declined = declined

pub known-Post :
    {A B : Type 0} {R : B → Type 0} (x : A) (f : A → Verdict B)
    → Post R (f x)
    → Post R (passed x >>= f)
unfolding ◌>>=◌
known-Post x f p = p
