-- ===== src/Base/Run.antt =====
-- Code that can raise an error, read outside of its data, or run out of fuel, and postconditions of it.
use mathlib.Core.Path.{◌≡◌, refl, subst}
use mathlib.Core.Logic.{◌≢◌}
use mathlib.Core.Bool.{Bool, true, false}
use soft_renderer_lua.Base.Tests.{if◌then◌else◌}

pub data Run (E A : Type 0) : Type 0 where
  done : A → Run E A
  raised : E → Run E A
  outside stuck : Run E A

infixl 5 ◌>>=◌
unfoldable pub ◌>>=◌ : {E A B : Type 0} → Run E A → (A → Run E B) → Run E B
done x >>= f = f x
raised e >>= f = raised e
outside >>= f = outside
stuck >>= f = stuck

-- A run that keeps within its data and its fuel, and whose value satisfies `Q`.
pub data Ensures {E A : Type 0} (Q : A → Type 0) : Run E A → Type 0 where
  value : {x : A} → Q x → Ensures Q (done x)
  error : {e : E} → Ensures Q (raised e)

module _ {E A : Type 0} where
  pub Ensures-bind :
      {B : Type 0} {Q : A → Type 0} {R : B → Type 0} {m : Run E A} {f : A → Run E B}
      → Ensures Q m
      → ((x : A) → Q x → Ensures R (f x))
      → Ensures R (m >>= f)
  unfolding ◌>>=◌
  Ensures-bind (value {x = x} q) k = k x q
  Ensures-bind error k = error

  pub Ensures-weaken :
      {Q R : A → Type 0} {m : Run E A} → ((x : A) → Q x → R x) → Ensures Q m → Ensures R m
  Ensures-weaken h (value {x = x} q) = value (h x q)
  Ensures-weaken h error = error

  pub Ensures-if :
      {Q : A → Type 0} (b : Bool) {x y : Run E A}
      → (b ≡ true → Ensures Q x)
      → (b ≡ false → Ensures Q y)
      → Ensures Q (if b then x else y)
  Ensures-if true h k = h refl
  Ensures-if false h k = k refl

  -- Such a run ends with a value or an error.
  pub Ensures-ends : {Q : A → Type 0} {m : Run E A} → Ensures Q m → (m ≢ outside) × (m ≢ stuck)
  Ensures-ends (value q) = (λ e. cc, λ e. cc)
  Ensures-ends error = (λ e. cc, λ e. cc)

  pub Ensures-done : {Q : A → Type 0} {m : Run E A} {x : A} → m ≡ done x → Ensures Q m → Q x
  Ensures-done {Q} {x} e (value {x = y} q) = subst Q (same e) q
    where
      same : {a b : A} → ◌≡◌ {A = Run E A} (done a) (done b) → a ≡ b
      same h = cc
  Ensures-done e error = cc
