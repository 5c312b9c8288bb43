-- ===== src/Debug/Loader.antt =====
-- The loader and the verifier together: LoadFunction of lundump.c calls luaG_checkcode on every function.
use mathlib.Core.Option.{or_else}
use soft_renderer_lua.Base.{ℕ, zero, suc, ◌-◌, ◌≡◌, refl, ap, subst, ◌<◌, Bool, true, false}
use soft_renderer_lua.Zio.{Reader, Zio}
use soft_renderer_lua.Chunk.{NumberFormat, Text, Code, Proto, Protos, proto, also}
use soft_renderer_lua.Chunk.Undump.{
  Error, Result, ok, err, Loader, then_load, check, load_string, load_int, load_char, load_vector,
  load_constants, load_locvars, load_upvalues, load_protos, load_function, undump, load_header,
  luai_maxccalls,
}
use soft_renderer_lua.Debug.{Verdict, passed, refused, outside, stuck, sizecode}
use soft_renderer_lua.Debug.Boundary.{Starts, checkcode-InBounds}
use soft_renderer_lua.Debug.Access.{InBounds, Flagged}
use soft_renderer_lua.Debug.Symbexec.{checkcode, accepts}

mutual
  -- A function, or one nested in it at any depth.
  pub data Within {Number : Type 0} (g : Proto Number) : Proto Number → Type 0 where
    itself : {f : Proto Number} → g ≡ f → Within g f
    nested : {c : _} {fs : Protos Number} → WithinSome g fs → Within g (proto c fs)

  pub data WithinSome {Number : Type 0} (g : Proto Number) : Protos Number → Type 0 where
    first : {f : Proto Number} {fs : Protos Number} → Within g f → WithinSome g (also f fs)
    other : {f : Proto Number} {fs : Protos Number} → WithinSome g fs → WithinSome g (also f fs)

-- What a load that succeeds gives.
data Ends {D A : Type 0} (Q : A → Type 0) : Result (A × Zio D) → Type 0 where
  loaded : {a : A} {z : Zio D} → Q a → Ends Q (ok (a, z))
  failed : {e : Error} → Ends Q (err e)

module _ {D A : Type 0} where
  any-Ends : (r : Result (A × Zio D)) → Ends (λ (a : A). Unit {0}) r
  any-Ends (ok (a, z)) = loaded tt
  any-Ends (err e) = failed

  Ends-ok :
      {Q : A → Type 0} {r : Result (A × Zio D)} {a : A} {z : Zio D} → r ≡ ok (a, z) → Ends Q r → Q a
  Ends-ok {Q = Q} {a = a} h (loaded {a = b} q) = subst Q (value h) q
    where
      value : {a b : A} {y z : Zio D} → ◌≡◌ {A = Result (A × Zio D)} (ok (b, y)) (ok (a, z)) → b ≡ a
      value h = cc
  Ends-ok h failed = cc

  then-Ends :
      {B : Type 0} {P : A → Type 0} {Q : B → Type 0} {r : Result (A × Zio D)} (f : A → Loader D B)
      → Ends P r
      → ((a : A) (z : Zio D) → P a → Ends Q (f a z))
      → Ends Q (then_load r f)
  then-Ends f (loaded {a = a} {z = z} p) k = k a z p
  then-Ends f failed k = failed

check-Ends :
    {D : Type 0} (b : Bool) (e : Error) (z : Zio D)
    → Ends (λ (u : Unit {0}). b ≡ true) (check b e z)
unfolding check
check-Ends true e z = loaded refl
check-Ends false e z = failed

module _ {D Number : Type 0} (reader : Reader D) (format : NumberFormat Number)
    (test : Proto Number → Bool) where
  abbrev Accepted : Proto Number → Type 0
  Accepted f = (g : Proto Number) → Within g f → test g ≡ true

  abbrev SomeAccepted : Protos Number → Type 0
  SomeAccepted fs = (g : Proto Number) → WithinSome g fs → test g ≡ true

  also-SomeAccepted :
      (f : Proto Number) (fs : Protos Number)
      → Accepted f
      → SomeAccepted fs
      → SomeAccepted (also f fs)
  also-SomeAccepted f fs one rest g (first w) = one g w
  also-SomeAccepted f fs one rest g (other w) = rest g w

  proto-Accepted :
      (c : Code Number) (fs : Protos Number)
      → test (proto c fs) ≡ true
      → SomeAccepted fs
      → Accepted (proto c fs)
  proto-Accepted c fs one rest g (itself e) = rw e one
  proto-Accepted c fs one rest g (nested w) = rest g w

  protos-Accepted :
      (n : ℕ) (m : Loader D (Proto Number)) (z : Zio D)
      → ((y : Zio D) → Ends Accepted (m y))
      → Ends SomeAccepted (load_protos n m z)
  unfolding load_protos
  protos-Accepted zero m z all = loaded λ g w. elim w [ ]
  protos-Accepted (suc n) m z all = then-Ends _ (all z) λ f z1 one.
      then-Ends _ (protos-Accepted n m z1 all)
        λ fs z2 rest. loaded (also-SomeAccepted f fs one rest)

  function-Accepted :
      (room : ℕ) (p : Text) (z : Zio D) → Ends Accepted (load_function reader format test room p z)
  unfolding load_function
  function-Accepted zero p z = failed
  function-Accepted (suc room) p z = then-Ends _ (any-Ends (load_string reader z)) λ own z1 _.
      then-Ends _ (any-Ends (load_int reader z1)) λ _ z2 _.
        then-Ends _ (any-Ends (load_int reader z2)) λ _ z3 _.
          then-Ends _ (any-Ends (load_char reader z3)) λ _ z4 _.
            then-Ends _ (any-Ends (load_char reader z4)) λ _ z5 _.
              then-Ends _ (any-Ends (load_char reader z5)) λ _ z6 _.
                then-Ends _ (any-Ends (load_char reader z6)) λ _ z7 _.
                  then-Ends _ (any-Ends (load_vector reader z7)) λ _ z8 _.
                    then-Ends _ (any-Ends (load_constants reader format z8)) λ _ z9 _.
                      then-Ends _ (any-Ends (load_int reader z9)) λ n z10 _.
                        then-Ends _
                          (protos-Accepted n _ z10 λ y. function-Accepted room (or_else own p) y)
                          λ fs z11 subs. then-Ends _ (any-Ends (load_vector reader z11)) λ _ z12 _.
                            then-Ends _ (any-Ends (load_locvars reader z12)) λ _ z13 _.
                              then-Ends _ (any-Ends (load_upvalues reader z13)) λ _ z14 _.
                                then-Ends _ (check-Ends _ _ z14)
                                  λ u z15 good. loaded (proto-Accepted _ fs good subs)

  -- Every function of a chunk that luaU_undump loads, nested ones included, has passed the check that
  -- LoadFunction makes.
  pub undump-Accepted :
      (calls : ℕ) (z z' : Zio D) (f : Proto Number)
      → undump reader format test calls z ≡ ok (f, z')
      → Accepted f
  unfolding undump
  undump-Accepted calls z z' f h = Ends-ok h (
      then-Ends _ (any-Ends (load_header reader z))
        λ u z1 _. function-Accepted (luai_maxccalls - calls) _ z1)

accepts-checkcode :
    {Number : Type 0} (f : Proto Number) → accepts f ≡ true → checkcode f ≡ passed true
unfolding accepts
accepts-checkcode f h = from (checkcode f) h
  where
    from :
        (v : Verdict Bool)
        → (elim v [ passed b ↦ b | refused ↦ false | outside ↦ false | stuck ↦ false ]) ≡ true
        → v ≡ passed true
    from (passed b) h = ap passed h
    from refused h = cc
    from outside h = cc
    from stuck h = cc

-- In every function of a chunk that luaU_undump loads with luaG_checkcode as the check, nested ones included, every
-- instruction uses, in luaV_execute, only what is there, if it is not a LOADBOOL with a C above 1.
pub undump-InBounds :
    {D Number : Type 0} (reader : Reader D) (format : NumberFormat Number) (calls : ℕ)
    (z z' : Zio D) (f : Proto Number) (c : Code Number) (fs : Protos Number) (p : ℕ)
    → undump reader format accepts calls z ≡ ok (f, z')
    → Within (proto c fs) f
    → Starts c fs p
    → p < sizecode c
    → Flagged c p
    → InBounds c fs p
undump-InBounds reader format calls z z' f c fs p run within start lt flagged =
    checkcode-InBounds c fs
      (accepts-checkcode _
        (undump-Accepted reader format accepts calls z z' f run (proto c fs) within))
      p start lt flagged
