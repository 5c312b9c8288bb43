-- ===== src/Chunk/Restored.antt =====
-- The function that loading a dump gives.
use mathlib.Core.Option.{or_else}
use soft_renderer_lua.Base.{ℕ, ◌≡◌, refl, ap, arith, Bool, true, false, none, some, List, []}
use soft_renderer_lua.Chunk.{Text, Code, Proto, Protos, proto, end, also, same_text}
use soft_renderer_lua.Chunk.Bytes.{same_text_lem}
use soft_renderer_lua.Chunk.Encoding.{kept, written_source}

-- What loading a dump gives: a function whose source was not written has the source `q` that was
-- loaded for the enclosing function, of source `p`; a stripped function has no debug tables.
unfoldable mutual
  pub restored : {Number : Type 0} → Bool → Proto Number → Text → Text → Proto Number
  restored strip (proto f fs) p q =
      let own = or_else (written_source strip f p) q in
      proto
        (record f {
          source = own;
          lineinfo = kept strip f.lineinfo;
          locvars = kept strip f.locvars;
          upvalues = kept strip f.upvalues;
        })
        (restored_all strip fs f.source own)

  pub restored_all : {Number : Type 0} → Bool → Protos Number → Text → Text → Protos Number
  restored_all strip end p q = end
  restored_all strip (also f fs) p q = also (restored strip f p q) (restored_all strip fs p q)

-- luaG_checkcode accepts a function and all the functions in it.
unfoldable mutual
  pub Verified : {Number : Type 0} → (Proto Number → Bool) → Proto Number → Type 0
  Verified checkcode (proto f fs) = (checkcode (proto f fs) ≡ true) × VerifiedAll checkcode fs

  pub VerifiedAll : {Number : Type 0} → (Proto Number → Bool) → Protos Number → Type 0
  VerifiedAll checkcode end = Unit {0}
  VerifiedAll checkcode (also f fs) = Verified checkcode f × VerifiedAll checkcode fs

-- Every function has a source, as the compiler leaves it.
unfoldable mutual
  pub Sourced : {Number : Type 0} → Proto Number → Type 0
  Sourced (proto f fs) = ((s : List ℕ) × (f.source ≡ some s)) × SourcedAll fs

  pub SourcedAll : {Number : Type 0} → Protos Number → Type 0
  SourcedAll end = Unit {0}
  SourcedAll (also f fs) = Sourced f × SourcedAll fs

own_source :
    {Number : Type 0} (f : Code Number) (p : Text) (s : List ℕ)
    → f.source ≡ some s
    → or_else (written_source false f p) p ≡ f.source
unfolding or_else
own_source f p s e = ground (arith, same_text_lem f.source p)

top_source :
    {Number : Type 0} (f : Code Number) (q : Text) (s : List ℕ)
    → f.source ≡ some s
    → or_else (written_source false f none) q ≡ f.source
unfolding or_else same_text
top_source f q s e = rw e

mutual
  unfolding restored restored_all Sourced SourcedAll

  restored_own :
      {Number : Type 0} (f : Proto Number) (p : Text) → Sourced f → restored false f p p ≡ f
  restored_own (proto f fs) p ((s, e), h) =
      rw (own_source f p s e) (ap (proto f) (restored_all_own fs f.source h))

  restored_all_own :
      {Number : Type 0} (fs : Protos Number) (p : Text)
      → SourcedAll fs
      → restored_all false fs p p ≡ fs
  restored_all_own end p h = refl
  restored_all_own (also f fs) p (h, hs) = rw (restored_own f p h, restored_all_own fs p hs)

-- A dump that is not stripped gives the function back.
pub restored_full :
    {Number : Type 0} (f : Proto Number) (q : Text) → Sourced f → restored false f none q ≡ f
unfolding restored Sourced
restored_full (proto f fs) q ((s, e), h) =
    rw (top_source f q s e) (ap (proto f) (restored_all_own fs f.source h))

-- A function with no debug tables, and `q` for every source.
unfoldable mutual
  pub without_debug : {Number : Type 0} → Text → Proto Number → Proto Number
  without_debug q (proto f fs) =
      proto (record f { source = q; lineinfo = []; locvars = []; upvalues = [] })
        (without_debug_all q fs)

  pub without_debug_all : {Number : Type 0} → Text → Protos Number → Protos Number
  without_debug_all q end = end
  without_debug_all q (also f fs) = also (without_debug q f) (without_debug_all q fs)

stripped_source :
    {Number : Type 0} (f : Code Number) (p q : Text) → or_else (written_source true f p) q ≡ q
unfolding or_else
stripped_source f p q = ground arith

mutual
  unfolding restored restored_all without_debug without_debug_all

  pub restored_stripped :
      {Number : Type 0} (f : Proto Number) (p q : Text) → restored true f p q ≡ without_debug q f
  restored_stripped (proto f fs) p q =
      rw (stripped_source f p q, restored_all_stripped fs f.source q)

  restored_all_stripped :
      {Number : Type 0} (fs : Protos Number) (p q : Text)
      → restored_all true fs p q ≡ without_debug_all q fs
  restored_all_stripped end p q = refl
  restored_all_stripped (also f fs) p q = rw (restored_stripped f p q, restored_all_stripped fs p q)
