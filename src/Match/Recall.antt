-- ===== src/Match/Recall.antt =====
-- match_capture reads only the captures and the subject, and ends within it.
use soft_renderer_lua.Base.{
  ℕ, ◌+◌, ◌-◌, ◌≤◌, ◌<◌, ◌≡◌, refl, arith, Bool, true, false, ◌&&◌, ◌||◌, ltb, leb, if◌then◌else◌,
  Option, none, some, List, length,
}
use soft_renderer_lua.Base.Run.{Ensures, value, error, Ensures-bind, Ensures-if}
use soft_renderer_lua.Match.{CaptureLength, cap_unfinished, cap_position, closed, MatchState}
use soft_renderer_lua.Match.Parts.{
  is_unfinished, check_capture, match_capture, capture_again, mem_cmp, same_part, part,
}
use soft_renderer_lua.Match.Captures.{Fits, Inv}
use soft_renderer_lua.Match.Groups.{found-Ensures}

-- Where a match of a part of the subject ends.
abbrev pub Ends : ℕ → ℕ → Option ℕ → Type 0
Ends n s none = Unit {0}
Ends n s (some e) = s ≤ e × e ≤ n

check_capture-Ensures :
    {n s : ℕ} (ms : MatchState) (l : ℕ)
    → Inv n s ms
    → Ensures (λ c. Fits n s c.init c.len) (check_capture ms l)
unfolding check_capture
check_capture-Ensures ms l inv =
    Ensures-if (ltb l b'1' || leb ms.level (l - b'1')) (λ h. error)
      λ h.
        let lt : l - b'1' < ms.level = ground arith in
        Ensures-bind
          (found-Ensures ms.capture (l - b'1') (omega (arith, lt, inv.size, inv.bounded)))
          λ c e.
            Ensures-if (is_unfinished c.len) (λ k. error)
              (λ k. value (inv.inside (l - b'1') c lt e))

pub mem_cmp-Ensures :
    (u : List ℕ) (a : ℕ) (v : List ℕ) (b n : ℕ)
    → a + n ≤ length u
    → b + n ≤ length v
    → Ensures (λ r. r ≡ same_part (part u a n) (part v b n)) (mem_cmp u a v b n)
unfolding mem_cmp
mem_cmp-Ensures u a v b n le le' =
    Ensures-if (leb (a + n) (length u) && leb (b + n) (length v)) (λ h. value refl)
      (λ h. absurd (ground arith))

capture_again-Ensures :
    (src : List ℕ) (s init : ℕ) (len : CaptureLength)
    → s ≤ length src
    → Fits (length src) s init len
    → Ensures (Ends (length src) s) (capture_again src s init len)
unfolding capture_again
capture_again-Ensures src s init cap_unfinished le fits = value tt
capture_again-Ensures src s init cap_position le fits = value tt
capture_again-Ensures src s init (closed k) le fits =
    Ensures-if (leb k (length src - s))
      (λ h.
        let le' : s + k ≤ length src = ground arith in
        Ensures-bind (mem_cmp-Ensures src init src s k fits le')
          λ same e. value (end_at (length src) s k same le'))
      (λ h. value tt)
  where
    end_at : (n s k : ℕ) (b : Bool) → s + k ≤ n → Ends n s (if b then some (s + k) else none)
    end_at n s k true le = (omega arith, le)
    end_at n s k false le = tt

pub match_capture-Ensures :
    (src : List ℕ) {s : ℕ} (ms : MatchState) (l : ℕ)
    → Inv (length src) s ms
    → Ensures (Ends (length src) s) (match_capture src ms s l)
unfolding match_capture
match_capture-Ensures src ms l inv =
    Ensures-bind (check_capture-Ensures ms l inv)
      λ c fits. capture_again-Ensures src _ c.init c.len inv.within fits
