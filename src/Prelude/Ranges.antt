-- ===== src/Prelude/Ranges.antt =====
-- A Boolean test over a range of numbers, by evaluation.
use Prim.Native.Nat.{ℕ, zero, suc, ◌+◌, ◌<◌}
use mathlib.Core.Path.{◌≡◌, subst}
use mathlib.Core.Bool.{Bool, true, ◌&&◌}
use native.Mathlib.Omega.{arith}

-- Whether a test holds of the `len` numbers from `first` on.
unfoldable pub passes : (ℕ → Bool) → (first len : ℕ) → Bool
passes test first zero = true
passes test first (suc len) = test first && passes test (first + 1) len

passes-at :
    (test : ℕ → Bool) (first len k : ℕ)
    → passes test first len ≡ true
    → k < len
    → test (first + k) ≡ true
unfolding passes
passes-at test first (suc len) zero h lt = ground arith
passes-at test first (suc len) (suc k) h lt =
    let next : first + suc k ≡ (first + 1) + k = omega arith in
    rw next (passes-at test (first + 1) len k (ground arith) (omega arith))
passes-at test first zero k h lt = absurd (omega arith)

pub passes-below :
    (test : ℕ → Bool) (len k : ℕ) → passes test 0 len ≡ true → k < len → test k ≡ true
passes-below test len k h lt =
    let same : 0 + k ≡ k = omega arith in
    subst (λ x. test x ≡ true) same (passes-at test 0 len k h lt)
