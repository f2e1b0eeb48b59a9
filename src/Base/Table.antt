-- ===== src/Base/Table.antt =====
-- A claim about every number below a bound, checked by evaluation.
use Prim.Native.Nat.{ℕ, zero, suc, ◌<◌}
use mathlib.Core.Path.{◌≡◌}
use mathlib.Core.Bool.{Bool, true, ◌&&◌}
use native.Mathlib.Omega.{arith}
use mytests.Base.Tests.{◌==◌, ==_iff}

unfoldable pub passes : (ℕ → Bool) → ℕ → Bool
passes test zero = true
passes test (suc bound) = passes test bound && test bound

pub passes-at :
    (test : ℕ → Bool) (i bound : ℕ) → i < bound → passes test bound ≡ true → test i ≡ true
unfolding passes
passes-at test i zero lt ok = absurd (omega arith)
passes-at test i (suc bound) lt ok = ground (arith, passes-at test i bound)

-- Two functions agree below a bound.
pub agree_below :
    (f g : ℕ → ℕ) (bound : ℕ)
    → passes (λ x. f x == g x) bound ≡ true
    → (x : ℕ) → x < bound
    → f x ≡ g x
agree_below f g bound ok x lt = (==_iff _ _).0 (passes-at (λ y. f y == g y) x bound lt ok)
