-- ===== src/Base/Text.antt =====
-- C strings: an array up to its NUL, and `strcmp` of two of them.
use Prim.Native.Nat.{ℕ}
use mathlib.Core.Bool.{Bool, true, false, ◌&&◌}
use mathlib.Core.List.{List, [], ◌∷◌}
use mytests.Base.Tests.{◌==◌, if◌then◌else◌}

unfoldable pub c_string : List ℕ → List ℕ
c_string [] = []
c_string (b ∷ bs) = let rest = c_string bs in if b == 0 then [] else b ∷ rest

-- `strcmp(a, b) == 0`
unfoldable pub same_text : List ℕ → List ℕ → Bool
same_text [] [] = true
same_text (a ∷ as') (b ∷ bs) = (a == b) && same_text as' bs
same_text _ _ = false

-- `strncmp(a, b, strlen(b)) == 0`
unfoldable pub starts_with : List ℕ → List ℕ → Bool
starts_with bs [] = true
starts_with [] (p ∷ ps) = false
starts_with (b ∷ bs) (p ∷ ps) = (b == p) && starts_with bs ps
