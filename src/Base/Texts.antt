-- ===== src/Base/Texts.antt =====
-- Texts as Python's `str`.
use Prim.Native.Nat.{ℕ, suc, ◌+◌}
use Prim.Native.String.{String}
use mathlib.Core.Path.{◌≡◌}
use mathlib.Core.List.{List, [], ◌∷◌}
use native.Mathlib.Omega.{arith}

-- `s + t`
unfoldable pub append : String → String → String
append String.[] t = t
append (String.◌∷◌ c s) t = String.◌∷◌ c (append s t)

-- `len(s)`
unfoldable pub size : String → ℕ
size String.[] = 0
size (String.◌∷◌ c s) = suc (size s)

-- `sep.join(parts)`
unfoldable pub join : String → List String → String
unfolding append
join sep [] = ""
join sep (s ∷ []) = s
join sep (s ∷ t ∷ parts) = append s (append sep (join sep (t ∷ parts)))

pub size-append : (s t : String) → size (append s t) ≡ size s + size t
unfolding size append
size-append String.[] t = omega arith
size-append (String.◌∷◌ c s) t = omega (arith, size-append s t)
