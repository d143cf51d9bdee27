-- ===== src/Prelude/Split.antt =====
-- Splitting a text at a character, as Python's `split` does.
use Prim.Native.Nat.{ℕ, zero, suc}
use Prim.Native.Char.{Char, code}
use Prim.Native.String.{String, ◌++◌}
use Prim.Native.String.append
use mathlib.Core.Path.{◌≡◌, ap, ◌∙◌}
use mathlib.Core.Bool.{Bool, true, not, ◌&&◌}
use mathlib.Core.List.{List, [], ◌∷◌}
use native.Mathlib.Omega.{arith}
use document_feeder.Prelude.Tests.{eqb, if◌then◌else◌}

-- the first piece with a character in front
unfoldable pub grow : Char → List String → List String
grow c [] = String.◌∷◌ c "" ∷ []
grow c (piece ∷ pieces) = String.◌∷◌ c piece ∷ pieces

-- `text.split(sep)` for the character `sep`
unfoldable pub split : Char → String → List String
unfolding grow
split sep String.[] = "" ∷ []
split sep (String.◌∷◌ c s) =
    let rest = split sep s in if eqb (code c) (code sep) then "" ∷ rest else grow c rest

-- `text.split(sep, n)`: at most `n` cuts
unfoldable pub split_at_most : ℕ → Char → String → List String
unfolding grow
split_at_most zero sep s = s ∷ []
split_at_most (suc n) sep String.[] = "" ∷ []
split_at_most (suc n) sep (String.◌∷◌ c s) =
    let rest = split_at_most (suc n) sep s in
    let cut = split_at_most n sep s in if eqb (code c) (code sep) then "" ∷ cut else grow c rest

-- no character of the text is the separator
abbrev pub lacks : Char → String → Bool
lacks sep String.[] = true
lacks sep (String.◌∷◌ c s) = not (eqb (code c) (code sep)) && lacks sep s

pub split_at_most-append :
    (n : ℕ) (sep : Char) (a b : String)
    → lacks sep a ≡ true
    → split_at_most (suc n) sep (a ++ String.◌∷◌ sep b) ≡ a ∷ split_at_most n sep b
unfolding split_at_most grow
split_at_most-append n sep String.[] b h =
    ap (split_at_most (suc n) sep) (append.nil _) ∙ ground arith
split_at_most-append n sep (String.◌∷◌ c a) b h =
    ap (split_at_most (suc n) sep) (append.cons c a _)
    ∙ ground (arith, split_at_most-append n sep a b)
