-- ===== src/Prelude/Decimal.antt =====
-- Python's `str(n)` and `int(text)` on natural numbers, as the settings table uses them.
use Prim.Native.Nat.{ℕ, zero, suc, ◌+◌, ◌-◌, ◌*◌, ◌/◌, ◌%◌, ◌<◌}
use Prim.Native.Char.{Char, char, code}
use Prim.Native.String.{String, [], ◌∷◌}
use mathlib.Core.Path.{◌≡◌, refl, ap, ◌∙◌}
use mathlib.Core.Logic.{inl, inr}
use mathlib.Core.Bool.{◌&&◌}
use mathlib.Core.Option.{Option, none, some}
use native.Mathlib.Omega.{arith}
use document_feeder.Prelude.Tests.{leb, eqb, if◌then◌else◌, Bool-cases}

-- the digit of a number below ten
digit : ℕ → Char
digit zero = char 48 tt
digit (suc zero) = char 49 tt
digit (suc (suc zero)) = char 50 tt
digit (suc (suc (suc zero))) = char 51 tt
digit (suc (suc (suc (suc zero)))) = char 52 tt
digit (suc (suc (suc (suc (suc zero))))) = char 53 tt
digit (suc (suc (suc (suc (suc (suc zero)))))) = char 54 tt
digit (suc (suc (suc (suc (suc (suc (suc zero))))))) = char 55 tt
digit (suc (suc (suc (suc (suc (suc (suc (suc zero)))))))) = char 56 tt
digit (suc (suc (suc (suc (suc (suc (suc (suc (suc n))))))))) = char 57 tt

code-digit : (n : ℕ) → n < 10 → code (digit n) ≡ 48 + n
unfolding digit
code-digit zero h = refl
code-digit (suc zero) h = refl
code-digit (suc (suc zero)) h = refl
code-digit (suc (suc (suc zero))) h = refl
code-digit (suc (suc (suc (suc zero)))) h = refl
code-digit (suc (suc (suc (suc (suc zero))))) h = refl
code-digit (suc (suc (suc (suc (suc (suc zero)))))) h = refl
code-digit (suc (suc (suc (suc (suc (suc (suc zero))))))) h = refl
code-digit (suc (suc (suc (suc (suc (suc (suc (suc zero)))))))) h = refl
code-digit (suc (suc (suc (suc (suc (suc (suc (suc (suc n))))))))) h = omega arith

-- the digits of `n` in front of a text; a number has fewer digits than one more than its value
print_onto : ℕ → ℕ → String → String
print_onto zero n acc = acc
print_onto (suc f) n acc =
    let longer = print_onto f (n / 10) (digit (n % 10) ∷ acc) in
    if eqb (n / 10) 0 then digit (n % 10) ∷ acc else longer

-- `str(n)`
unfoldable pub to_decimal : ℕ → String
unfolding print_onto digit
to_decimal n = print_onto (suc n) n []

parse_from : ℕ → String → Option ℕ
parse_from n [] = some n
parse_from n (c ∷ cs) =
    if leb 48 (code c) && leb (code c) 57 then parse_from (n * 10 + (code c - 48)) cs else none

-- `int(text)` on a text of digits; `none` is a `ValueError`. Signs, blanks and underscores, which
-- `int` also takes, are never written by the program.
unfoldable pub of_decimal : String → Option ℕ
unfolding parse_from
of_decimal [] = none
of_decimal (c ∷ cs) = parse_from 0 (c ∷ cs)

parse_from-digit :
    (m d : ℕ) (acc : String) → d < 10 → parse_from m (digit d ∷ acc) ≡ parse_from (m * 10 + d) acc
unfolding parse_from
parse_from-digit m d acc h = ground (arith, code-digit d h)

-- Reading back what was printed onto a text is reading the text from the number.
parse_from-print_onto :
    (f n : ℕ) (acc : String) → n < f → parse_from 0 (print_onto f n acc) ≡ parse_from n acc
unfolding print_onto
parse_from-print_onto zero n acc h = absurd (omega arith)
parse_from-print_onto (suc f) n acc h = elim (Bool-cases (eqb (n / 10) 0)) [
  | inl last ↦
      rw last
        (parse_from-digit 0 (n % 10) acc (omega arith) ∙ ap (λ m. parse_from m acc) (ground arith))
  | inr more ↦ rw more (
      parse_from-print_onto f (n / 10) (digit (n % 10) ∷ acc) (ground arith)
      ∙ parse_from-digit (n / 10) (n % 10) acc (omega arith)
      ∙ ap (λ m. parse_from m acc) (omega arith))
]

-- A text that is not empty is read from 0, and printing onto one leaves it so.
of_decimal-onto :
    (f n : ℕ) (c : Char) (acc : String)
    → of_decimal (print_onto f n (c ∷ acc)) ≡ parse_from 0 (print_onto f n (c ∷ acc))
unfolding of_decimal print_onto
of_decimal-onto zero n c acc = refl
of_decimal-onto (suc f) n c acc = elim (Bool-cases (eqb (n / 10) 0)) [
  | inl last ↦ rw last
  | inr more ↦ rw more (of_decimal-onto f (n / 10) (digit (n % 10)) (c ∷ acc))
]

of_decimal-print_onto :
    (f n : ℕ) → of_decimal (print_onto (suc f) n []) ≡ parse_from 0 (print_onto (suc f) n [])
unfolding of_decimal print_onto
of_decimal-print_onto f n = elim (Bool-cases (eqb (n / 10) 0)) [
  | inl last ↦ rw last
  | inr more ↦ rw more (of_decimal-onto f (n / 10) (digit (n % 10)) [])
]

-- Every number is read back from its decimal text.
pub of_decimal-to_decimal : (n : ℕ) → of_decimal (to_decimal n) ≡ some n
unfolding to_decimal parse_from
of_decimal-to_decimal n =
    of_decimal-print_onto n n ∙ parse_from-print_onto (suc n) n [] (omega arith)
