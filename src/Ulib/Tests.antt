-- ===== src/Ulib/Tests.antt =====
-- Small inputs of the user library.
use ele3021_spring.Common.{
  ℕ, true, minus, false, [], List, ◌∷◌, ◌≡◌, Option, arith, refl, none, some,
}
use ele3021_spring.Ulib.{atoi, printint, printf, gets}
use ele3021_spring.Ulib.Numbers.{atoi-printint}

atoi-printint_example : atoi (printint 2020 10 true) ≡ 2020
atoi-printint_example = atoi-printint 2020 (omega arith)

-- "-42", and "2A" in base 16.
minus_text : printint (minus 42) 10 true ≡ b'-' ∷ b'4' ∷ b'2' ∷ []
unfolding printint
minus_text = refl

hex_text : printint 42 16 false ≡ b'2' ∷ b'A' ∷ []
unfolding printint
hex_text = refl

-- "a%d%%" with the argument 7.
printed :
    printf (λ k. 7) (λ p. []) (b'a' ∷ b'%' ∷ b'd' ∷ b'%' ∷ b'%' ∷ []) ≡ b'a' ∷ b'7' ∷ b'%' ∷ []
unfolding printf
printed = refl

-- A line is read up to its end, or up to the room for it.
abbrev next_byte : List ℕ → Option ℕ × List ℕ
next_byte [] = (none, [])
next_byte (c ∷ s) = (some c, s)

line : gets next_byte 9 (b'h' ∷ b'i' ∷ 10 ∷ b'x' ∷ []) ≡ (b'h' ∷ b'i' ∷ 10 ∷ 0 ∷ [], b'x' ∷ [])
unfolding gets
line = refl

part : gets next_byte 3 (b'h' ∷ b'i' ∷ 10 ∷ []) ≡ (b'h' ∷ b'i' ∷ 0 ∷ [], 10 ∷ [])
unfolding gets
part = refl
