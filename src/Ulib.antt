-- ===== src/Ulib.antt =====
-- The user library of xv6-public/ulib.c and printf.c: `strchr`, `gets`, `atoi`, `printint` and
-- `printf`. What is written to the descriptor is a list of characters; a string is memory as in
-- CString, and the system call `read` is a parameter.
use ele3021_spring.CString.{text}
pub mod Numbers
mod Tests
use ele3021_spring.Common.{
  ℕ, List, Bool, Option, if◌then◌else◌, none, ◌==◌, [], ◌-◌, leb, ◌∷◌, ltb, ◌&&◌, sub32, false,
  some, ◌||◌, suc, ◌++◌, ◌*◌, ◌+◌, slt, true, zero, word, ◌%◌, ◌/◌,
}

-- `strchr`: how far behind `s` the character stands.
unfoldable pub strchr : List ℕ → ℕ → Option ℕ
strchr [] c = none
strchr (a ∷ s) c =
    let later = strchr s c in
    if a == 0
    then none
    else if a == c
    then some 0
    else elim later [ none ↦ none | some i ↦ some (suc i) ]

-- '\n' and '\r'
abbrev pub ends_line : ℕ → Bool
ends_line c = c == 10 || c == 13

-- `read` of one byte from descriptor 0: none where it returns less than 1.
module _ {S : Type 0} (read : S → Option ℕ × S) where
  -- The loop of `gets` with `n` rounds left: the bytes put in `buf`.
  unfoldable pub gets_loop : ℕ → S → List ℕ × S
  gets_loop zero s = ([], s)
  gets_loop (suc n) s =
      let r = read s in
      elim r.0 [
        | none ↦ ([], r.1)
        | some c ↦ elim (ends_line c) [
          | true ↦ (c ∷ [], r.1)
          | false ↦ let q = gets_loop n r.1 in (c ∷ q.0, q.1)
        ]
      ]

  -- `gets`: the bytes that it stores from `buf` on, the NUL included.
  unfoldable pub gets : ℕ → S → List ℕ × S
  unfolding gets_loop
  gets max s = let r = gets_loop (max - 1) s in (r.0 ++ (0 ∷ []), r.1)

abbrev pub zero_char : ℕ
zero_char = b'0'

-- `'0' <= c && c <= '9'`
abbrev pub is_digit : ℕ → Bool
is_digit c = leb zero_char c && leb c b'9'

-- The loop of `atoi` with `n` read so far, in 32 bits.
unfoldable pub atoi_loop : ℕ → List ℕ → ℕ
atoi_loop n [] = n
atoi_loop n (c ∷ s) =
    let more = atoi_loop ((n * 10 + c + word - zero_char) % word) s in
    if is_digit c then more else n

unfoldable pub atoi : List ℕ → ℕ
unfolding atoi_loop
atoi s = atoi_loop 0 s

-- `digits[d]` for d below 16.
unfoldable pub digit : ℕ → ℕ
digit d = if ltb d 10 then zero_char + d else b'A' + d - 10

-- The loop of `printint` with fuel: `buf` from its first place on.
unfoldable pub digit_loop : ℕ → ℕ → ℕ → List ℕ
unfolding digit
digit_loop zero x base = []
digit_loop (suc fuel) x base =
    digit (x % base) ∷ elim (x / base == 0) [ true ↦ [] | false ↦ digit_loop fuel (x / base) base ]

-- `while(--i >= 0) putc(fd, buf[i])`, and what is written after it.
unfoldable pub backwards : List ℕ → List ℕ → List ℕ
backwards [] out = out
backwards (c ∷ buf) out = backwards buf (c ∷ out)

-- Whether `printint` writes a minus, the number without it, and `buf`.
abbrev pub is_minus : ℕ → Bool → Bool
is_minus xx sgn = sgn && slt xx 0

unfoldable pub buffer : ℕ → ℕ → Bool → List ℕ
unfolding digit_loop
buffer xx base sgn =
    if is_minus xx sgn
    then digit_loop (sub32 0 xx + 1) (sub32 0 xx) base ++ (b'-' ∷ [])
    else digit_loop (xx + 1) xx base

unfoldable pub printint : ℕ → ℕ → Bool → List ℕ
unfolding buffer backwards
printint xx base sgn = backwards (buffer xx base sgn) []

-- "(null)"
abbrev pub null_text : List ℕ
null_text = b'(' ∷ b'n' ∷ b'u' ∷ b'l' ∷ b'l' ∷ b')' ∷ []

-- `arg k` is the word that `ap` points to after `k` arguments, and `string_at` the memory at a
-- pointer.
module _ (arg : ℕ → ℕ) (string_at : ℕ → List ℕ) where
  -- What `printf` writes for the character after a percent sign, and how many arguments it takes.
  unfoldable pub directive : ℕ → ℕ → List ℕ × ℕ
  unfolding printint
  directive c k =
      if c == b'd'
      then (printint (arg k) 10 true, 1)
      else if c == b'x' || c == b'p'
      then (printint (arg k) 16 false, 1)
      else if c == b's'
      then (text (if arg k == 0 then null_text else string_at (arg k)), 1)
      else if c == b'c'
      then (arg k % 256 ∷ [], 1)
      else if c == b'%'
      then (c ∷ [], 0)
      else (b'%' ∷ c ∷ [], 0)

  -- The loop of `printf`: `percent` says that its state is '%'.
  unfoldable pub printf_loop : Bool → ℕ → List ℕ → List ℕ
  unfolding directive
  printf_loop percent k [] = []
  printf_loop false k (c ∷ fmt) =
      let after = printf_loop true k fmt in
      let on = printf_loop false k fmt in if c == 0 then [] else if c == b'%' then after else c ∷ on
  printf_loop true k (c ∷ fmt) =
      let d = directive c k in
      let on = printf_loop false (k + d.1) fmt in if c == 0 then [] else d.0 ++ on

  unfoldable pub printf : List ℕ → List ℕ
  unfolding printf_loop
  printf fmt = printf_loop false 0 fmt
