-- ===== src/CString.antt =====
-- The C strings of xv6-public/string.c, proc.c (`strcmp`) and PRJ03_syscall.c (`strcpy`). Memory
-- from a pointer on is a list of bytes; a read past its end gives 0.
pub mod Compare
pub mod Copy
mod Tests
use ele3021_spring.Common.{
  ℕ, suc, zero, ◌+◌, ◌-◌, Bool, true, false, ◌||◌, not, ◌==◌, if◌then◌else◌, List, [], ◌∷◌, set,
  sub32, ltb,
}

-- `*s` and `s + 1`
abbrev pub byte : List ℕ → ℕ
byte [] = 0
byte (a ∷ s) = a

abbrev pub rest : List ℕ → List ℕ
rest [] = []
rest (a ∷ s) = s

-- The string at a pointer, without its NUL: what a reader of the memory sees.
abbrev pub text : List ℕ → List ℕ
text [] = []
text (a ∷ s) = if a == 0 then [] else a ∷ text s

unfoldable pub strcmp : List ℕ → List ℕ → ℕ
strcmp [] q = sub32 0 (byte q)
strcmp (a ∷ p) q = if a == 0 || not (a == byte q) then sub32 a (byte q) else strcmp p (rest q)

unfoldable pub strncmp : List ℕ → List ℕ → ℕ → ℕ
strncmp p q zero = 0
strncmp [] q (suc n) = sub32 0 (byte q)
strncmp (a ∷ p) q (suc n) =
    if a == 0 || not (a == byte q) then sub32 a (byte q) else strncmp p (rest q) n

unfoldable pub strlen : List ℕ → ℕ
strlen [] = 0
strlen (a ∷ s) = if a == 0 then 0 else suc (strlen s)

-- `strcpy(mem + at, s)`: the memory after it, where the string and its NUL fit in `mem`. A caller
-- whose string may be longer tests it, as `fork_child` of Proc.Family does.
unfoldable pub strcpy : List ℕ → ℕ → List ℕ → List ℕ
strcpy mem at [] = set mem at 0
strcpy mem at (a ∷ s) =
    let more = strcpy (set mem at a) (suc at) s in if a == 0 then set mem at 0 else more

-- `while(n-- > 0) *s++ = 0` from `at` on.
unfoldable pub fill_zero : ℕ → List ℕ → ℕ → List ℕ
fill_zero zero mem at = mem
fill_zero (suc n) mem at = fill_zero n (set mem at 0) (suc at)

-- After the NUL the first loop of `strncpy` has spent one more round, and the second fills up.
unfoldable pub strncpy : List ℕ → ℕ → List ℕ → ℕ → List ℕ
unfolding fill_zero
strncpy mem at s zero = mem
strncpy mem at [] (suc n) = fill_zero (suc n) mem at
strncpy mem at (a ∷ s) (suc n) =
    let more = strncpy (set mem at a) (suc at) s n in
    if a == 0 then fill_zero (suc n) mem at else more

-- The loop of `safestrcpy` with `n` stores left before the NUL.
unfoldable pub safestrcpy_loop : ℕ → List ℕ → ℕ → List ℕ → List ℕ
safestrcpy_loop zero mem at s = set mem at 0
safestrcpy_loop (suc n) mem at [] = set (set mem at 0) (suc at) 0
safestrcpy_loop (suc n) mem at (a ∷ s) =
    let more = safestrcpy_loop n (set mem at a) (suc at) s in
    if a == 0 then set (set mem at 0) (suc at) 0 else more

unfoldable pub safestrcpy : List ℕ → ℕ → List ℕ → ℕ → List ℕ
unfolding safestrcpy_loop
safestrcpy mem at s zero = mem
safestrcpy mem at s (suc n) = safestrcpy_loop n mem at s
