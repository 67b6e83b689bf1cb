-- ===== src/Sysargs.antt =====
-- The arguments of system calls, of xv6-public/syscall.c: words and strings that are fetched from the
-- memory of the calling process.
mod Tests
pub mod Bounds
use ele3021_spring.Common.{
  ℕ, Option, if◌then◌else◌, List, add32, leb, none, ◌*◌, ◌||◌, suc, ◌-◌, some, ltb, ◌==◌, slt, [],
  ◌∷◌, zero, Bool,
}
use ele3021_spring.Inode.{get32}

-- What a call reads of the calling process: its size, the user stack pointer, and its bytes.
pub record User : Type 0 where
  pub sz : ℕ
  pub esp : ℕ
  pub mem : ℕ → ℕ

unfoldable pub fetchint : ℕ → User → Option ℕ
unfolding get32
fetchint addr u = if leb u.sz addr || ltb u.sz (add32 addr 4) then none else some (get32 u.mem addr)

-- The loop of `fetchstr` with `n` bytes left below the size: the string at `s`.
unfoldable pub scan_string : ℕ → ℕ → (ℕ → ℕ) → Option (List ℕ)
scan_string zero s mem = none
scan_string (suc n) s mem =
    let rest = scan_string n (suc s) mem in
    if mem s == 0 then some [] else elim rest [ none ↦ none | some cs ↦ some (mem s ∷ cs) ]

-- `fetchstr`: the string, which starts at `addr`.
unfoldable pub fetchstr : ℕ → User → Option (List ℕ)
unfolding scan_string
fetchstr addr u = if leb u.sz addr then none else scan_string (u.sz - addr) addr u.mem

unfoldable pub argint : ℕ → User → Option ℕ
unfolding fetchint
argint n u = fetchint (add32 (add32 u.esp 4) (4 * n)) u

-- The test of `argptr` for a block at `i`.
unfoldable pub bad_block : ℕ → ℕ → User → Bool
bad_block i size u = slt size 0 || leb u.sz i || ltb u.sz (add32 i size)

-- `argptr`: the address of a block of `size` bytes, an int.
unfoldable pub argptr : ℕ → ℕ → User → Option ℕ
unfolding argint bad_block
argptr n size u = elim (argint n u) [
  | none ↦ none
  | some i ↦ if bad_block i size u then none else some i
]

unfoldable pub argstr : ℕ → User → Option (List ℕ)
unfolding argint fetchstr
argstr n u = elim (argint n u) [ none ↦ none | some addr ↦ fetchstr addr u ]
