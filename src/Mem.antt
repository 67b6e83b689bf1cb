-- ===== src/Mem.antt =====
-- Copying and comparing memory: `memmove` and `memcmp` of xv6-public/string.c. Memory is a function
-- from addresses to bytes.
pub mod Copy
mod Tests
use ele3021_spring.Common.{ℕ, suc, zero, ◌+◌, ◌-◌, Bool, ◌&&◌, ◌==◌, ltb, if◌then◌else◌, sub32, not}

abbrev pub store_byte : (ℕ → ℕ) → ℕ → ℕ → ℕ → ℕ
store_byte m a v b = if a == b then v else m b

-- `while(n-- > 0) *d++ = *s++`
unfoldable pub forward : ℕ → ℕ → ℕ → (ℕ → ℕ) → ℕ → ℕ
forward zero d s m = m
forward (suc n) d s m = forward n (suc d) (suc s) (store_byte m d (m s))

-- `while(n-- > 0) *--d = *--s` with `d` and `s` at the ends: the last of `n` bytes goes first.
unfoldable pub backward : ℕ → ℕ → ℕ → (ℕ → ℕ) → ℕ → ℕ
backward zero d s m = m
backward (suc n) d s m = backward n d s (store_byte m (d + n) (m (s + n)))

unfoldable pub memmove : ℕ → ℕ → ℕ → (ℕ → ℕ) → ℕ → ℕ
unfolding forward backward
memmove d s n m = if ltb s d && ltb d (s + n) then backward n d s m else forward n d s m

-- `memcmp` of the `n` bytes at `a` and at `b`
unfoldable pub memcmp : ℕ → (ℕ → ℕ) → ℕ → ℕ → ℕ
memcmp zero m a b = 0
memcmp (suc n) m a b =
    let rest = memcmp n m (suc a) (suc b) in if m a == m b then rest else sub32 (m a) (m b)
