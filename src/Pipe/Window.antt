-- ===== src/Pipe/Window.antt =====
-- The bytes that a pipe of xv6-public/pipe.c holds, oldest first.
use mathlib.Core.Path.{ap₂}
use ele3021_spring.Common.{
  ℕ, List, length, ◌<◌, sub32, ◌≡◌, ◌==◌, [], suc, word, true, false, ◌%◌, ap, ◌+◌, ◌≤◌, ◌↔◌, arith,
  ◌++◌, ◌∷◌, add32, zero, refl, ◌∙◌,
}
use ele3021_spring.Pipe.{Pipe, pipesize, store, put, take_byte, is_full}

-- `n` bytes of the ring from counter `r` on.
abbrev pub window : (ℕ → ℕ) → ℕ → ℕ → List ℕ
window bytes r zero = []
window bytes r (suc n) = bytes (r % pipesize) ∷ window bytes (add32 r 1) n

pub length-window : (bytes : ℕ → ℕ) (r n : ℕ) → length (window bytes r n) ≡ n
length-window bytes r zero = refl
length-window bytes r (suc n) = ap suc (length-window bytes (add32 r 1) n)

-- A byte stored just behind a window that is not the whole ring extends it.
pub window-store :
    (bytes : ℕ → ℕ) (c n r w : ℕ)
    → r < word
    → n < pipesize
    → w ≡ (r + n) % word
    → window (store bytes (w % pipesize) c) r (suc n) ≡ window bytes r n ++ (c ∷ [])
window-store bytes c zero r w lt small e = ground (arith, e)
window-store bytes c (suc n) r w lt small e =
    ap₂ ◌∷◌ (ground arith)
      (window-store bytes c n (add32 r 1) w (omega arith) (omega arith) (omega arith))

-- How many bytes the pipe holds.
abbrev pub used : Pipe → ℕ
used p = sub32 p.nwrite p.nread

abbrev pub contents : Pipe → List ℕ
contents p = window p.bytes p.nread (used p)

-- Counters are 32-bit, and at most 512 apart.
pub record IsValid (p : Pipe) : Type 0 where
  pub read_word : p.nread < word
  pub write_word : p.nwrite < word
  pub bounded : used p ≤ pipesize

pub is_full_iff : (p : Pipe) → IsValid p → (is_full p ≡ true) ↔ (used p ≡ pipesize)
unfolding is_full
is_full_iff p v = (λ h. ground (arith, v, h), λ h. ground (arith, v, h))

pub put-IsValid : (p : Pipe) (c : ℕ) → IsValid p → is_full p ≡ false → IsValid (put c p)
unfolding put is_full
put-IsValid p c v h = ground (arith, v, h)

pub used-put : (p : Pipe) (c : ℕ) → IsValid p → is_full p ≡ false → used (put c p) ≡ used p + 1
unfolding put is_full
used-put p c v h = ground (arith, v, h)

pub take_byte-IsValid :
    (p : Pipe) → IsValid p → (p.nread == p.nwrite) ≡ false → IsValid (take_byte p)
unfolding take_byte
take_byte-IsValid p v h = ground (arith, v, h)

pub used-take_byte :
    (p : Pipe) → IsValid p → (p.nread == p.nwrite) ≡ false → used p ≡ suc (used (take_byte p))
unfolding take_byte
used-take_byte p v h = ground (arith, v, h)

pub has_room : (p : Pipe) → IsValid p → is_full p ≡ false → used p < pipesize
unfolding is_full
has_room p v h = ground (arith, v, h)

-- A byte put into a pipe that is not full goes to the end of its contents.
pub contents-put :
    (p : Pipe) (c : ℕ) → IsValid p → is_full p ≡ false → contents (put c p) ≡ contents p ++ (c ∷ [])
unfolding put
contents-put p c v h =
    ap (window (store p.bytes (p.nwrite % pipesize) c) p.nread) {y = suc (used p)}
      (used-put p c v h ∙ omega arith)
    ∙ window-store p.bytes c (used p) p.nread p.nwrite v.read_word (has_room p v h)
        (omega (arith, v.read_word, v.write_word))

pub contents-take_byte :
    (p : Pipe)
    → IsValid p
    → (p.nread == p.nwrite) ≡ false
    → contents p ≡ p.bytes (p.nread % pipesize) ∷ contents (take_byte p)
unfolding take_byte
contents-take_byte p v h = ap (window p.bytes p.nread) (used-take_byte p v h)
