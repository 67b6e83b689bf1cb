-- ===== src/Inode/Places.antt =====
-- What `balloc` of xv6-public/fs.c leaves alone of a file: the blocks in use, and the entries of the
-- indirect block.
use ele3021_spring.Common.{
  ℕ, ◌≡◌, ◌≢◌, ◌+◌, ◌-◌, ◌*◌, ◌≤◌, ◌<◌, if◌then◌else◌, ◌==◌, inl, inr, refl, sym, ap, ◌∙◌, true,
  arith, ltb, get_or, done, word, ◌/◌,
}
use ele3021_spring.Fs.{Fs, balloc, bblock, is_used}
use ele3021_spring.Fs.Alloc.{IsFree, IsMarked, Allocated, balloc-Allocated}
use ele3021_spring.Inode.{Inode, ndirect, get32}

-- A disk with its bitmap and its boot block marked, and numbers of blocks that fit in a uint.
pub record IsSound (fs : Fs) : Type 0 where
  pub marked : IsMarked fs
  pub inside : (y : ℕ) → y < fs.sb.size → bblock fs y < fs.sb.size
  pub boot : is_used fs 0 ≡ true
  pub some_ : 0 < fs.sb.size
  pub small : fs.sb.size ≤ word

-- A block that `balloc` gives is not block 0, and fits in a uint.
pub fresh : (fs fs' : Fs) (b : ℕ) → IsSound fs → Allocated fs fs' b → (b ≢ 0) × (b < word)
fresh fs fs' b s a =
    (λ e. cc (sym a.was_free.1 ∙ ap (is_used fs) e ∙ s.boot), omega (arith, a.was_free.0, s.small))

pub Allocated-IsSound : (fs fs' : Fs) (b : ℕ) → IsSound fs → Allocated fs fs' b → IsSound fs'
Allocated-IsSound fs fs' b s a = record {
  marked = λ y lt.
      let in_old : y < fs.sb.size = omega (arith, lt, ap (λ x. x.size) a.sb) in
      ap (is_used fs') (same y)
      ∙ a.others (bblock fs y) (s.inside y in_old)
          (λ e. cc (sym a.was_free.1 ∙ ap (is_used fs) e ∙ s.marked y in_old))
      ∙ s.marked y in_old;
  inside = λ y lt.
      let in_old : y < fs.sb.size = omega (arith, lt, ap (λ x. x.size) a.sb) in
      omega (arith, s.inside y in_old, ap (λ x. x.size) a.sb, same y);
  boot = a.others 0 s.some_ (fresh fs fs' b s a).0 ∙ s.boot;
  some_ = omega (arith, s.some_, ap (λ x. x.size) a.sb);
  small = omega (arith, s.small, ap (λ x. x.size) a.sb);
}
  where
    same : (y : ℕ) → bblock fs' y ≡ bblock fs y
    same y = ap (λ x. y / 4096 + x.bmapstart) a.sb

-- With a free block, `balloc` gives one.
pub alloc :
    (fs : Fs) (x : ℕ)
    → IsSound fs
    → IsFree fs x
    → (b : ℕ) × (fs' : Fs) × (balloc fs ≡ done (b, fs')) × Allocated fs fs' b
alloc fs x s f = elim (balloc-Allocated fs s.marked) [
  | inl a ↦ a
  | inr n ↦ cc (sym f.1 ∙ n.1 x f.0)
]

-- A free block that was not taken is still free.
pub still-IsFree : (fs fs' : Fs) (b x : ℕ) → Allocated fs fs' b → IsFree fs x → b ≢ x → IsFree fs' x
still-IsFree fs fs' b x a f ne =
    (omega (arith, f.0, ap (λ s. s.size) a.sb), a.others x f.0 ne ∙ f.1)

-- Two free blocks.
abbrev pub HasTwo : Fs → Type 0
HasTwo fs = (x y : ℕ) × (x ≢ y) × IsFree fs x × IsFree fs y

-- Block `t` is in use, and is not a block of the bitmap.
pub record IsData (fs : Fs) (t : ℕ) : Type 0 where
  pub inside : t < fs.sb.size
  pub used : is_used fs t ≡ true
  pub apart : (y : ℕ) → y < fs.sb.size → bblock fs y ≢ t

-- A block in use keeps its contents when another is taken.
pub taken-bytes :
    (fs fs' : Fs) (b t : ℕ)
    → Allocated fs fs' b
    → IsData fs t
    → (i : ℕ) → fs'.bytes t i ≡ fs.bytes t i
taken-bytes fs fs' b t a d =
    a.contents t (λ e. cc (sym a.was_free.1 ∙ ap (is_used fs) e ∙ d.used)) (d.apart b a.was_free.0)

-- The block that `balloc` gives is then in use, and was none of the bitmap.
pub taken-IsData : (fs fs' : Fs) (b : ℕ) → IsSound fs → Allocated fs fs' b → IsData fs' b
taken-IsData fs fs' b s a = record {
  inside = omega (arith, a.was_free.0, ap (λ x. x.size) a.sb);
  used = a.used;
  apart = λ y lt e.
      let in_old : y < fs.sb.size = omega (arith, lt, ap (λ x. x.size) a.sb) in
      cc (
        sym a.was_free.1
        ∙ ap (is_used fs) (sym e ∙ ap (λ x. y / 4096 + x.bmapstart) a.sb)
        ∙ s.marked y in_old);
}

-- The uint at `o` of a block is read from four of its bytes.
pub get32-same : (g h : ℕ → ℕ) (o : ℕ) → ((i : ℕ) → g i ≡ h i) → get32 g o ≡ get32 h o
unfolding get32
get32-same g h o e = rw (e o, e (o + 1), e (o + 2), e (o + 3)) refl

pub get32-zero : (g : ℕ → ℕ) (o : ℕ) → ((i : ℕ) → g i ≡ 0) → get32 g o ≡ 0
unfolding get32
get32-zero g o e = rw (e o, e (o + 1), e (o + 2), e (o + 3)) refl

-- Entry `j` of the list in block `t`, which is empty where there is no such block.
abbrev pub entry : Fs → ℕ → ℕ → ℕ
entry fs t j = if t == 0 then 0 else get32 (fs.bytes t) (4 * j)

-- The place of block `bn` of a file: an address of the inode, or an entry of the indirect block.
abbrev pub place : ℕ → Inode → Fs → ℕ
place bn ip fs =
    if ltb bn ndirect
    then get_or ip.addrs bn 0
    else entry fs (get_or ip.addrs ndirect 0) (bn - ndirect)
