-- ===== src/Fs.antt =====
-- The file system of xv6-public/fs.c and fs.h below inodes: the blocks as `bread` returns them, the
-- superblock, the block bitmap, and the inodes in memory. Disk blocks are bytes; `logged` lists the
-- blocks that were given to `log_write`, the last one first.
pub mod Bits
pub mod Bitmap
pub mod Alloc
mod Tests
use ele3021_spring.Common.{
  ℕ, zero, suc, ◌+◌, ◌-◌, ◌*◌, ◌/◌, ◌%◌, Bool, true, false, ◌==◌, ltb, not, if◌then◌else◌, List, [],
  ◌∷◌, Option, none, some, Outcome, done, panicked, ◌>>=◌,
}

abbrev pub bsize : ℕ
bsize = 512

-- `BPB`, bits of the bitmap in one block
abbrev pub bpb : ℕ
bpb = 4096

-- The fields of `struct superblock` that the kernel uses.
pub record Superblock : Type 0 where
  pub size : ℕ
  pub ninodes : ℕ
  pub inodestart : ℕ
  pub bmapstart : ℕ

pub record Fs : Type 0 where
  pub sb : Superblock
  pub bytes : ℕ → ℕ → ℕ
  pub logged : List ℕ

-- A bit of a byte: `v & (1 << k)`, `v | (1 << k)` and `v & ~(1 << k)`.
unfoldable pub test_bit : ℕ → ℕ → Bool
test_bit v zero = v % 2 == 1
test_bit v (suc k) = test_bit (v / 2) k

unfoldable pub set_bit : ℕ → ℕ → ℕ
set_bit v zero = v - v % 2 + 1
set_bit v (suc k) = v % 2 + 2 * set_bit (v / 2) k

unfoldable pub clear_bit : ℕ → ℕ → ℕ
clear_bit v zero = v - v % 2
clear_bit v (suc k) = v % 2 + 2 * clear_bit (v / 2) k

-- A store of byte `v` at place `i` of the buffer of block `b`.
abbrev pub store_at : ℕ → ℕ → ℕ → (ℕ → ℕ → ℕ) → ℕ → ℕ → ℕ
store_at b i v f c j = if b == c then if i == j then v else f c j else f c j

-- `BBLOCK(b, sb)`, and where the bit of block `b` stands in that block.
abbrev pub bblock : Fs → ℕ → ℕ
bblock fs b = b / bpb + fs.sb.bmapstart

abbrev pub bit_byte : ℕ → ℕ
bit_byte b = b % bpb / 8

abbrev pub bit_place : ℕ → ℕ
bit_place b = b % bpb % 8

-- Whether block `b` is marked as in use.
unfoldable pub is_used : Fs → ℕ → Bool
unfolding test_bit
is_used fs b = test_bit (fs.bytes (bblock fs b) (bit_byte b)) (bit_place b)

-- `log_write` of the buffer of block `b`.
abbrev pub log_block : ℕ → Fs → Fs
log_block b fs = record fs { logged = b ∷ fs.logged }

unfoldable pub bzero : ℕ → Fs → Fs
bzero b fs = log_block b (record fs { bytes = λ c j. if b == c then 0 else fs.bytes c j })

-- Mark block `b` as in use.
unfoldable pub mark : ℕ → Fs → Fs
unfolding set_bit
mark b fs = log_block (bblock fs b) (record fs {
  bytes =
      store_at (bblock fs b) (bit_byte b)
        (set_bit (fs.bytes (bblock fs b) (bit_byte b)) (bit_place b)) fs.bytes;
})

-- The inner loop of `balloc` with `n` rounds left, from bit `bi` of the part that begins with block
-- `b` on: the first block that is free.
unfoldable pub scan_bits : ℕ → ℕ → ℕ → Fs → Option ℕ
unfolding is_used
scan_bits zero b bi fs = none
scan_bits (suc n) b bi fs =
    let later = scan_bits n b (suc bi) fs in
    if not (ltb (b + bi) fs.sb.size)
    then none
    else if is_used fs (b + bi)
    then later
    else some (b + bi)

-- The outer loop of `balloc` with fuel.
unfoldable pub scan_parts : ℕ → ℕ → Fs → Option ℕ
unfolding scan_bits
scan_parts zero b fs = none
scan_parts (suc fuel) b fs = elim (ltb b fs.sb.size) [
  | false ↦ none
  | true ↦ elim (scan_bits bpb b 0 fs) [ some x ↦ some x | none ↦ scan_parts fuel (b + bpb) fs ]
]

unfoldable pub balloc : Fs → Outcome (ℕ × Fs)
unfolding scan_parts mark bzero
balloc fs = elim (scan_parts (fs.sb.size + 1) 0 fs) [
  | none ↦ panicked
  | some b ↦ done (b, bzero b (mark b fs))
]

unfoldable pub bfree : ℕ → Fs → Outcome Fs
unfolding is_used clear_bit
bfree b fs =
    if not (is_used fs b)
    then panicked
    else done (
        log_block (bblock fs b) (record fs {
          bytes =
              store_at (bblock fs b) (bit_byte b)
                (clear_bit (fs.bytes (bblock fs b) (bit_byte b)) (bit_place b)) fs.bytes;
        }))
