-- ===== src/Inode/Tests.antt =====
-- A small disk: 16 blocks, of which the first four are in use, and a file with block 3 as its indirect block.
use ele3021_spring.Common.{
  ◌++◌, ◌∷◌, ℕ, ◌≡◌, [], true, ap, arith, replicate, false, ◌∙◌, refl, if◌then◌else◌, ◌==◌, some,
}
use ele3021_spring.Fs.{Fs, is_used, test_bit}
use ele3021_spring.Inode.{Inode, t_file}
use ele3021_spring.Inode.Places.{IsSound, HasTwo}
use ele3021_spring.Inode.Mapping.{Maps, HasData, bmap-Maps}

-- The bitmap is block 2, with bits 0 to 3 set. Entry 4 of block 3 is block 9.
abbrev disk : ℕ → ℕ → ℕ
disk b i =
    if b == 2 then if i == 0 then 15 else 0 else if b == 3 then if i == 16 then 9 else 0 else 0

abbrev fs16 : Fs
fs16 = record {
  sb = record { size = 16; ninodes = 8; inodestart = 1; bmapstart = 2 };
  bytes = disk;
  logged = [];
}

abbrev a_file : Inode
a_file = record {
  dev = 1;
  inum = 5;
  ref = 1;
  lock = some 1;
  valid = true;
  type_ = t_file;
  major = 0;
  minor = 0;
  nlink = 1;
  size = 0;
  addrs = replicate 7 0 ++ (3 ∷ []);
  userid = replicate 16 0;
  mode = 0;
}

bits :
    (is_used fs16 0 ≡ true)
    × (is_used fs16 2 ≡ true)
    × (is_used fs16 3 ≡ true)
    × (is_used fs16 4 ≡ false)
    × (is_used fs16 5 ≡ false)
unfolding is_used test_bit
bits = (refl, refl, refl, refl, refl)

fs16-IsSound : IsSound fs16
fs16-IsSound = record {
  marked = λ y lt. ap (is_used fs16) (omega (arith, lt)) ∙ bits.1;
  inside = λ y lt. omega (arith, lt);
  boot = bits.0;
  some_ = omega arith;
  small = omega arith;
}

fs16-HasTwo : HasTwo fs16
fs16-HasTwo = (4, 5, omega arith, (omega arith, bits.3), (omega arith, bits.4))

fs16-HasData : HasData a_file fs16
fs16-HasData ne = record {
  inside = omega arith;
  used = bits.2;
  apart = λ y lt e. omega (arith, lt, e);
}

-- Block 10 of the file is behind the direct blocks.
bmap-Maps_example : (a : ℕ) × (ip : Inode) × (fs : Fs) × Maps 10 a_file fs16 a ip fs
bmap-Maps_example =
    bmap-Maps 10 a_file fs16 (omega arith) refl fs16-IsSound fs16-HasTwo fs16-HasData
