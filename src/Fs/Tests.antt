-- ===== src/Fs/Tests.antt =====
-- A small disk: 16 blocks, of which the first three are in use.
use ele3021_spring.Common.{
  ℕ, ◌≡◌, [], true, ap, done, refl, arith, ◌⊎◌, ◌∙◌, panicked, ◌<◌, if◌then◌else◌, ◌==◌,
}
use ele3021_spring.Fs.{Fs, is_used, balloc, test_bit}
use ele3021_spring.Fs.Alloc.{IsMarked, Allocated, balloc-Allocated}

-- The bitmap is block 2, with bits 0 to 2 set.
abbrev disk : ℕ → ℕ → ℕ
disk b i = if b == 2 then if i == 0 then 7 else 0 else 0

abbrev fs16 : Fs
fs16 = record {
  sb = record { size = 16; ninodes = 8; inodestart = 1; bmapstart = 2 };
  bytes = disk;
  logged = [];
}

bitmap_used : is_used fs16 2 ≡ true
unfolding is_used test_bit
bitmap_used = refl

fs16-IsMarked : IsMarked fs16
fs16-IsMarked y lt = ap (is_used fs16) (omega (arith, lt)) ∙ bitmap_used

balloc-Allocated_example :
    ((b : ℕ) × (fs' : Fs) × (balloc fs16 ≡ done (b, fs')) × Allocated fs16 fs' b)
    ⊎ ((balloc fs16 ≡ panicked) × ((y : ℕ) → y < 16 → is_used fs16 y ≡ true))
balloc-Allocated_example = balloc-Allocated fs16 fs16-IsMarked
