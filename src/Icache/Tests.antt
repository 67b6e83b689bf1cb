-- ===== src/Icache/Tests.antt =====
-- A cache of three slots, and inode 5 on a small disk.
use ele3021_spring.Common.{
  zero, suc, some_inj, slt, ap, ℕ, none, false, [], ◌≡◌, arith, true, ◌∷◌, done, refl, replicate,
  ◌⊎◌, ◌>>=◌, panicked, get_elem?, some, ◌≢◌,
}
use ele3021_spring.Fs.{Fs}
use ele3021_spring.Inode.{Inode, t_file}
use ele3021_spring.Icache.{Icache, iget, iupdate, acquire, release}
use ele3021_spring.Icache.Unique.{UniqueInodes, IsUncached, Gets, iget-Gets}
use ele3021_spring.Icache.Layout.{Fits}
use ele3021_spring.Icache.Dinode.{Saves, iupdate-Saves}

-- A file of the user "kim", with one block.
abbrev file : Inode
file = record {
  dev = 1;
  inum = 5;
  ref = 1;
  lock = none;
  valid = true;
  type_ = t_file;
  major = 0;
  minor = 0;
  nlink = 1;
  size = 300;
  addrs = 9 ∷ replicate 7 0;
  userid = 107 ∷ 105 ∷ 109 ∷ replicate 13 0;
  mode = 52;
}

abbrev unused_slot : Inode
unused_slot = record file { inum = 0; ref = 0; valid = false }

abbrev cache : Icache
cache = record { locked = false; inode = file ∷ unused_slot ∷ unused_slot ∷ [] }

abbrev disk : Fs
disk = record {
  sb = record { size = 16; ninodes = 8; inodestart = 1; bmapstart = 2 };
  bytes = λ b i. 0;
  logged = [];
}

cache-UniqueInodes : UniqueInodes cache
cache-UniqueInodes zero zero p q e f l m d n = refl
cache-UniqueInodes zero (suc zero) p q e f l m d n =
    cc (ap (λ (x : Inode). slt 0 x.ref) (some_inj _ _ f))
cache-UniqueInodes zero (suc (suc zero)) p q e f l m d n =
    cc (ap (λ (x : Inode). slt 0 x.ref) (some_inj _ _ f))
cache-UniqueInodes zero (suc (suc (suc j))) p q e f l m d n = cc
cache-UniqueInodes (suc zero) j p q e f l m d n =
    cc (ap (λ (x : Inode). slt 0 x.ref) (some_inj _ _ e))
cache-UniqueInodes (suc (suc zero)) j p q e f l m d n =
    cc (ap (λ (x : Inode). slt 0 x.ref) (some_inj _ _ e))
cache-UniqueInodes (suc (suc (suc i))) j p q e f l m d n = cc

iget-Gets_example :
    ((i : ℕ) × (c : Icache) × (iget 1 7 cache ≡ done (i, c)) × Gets 1 7 cache c i)
    ⊎ ((iget 1 7 cache ≡ panicked)
        × IsUncached 1 7 cache
        × ((j : ℕ) (p : Inode) → get_elem? cache.inode j ≡ some p → p.ref ≢ 0))
iget-Gets_example = iget-Gets 1 7 cache refl cache-UniqueInodes

file-Fits : Fits file
file-Fits = record {
  type_ = omega arith;
  major = omega arith;
  minor = omega arith;
  nlink = omega arith;
  size = omega arith;
  mode = omega arith;
  count = refl;
  addrs = (
    omega arith,
    (
      omega arith,
      (omega arith, (omega arith, (omega arith, (omega arith, (omega arith, (omega arith, tt)))))),
    ),
  );
  field = refl;
  name = omega arith;
}

iupdate-Saves_example : Saves file disk (iupdate file disk)
iupdate-Saves_example = iupdate-Saves file disk file-Fits

-- The slot of inode 5, with a second reference, and a new slot for inode 7.
get_again : (iget 1 5 cache >>= λ r. done r.0) ≡ done 0
unfolding iget acquire release
get_again = refl

get_new : (iget 1 7 cache >>= λ r. done r.0) ≡ done 1
unfolding iget acquire release
get_new = refl
