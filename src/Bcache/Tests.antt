-- ===== src/Bcache/Tests.antt =====
-- Runs of the buffer cache of xv6-public/bio.c, and its theorems at them.
use ele3021_spring.Bcache.Recent.{Releases, brelse-Releases}
use ele3021_spring.Bcache.Unique.{UniqueBlocks}
use ele3021_spring.Bcache.Get.{Gets, bget-Gets, NoneIn, HoldsBlock, IsIdle}
use ele3021_spring.Bcache.Ring.{IsRing}
use ele3021_spring.Bcache.{
  Bcache, bget, brelse, Gotten, acquire, release, acquiresleep, scan, got, sleeps,
}
use ele3021_spring.Common.{
  ℕ, List, Outcome, false, ◌∷◌, arith, ◌≡◌, if◌then◌else◌, [], done, Option, ◌==◌, refl, Bool, some,
  none, ◌⊎◌, true, panicked,
}

-- Two buffers: 1 holds block 7 and is locked by process 3, and 0 was never used.
abbrev two : Bcache
two = record {
  locked = false;
  buf = λ i.
      if i == 1
      then record { flags = 2; dev = 1; blockno = 7; lock = some 3; refcnt = 1 }
      else record { flags = 0; dev = 0; blockno = 0; lock = none; refcnt = 0 };
  prev = λ i. if i == 30 then 0 else if i == 0 then 1 else 30;
  next = λ i. if i == 30 then 1 else if i == 1 then 0 else 30;
}

abbrev both : List ℕ
both = 1 ∷ 0 ∷ []

two-IsRing : IsRing two both
two-IsRing = record {
  links = (refl, refl, (refl, refl, (refl, refl)));
  distinct = omega arith;
  apart = omega arith;
}

two-UniqueBlocks : UniqueBlocks two.buf both
two-UniqueBlocks = (((λ _ e _. absurd (omega (arith, e))), tt), (tt, tt))

bget-Gets_example :
    ((i : ℕ) × (c' : Bcache) × (bget 4 1 9 two ≡ done (acquiresleep 4 i c'))
      × Gets 1 9 two c' i both)
    ⊎ ((bget 4 1 9 two ≡ panicked)
        × NoneIn (HoldsBlock 1 9) two.buf both
        × NoneIn IsIdle two.buf both)
bget-Gets_example = bget-Gets 4 1 9 two both refl (omega arith) two-IsRing two-UniqueBlocks

brelse-Releases_example : (c' : Bcache) × (brelse 3 1 two ≡ done c') × Releases two c' 1 [] (0 ∷ [])
brelse-Releases_example = brelse-Releases 3 1 two [] (0 ∷ []) refl refl (omega arith) two-IsRing

-- Which buffer a call comes to, and whether it sleeps.
taken : Outcome Gotten → Option (Bool × ℕ)
taken (done (got i c)) = some (false, i)
taken (done (sleeps i c)) = some (true, i)
taken o = none

recycled_buffer : taken (bget 4 1 9 two) ≡ some (false, 0)
unfolding taken bget acquire release scan acquiresleep
recycled_buffer = refl

locked_buffer : taken (bget 4 1 7 two) ≡ some (true, 1)
unfolding taken bget acquire release scan acquiresleep
locked_buffer = refl
