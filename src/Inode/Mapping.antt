-- ===== src/Inode/Mapping.antt =====
-- `bmap` of xv6-public/fs.c gives a file's block a place on the disk, once.
use ele3021_spring.Common.{
  ℕ, ◌≡◌, ◌≢◌, ◌-◌, ◌*◌, ◌≤◌, ◌<◌, Bool-cases, inl, inr, refl, sym, ◌∙◌, true, false, arith, ltb,
  get_or, length, done, ◌>>=◌, dec_lt,
}
use ele3021_spring.Fs.{Fs}
use ele3021_spring.Inode.{Inode, ndirect, nindirect, get32, own_block, entry_block, bmap, maxfile}
use ele3021_spring.Inode.Blocks.{Owns, Enters, own_block-Owns, entry_block-Enters}
use ele3021_spring.Inode.Places.{IsSound, HasTwo, IsData, entry, place}

-- What `bmap` gives: a block that is not block 0, which is then the place of block `bn`, was its place
-- if it had one, and is given again with nothing changed. The places of all other blocks of the file
-- and its size are as they were.
pub record Maps (bn : ℕ) (ip : Inode) (fs : Fs) (a : ℕ) (ip' : Inode) (fs' : Fs) : Type 0 where
  pub result : bmap bn ip fs ≡ done (a, ip', fs')
  pub real : a ≢ 0
  pub placed : place bn ip' fs' ≡ a
  pub old : place bn ip fs ≢ 0 → a ≡ place bn ip fs
  pub again : bmap bn ip' fs' ≡ done (a, ip', fs')
  pub others : (j : ℕ) → j < maxfile → j ≢ bn → place j ip' fs' ≡ place j ip fs
  pub size : ip'.size ≡ ip.size

direct : (bn : ℕ) (ip : Inode) (fs : Fs) → bn < ndirect → bmap bn ip fs ≡ own_block bn ip fs
unfolding bmap
direct bn ip fs lt = ground (arith, lt)

indirect :
    (bn : ℕ) (ip : Inode) (fs : Fs) (b : ℕ) (ip' : Inode) (fs' : Fs) (a : ℕ) (fs'' : Fs)
    → ltb bn ndirect ≡ false
    → ltb (bn - ndirect) nindirect ≡ true
    → own_block ndirect ip fs ≡ done (b, ip', fs')
    → entry_block b (bn - ndirect) fs' ≡ done (a, fs'')
    → bmap bn ip fs ≡ done (a, ip', fs'')
unfolding bmap
indirect bn ip fs b ip' fs' a fs'' lo hi e f = rw (bmap, lo, hi, e, ◌>>=◌, f) refl

place_direct : (j : ℕ) (ip : Inode) (fs : Fs) → j < ndirect → place j ip fs ≡ get_or ip.addrs j 0
place_direct j ip fs lt = ground (arith, lt)

place_indirect :
    (j t : ℕ) (ip : Inode) (fs : Fs)
    → ltb j ndirect ≡ false
    → get_or ip.addrs ndirect 0 ≡ t
    → place j ip fs ≡ entry fs t (j - ndirect)
place_indirect j t ip fs ge e = rw (ge, e) refl

entry_real : (fs : Fs) (t j : ℕ) → t ≢ 0 → entry fs t j ≡ get32 (fs.bytes t) (4 * j)
entry_real fs t j ne = ground (arith, ne)

-- Where the indirect block of an inode, if it has one, is in use and not a block of the bitmap.
abbrev pub HasData : Inode → Fs → Type 0
HasData ip fs = get_or ip.addrs ndirect 0 ≢ 0 → IsData fs (get_or ip.addrs ndirect 0)

direct-Maps :
    (bn : ℕ) (ip : Inode) (fs : Fs) (a : ℕ) (ip' : Inode) (fs' : Fs)
    → bn < ndirect
    → HasData ip fs
    → Owns bn ip fs a ip' fs'
    → Maps bn ip fs a ip' fs'
direct-Maps bn ip fs a ip' fs' d has m = record {
  result = direct bn ip fs d ∙ m.result;
  real = m.real;
  placed = place_direct bn ip' fs' d ∙ m.here;
  old = λ ne. m.old (λ e. ne (place_direct bn ip fs d ∙ e)) ∙ sym (place_direct bn ip fs d);
  again = direct bn ip' fs' d ∙ m.again fs';
  others = other;
  size = m.size;
}
  where
    top : get_or ip'.addrs ndirect 0 ≡ get_or ip.addrs ndirect 0
    top = m.entries ndirect (λ e. omega (arith, d, e))

    other : (j : ℕ) → j < maxfile → j ≢ bn → place j ip' fs' ≡ place j ip fs
    other j lt n = elim (Bool-cases (ltb j ndirect)) [
      | inl lo ↦ rw lo (m.entries j (λ e. n (sym e)))
      | inr hi ↦
          place_indirect j _ ip' fs' hi top
          ∙ m.others (get_or ip.addrs ndirect 0) (j - ndirect) has
          ∙ sym (place_indirect j _ ip fs hi refl)
    ]

below_indirect : (j : ℕ) → ltb j ndirect ≡ true → j ≢ ndirect
below_indirect j l e = ground (arith, l, e)

apart_places :
    (bn j : ℕ)
    → ltb j ndirect ≡ false
    → ltb bn ndirect ≡ false
    → j - ndirect ≡ bn - ndirect
    → j ≡ bn
apart_places bn j h lo e = omega (arith, above j h, above bn lo, e)
  where
    above : (x : ℕ) → ltb x ndirect ≡ false → ndirect ≤ x
    above x g = ground (arith, g)

indirect-Maps :
    (bn : ℕ) (ip : Inode) (fs : Fs) (b : ℕ) (ip' : Inode) (fs1 : Fs) (a : ℕ) (fs' : Fs)
    → ltb bn ndirect ≡ false
    → ltb (bn - ndirect) nindirect ≡ true
    → HasData ip fs
    → Owns ndirect ip fs b ip' fs1
    → Enters b (bn - ndirect) fs1 a fs'
    → Maps bn ip fs a ip' fs'
indirect-Maps bn ip fs b ip' fs1 a fs' lo hi has m q = record {
  result = indirect bn ip fs b ip' fs1 a fs' lo hi m.result q.result;
  real = q.real;
  placed = place_indirect bn b ip' fs' lo m.here ∙ entry_real fs' b _ m.real ∙ q.here;
  old = λ ne. q.old (λ e. ne (before bn lo ∙ e)) ∙ sym (before bn lo);
  again = indirect bn ip' fs' b ip' fs' a fs' lo hi (m.again fs') q.again;
  others = other;
  size = m.size;
}
  where
    -- The places behind the indirect block, when it is there.
    before :
        (j : ℕ) → ltb j ndirect ≡ false → place j ip fs ≡ get32 (fs1.bytes b) (4 * (j - ndirect))
    before j ge =
        place_indirect j _ ip fs ge refl
        ∙ sym (m.own has (j - ndirect))
        ∙ entry_real fs1 b (j - ndirect) m.real

    other : (j : ℕ) → j < maxfile → j ≢ bn → place j ip' fs' ≡ place j ip fs
    other j lt n = elim (Bool-cases (ltb j ndirect)) [
      | inl l ↦ rw l (m.entries j (λ e. below_indirect j l (sym e)))
      | inr h ↦
          place_indirect j b ip' fs' h m.here
          ∙ entry_real fs' b _ m.real
          ∙ q.others (m.data_ has) (j - ndirect) (λ e. n (apart_places bn j h lo e))
          ∙ sym (before j h)
    ]

-- On a sound disk with two free blocks, `bmap` of a block number below MAXFILE of an inode with 8
-- addresses, whose indirect block is in use if it has one, gives the file's block a place other than
-- block 0, the one it had if it had one, and the same place from then on, without changing the places
-- of the file's other blocks or its size.
pub bmap-Maps :
    (bn : ℕ) (ip : Inode) (fs : Fs)
    → bn < maxfile
    → length ip.addrs ≡ 8
    → IsSound fs
    → HasTwo fs
    → HasData ip fs
    → (a : ℕ) × (ip' : Inode) × (fs' : Fs) × Maps bn ip fs a ip' fs'
bmap-Maps bn ip fs lt len s two has = elim (dec_lt bn ndirect) [
  | yes d ↦
      let m = own_block-Owns bn ip fs (omega (arith, d, len)) s two in
      (m.0, m.1, m.2, direct-Maps bn ip fs m.0 m.1 m.2 d has m.3)
  | no d ↦
      let m = own_block-Owns ndirect ip fs (omega (arith, len)) s two in
      let q = entry_block-Enters m.0 (bn - ndirect) m.2 m.3.one.0 m.3.sound m.3.one.1 in
      (
        q.0,
        m.1,
        q.1,
        indirect-Maps bn ip fs m.0 m.1 m.2 q.0 q.1 (ground (arith, d)) (ground (arith, d, lt)) has
            m.3 q.2,
      )
]
