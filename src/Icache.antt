-- ===== src/Icache.antt =====
-- The inode cache of xv6-public/fs.c and the inodes on the disk: `iget`, `idup`, `ilock`, `iunlock`,
-- `iput`, `iupdate` and `ialloc`. A `struct inode *` is a slot of the cache. A call that has to wait
-- for a sleep lock (xv6-public/sleeplock.c) answers none.
pub mod Scan
pub mod Unique
pub mod Bytes
pub mod Layout
pub mod Dinode
mod Tests
use ele3021_spring.Common.{
  ℕ, Bool, Outcome, set, List, false, ◌/◌, ◌%◌, ◌+◌, Option, if◌then◌else◌, panicked, done,
  get_elem?, slt, none, ◌>>=◌, [], ◌∷◌, ◌*◌, ◌++◌, ◌&&◌, ◌==◌, ◌-◌, true, faulted, some, add32, suc,
  replicate, zero, not, sub32, ◌||◌,
}
use ele3021_spring.CString.{text, strcpy}
use ele3021_spring.Fs.{Fs}
use ele3021_spring.Inode.{Inode, edit, splice, slice, itrunc, t_dir, t_file, t_dev}

-- `icache`
pub record Icache : Type 0 where
  pub locked : Bool
  pub inode : List Inode

unfoldable pub acquire : Icache → Outcome Icache
acquire c = if c.locked then panicked else done (record c { locked = true })

unfoldable pub release : Icache → Outcome Icache
release c = if c.locked then done (record c { locked = false }) else panicked

-- The slot at a pointer; a pointer that is no slot is not followed.
abbrev pub load_inode : ℕ → Icache → Outcome Inode
load_inode i c = elim (get_elem? c.inode i) [ none ↦ faulted | some ip ↦ done ip ]

abbrev pub store_inode : ℕ → Inode → Icache → Icache
store_inode i ip c = record c { inode = set c.inode i ip }

-- The test of `iget` for a slot that has the inode.
unfoldable pub is_for : ℕ → ℕ → Inode → Bool
is_for dev inum ip = slt 0 ip.ref && ip.dev == dev && ip.inum == inum

-- The loop of `iget` from slot `i` on: the slot that has the inode, and the first without references.
unfoldable pub cached : ℕ → ℕ → ℕ → List Inode → Option ℕ
unfolding is_for
cached dev inum i [] = none
cached dev inum i (ip ∷ ips) = if is_for dev inum ip then some i else cached dev inum (suc i) ips

unfoldable pub empty_slot : ℕ → List Inode → Option ℕ
empty_slot i [] = none
empty_slot i (ip ∷ ips) = if ip.ref == 0 then some i else empty_slot (suc i) ips

-- A slot that is given to another inode.
abbrev pub recycled : ℕ → ℕ → Inode → Inode
recycled dev inum ip = record ip { dev = dev; inum = inum; ref = 1; valid = false }

unfoldable pub iget : ℕ → ℕ → Icache → Outcome (ℕ × Icache)
unfolding cached empty_slot acquire release
iget dev inum c = acquire c >>= λ c1. elim (cached dev inum 0 c1.inode) [
  | some i ↦ load_inode i c1 >>= λ ip.
      release (store_inode i (record ip { ref = add32 ip.ref 1 }) c1) >>= λ c2. done (i, c2)
  | none ↦ elim (empty_slot 0 c1.inode) [
    | none ↦ panicked
    | some i ↦ load_inode i c1 >>= λ ip.
        release (store_inode i (recycled dev inum ip) c1) >>= λ c2. done (i, c2)
  ]
]

unfoldable pub idup : ℕ → Icache → Outcome Icache
unfolding acquire release
idup i c = acquire c >>= λ c1.
    load_inode i c1 >>= λ ip. release (store_inode i (record ip { ref = add32 ip.ref 1 }) c1)

-- The bytes of a number, the lowest first, and the number of some bytes.
unfoldable pub bytes_of : ℕ → ℕ → List ℕ
bytes_of zero v = []
bytes_of (suc n) v = v % 256 ∷ bytes_of n (v / 256)

unfoldable pub num : List ℕ → ℕ
num [] = 0
num (b ∷ bs) = b + 256 * num bs

-- `IPB`, the size of `struct dinode`, and where the dinode of an inode stands: `IBLOCK` and the place
-- in that block.
abbrev pub ipb : ℕ
ipb = 8

abbrev pub dinode_size : ℕ
dinode_size = 64

abbrev pub iblock : ℕ → Fs → ℕ
iblock inum fs = inum / ipb + fs.sb.inodestart

abbrev pub dinode_at : ℕ → ℕ
dinode_at inum = inum % ipb * dinode_size

-- The block addresses of an inode as bytes, and back.
unfoldable pub addr_bytes : List ℕ → List ℕ
unfolding bytes_of
addr_bytes [] = []
addr_bytes (a ∷ more) = bytes_of 4 a ++ addr_bytes more

unfoldable pub addrs_at : ℕ → ℕ → (ℕ → ℕ) → List ℕ
unfolding num slice
addrs_at zero o g = []
addrs_at (suc n) o g = num (slice 4 o g) ∷ addrs_at n (o + 4) g

-- The stores of `iupdate` to the dinode at place `o`, in its order. The copy of `userid` runs on
-- into `mode` if it has no NUL.
unfoldable pub save_dinode : Inode → ℕ → (ℕ → ℕ) → ℕ → ℕ
unfolding splice bytes_of addr_bytes
save_dinode ip o g = splice (addr_bytes ip.addrs) (o + 12) (
    splice (bytes_of 4 ip.mode) (o + 60) (
      splice (text (ip.userid ++ bytes_of 4 ip.mode) ++ (0 ∷ [])) (o + 44) (
        splice (bytes_of 4 ip.size) (o + 8) (
          splice (bytes_of 2 ip.nlink) (o + 6) (
            splice (bytes_of 2 ip.minor) (o + 4)
              (splice (bytes_of 2 ip.major) (o + 2) (splice (bytes_of 2 ip.type_) o g)))))))

unfoldable pub iupdate : Inode → Fs → Fs
unfolding save_dinode
iupdate ip fs = edit (iblock ip.inum fs) (save_dinode ip (dinode_at ip.inum)) fs

-- What `ilock` copies from the dinode at place `o`.
unfoldable pub load_dinode : ℕ → (ℕ → ℕ) → Inode → Inode
unfolding slice num addrs_at
load_dinode o g ip = record ip {
  type_ = num (slice 2 o g);
  major = num (slice 2 (o + 2) g);
  minor = num (slice 2 (o + 4) g);
  nlink = num (slice 2 (o + 6) g);
  size = num (slice 4 (o + 8) g);
  userid = strcpy ip.userid 0 (slice 20 (o + 44) g);
  mode = num (slice 4 (o + 60) g);
  addrs = addrs_at 8 (o + 12) g;
}

-- The cache and the disk.
pub record Inodes : Type 0 where
  pub icache : Icache
  pub fs : Fs

abbrev pub put_slot : ℕ → Inode → Inodes → Inodes
put_slot i ip w = record w { icache = store_inode i ip w.icache }

-- The body of `ilock` under the sleep lock.
unfoldable pub read_in : Inode → Fs → Outcome Inode
unfolding load_dinode
read_in ip fs =
    if ip.valid
    then done ip
    else (let ip1 = record (load_dinode (dinode_at ip.inum) (fs.bytes (iblock ip.inum fs)) ip) {
      valid = true;
    } in
        if ip1.type_ == 0 then panicked else done ip1)

-- `pid` is that of the process, and the pointer may be null.
unfoldable pub ilock : ℕ → Option ℕ → Inodes → Outcome (Option Inodes)
unfolding read_in
ilock pid none w = panicked
ilock pid (some i) w = load_inode i w.icache >>= λ ip.
    if slt ip.ref 1 then panicked else elim ip.lock [
      | some other ↦ done none
      | none ↦
          read_in (record ip { lock = some pid }) w.fs >>= λ ip1. done (some (put_slot i ip1 w))
    ]

-- `holdingsleep`
abbrev pub holds : ℕ → Inode → Bool
holds pid ip = elim ip.lock [ none ↦ false | some other ↦ other == pid ]

unfoldable pub iunlock : ℕ → Option ℕ → Inodes → Outcome Inodes
iunlock pid none w = panicked
iunlock pid (some i) w = load_inode i w.icache >>= λ ip.
    if not (holds pid ip) || slt ip.ref 1
    then panicked
    else done (put_slot i (record ip { lock = none }) w)

-- What `iput` does under the sleep lock: the inode is freed with its contents if this was the last
-- reference and nothing links to it. `itrunc` updates the dinode, and `iput` once more.
unfoldable pub free_inode : Inode → Fs → Outcome (Inode × Fs)
unfolding itrunc iupdate
free_inode ip fs =
    if ip.valid && ip.nlink == 0 && ip.ref == 1
    then (itrunc ip fs >>= λ r.
        let ip1 = record r.0 { type_ = 0 } in
        done (record ip1 { valid = false }, iupdate ip1 (iupdate r.0 r.1)))
    else done (ip, fs)

unfoldable pub iput : ℕ → Inodes → Outcome (Option Inodes)
unfolding free_inode acquire release
iput i w = load_inode i w.icache >>= λ ip. elim ip.lock [
  | some other ↦ done none
  | none ↦ free_inode ip w.fs >>= λ r. acquire w.icache >>= λ c1.
      release (store_inode i (record r.0 { ref = sub32 r.0.ref 1 }) c1) >>= λ c2.
      done (some (record { icache = c2; fs = r.1 }))
]

-- "SYSTEM", and the mode that `ialloc` gives an inode of each type.
abbrev pub system : List ℕ
system = b'S' ∷ b'Y' ∷ b'S' ∷ b'T' ∷ b'E' ∷ b'M' ∷ []

unfoldable pub first_mode : ℕ → ℕ
first_mode type =
    if type == t_file then 52 else if type == t_dir then 61 else if type == t_dev then 63 else 0

-- The new dinode at place `o`.
unfoldable pub new_dinode : ℕ → ℕ → (ℕ → ℕ) → ℕ → ℕ
unfolding splice bytes_of first_mode
new_dinode type o g = splice (bytes_of 4 (first_mode type)) (o + 60) (
    splice (system ++ (0 ∷ [])) (o + 44)
      (splice (bytes_of 2 type) o (splice (replicate dinode_size 0) o g)))

-- The loop of `ialloc` with `n` rounds left, from `inum` on: the inode number.
unfoldable pub ialloc_loop : ℕ → ℕ → ℕ → Fs → Outcome (ℕ × Fs)
unfolding num slice new_dinode
ialloc_loop zero inum type fs = panicked
ialloc_loop (suc n) inum type fs =
    elim (num (slice 2 (dinode_at inum) (fs.bytes (iblock inum fs))) == 0) [
      | true ↦ done (inum, edit (iblock inum fs) (new_dinode type (dinode_at inum)) fs)
      | false ↦ ialloc_loop n (suc inum) type fs
    ]

unfoldable pub ialloc : ℕ → ℕ → Inodes → Outcome (ℕ × Inodes)
unfolding ialloc_loop iget
ialloc dev type w = ialloc_loop (w.fs.sb.ninodes - 1) 1 type w.fs >>= λ r.
    iget dev r.0 w.icache >>= λ g. done (g.0, record { icache = g.1; fs = r.1 })
