-- ===== src/Inode.antt =====
-- The contents of files in xv6-public/fs.c: `bmap`, `itrunc`, `readi` and `writei`, on the inode in
-- memory and the blocks of the disk.
pub mod Words
pub mod Blocks
pub mod Mapping
pub mod Places
mod Tests
use ele3021_spring.Common.{
  ℕ, zero, suc, ◌+◌, ◌-◌, ◌*◌, ◌/◌, ◌%◌, Bool, true, false, ◌==◌, ◌||◌, ltb, not, if◌then◌else◌,
  List, [], ◌∷◌, ◌++◌, Option, none, some, get_or, set, Outcome, done, panicked, ◌>>=◌, minus, slt,
  add32, min, length, take, word,
}
use ele3021_spring.Fs.{Fs, bsize, balloc, bfree, log_block}

abbrev pub ndirect : ℕ
ndirect = 7

abbrev pub nindirect : ℕ
nindirect = 128

abbrev pub maxfile : ℕ
maxfile = 135

-- `T_DIR`, `T_FILE` and `T_DEV`
abbrev pub t_dir : ℕ
t_dir = 1

abbrev pub t_file : ℕ
t_file = 2

abbrev pub t_dev : ℕ
t_dev = 3

-- `struct inode`; `lock` is the pid that holds its sleep lock, and `addrs` has 8 entries.
pub record Inode : Type 0 where
  pub dev : ℕ
  pub inum : ℕ
  pub ref : ℕ
  pub lock : Option ℕ
  pub valid : Bool
  pub type_ : ℕ
  pub major : ℕ
  pub minor : ℕ
  pub nlink : ℕ
  pub size : ℕ
  pub addrs : List ℕ
  pub userid : List ℕ
  pub mode : ℕ

-- A uint in a block, at place `o`: read, and stored in block `b`.
unfoldable pub get32 : (ℕ → ℕ) → ℕ → ℕ
get32 g o = g o + 256 * g (o + 1) + 65536 * g (o + 2) + 16777216 * g (o + 3)

unfoldable pub put32 : ℕ → ℕ → (ℕ → ℕ) → ℕ → ℕ
put32 o v g j =
    if o == j
    then v % 256
    else if o + 1 == j
    then v / 256 % 256
    else if o + 2 == j
    then v / 65536 % 256
    else if o + 3 == j
    then v / 16777216 % 256
    else g j

-- A change of the buffer of block `b`, which is then given to `log_write`.
abbrev pub edit : ℕ → ((ℕ → ℕ) → ℕ → ℕ) → Fs → Fs
edit b change fs =
    log_block b (record fs { bytes = λ c. if b == c then change (fs.bytes c) else fs.bytes c })

-- Entry `k` of `addrs`, with a block allocated for it if it has none.
unfoldable pub own_block : ℕ → Inode → Fs → Outcome (ℕ × Inode × Fs)
own_block k ip fs =
    let addr = get_or ip.addrs k 0 in
    if addr == 0
    then (balloc fs >>= λ r. done (r.0, record ip { addrs = set ip.addrs k r.0 }, r.1))
    else done (addr, ip, fs)

-- Entry `i` of the indirect block `b`, likewise.
unfoldable pub entry_block : ℕ → ℕ → Fs → Outcome (ℕ × Fs)
unfolding get32 put32
entry_block b i fs =
    let addr = get32 (fs.bytes b) (4 * i) in
    if addr == 0
    then (balloc fs >>= λ r. done (r.0, edit b (put32 (4 * i) r.0) r.1))
    else done (addr, fs)

unfoldable pub bmap : ℕ → Inode → Fs → Outcome (ℕ × Inode × Fs)
unfolding own_block entry_block
bmap bn ip fs =
    if ltb bn ndirect
    then own_block bn ip fs
    else if ltb (bn - ndirect) nindirect
    then (own_block ndirect ip fs >>= λ r.
        entry_block r.0 (bn - ndirect) r.2 >>= λ q. done (q.0, r.1, q.1))
    else panicked

-- `if(ip->addrs[i]){ bfree(...); ip->addrs[i] = 0; }`
unfoldable pub free_addr : ℕ → Inode → Fs → Outcome (Inode × Fs)
free_addr i ip fs =
    let b = get_or ip.addrs i 0 in
    if b == 0
    then done (ip, fs)
    else (bfree b fs >>= λ fs1. done (record ip { addrs = set ip.addrs i 0 }, fs1))

-- The loops of `itrunc` with `n` rounds left, from entry `i` of `addrs` and `j` of block `b` on.
unfoldable pub free_direct : ℕ → ℕ → Inode → Fs → Outcome (Inode × Fs)
unfolding free_addr
free_direct zero i ip fs = done (ip, fs)
free_direct (suc n) i ip fs = free_addr i ip fs >>= λ r. free_direct n (suc i) r.0 r.1

unfoldable pub free_entry : ℕ → ℕ → Fs → Outcome Fs
unfolding get32
free_entry j b fs = let a = get32 (fs.bytes b) (4 * j) in if a == 0 then done fs else bfree a fs

unfoldable pub free_entries : ℕ → ℕ → ℕ → Fs → Outcome Fs
unfolding free_entry
free_entries zero j b fs = done fs
free_entries (suc n) j b fs = free_entry j b fs >>= λ fs1. free_entries n (suc j) b fs1

-- The indirect block, with all of its entries.
unfoldable pub free_indirect : Inode → Fs → Outcome (Inode × Fs)
unfolding free_entries free_addr
free_indirect ip fs =
    let b = get_or ip.addrs ndirect 0 in
    if b == 0
    then done (ip, fs)
    else (free_entries nindirect 0 b fs >>= λ fs1. free_addr ndirect ip fs1)

-- `itrunc` up to its call of `iupdate`.
unfoldable pub itrunc : Inode → Fs → Outcome (Inode × Fs)
unfolding free_direct free_indirect
itrunc ip fs = free_direct ndirect 0 ip fs >>= λ r.
    free_indirect r.0 r.1 >>= λ q. done (record q.0 { size = 0 }, q.1)

-- The bytes of a block from place `o` on.
unfoldable pub slice : ℕ → ℕ → (ℕ → ℕ) → List ℕ
slice zero o g = []
slice (suc n) o g = g o ∷ slice n (suc o) g

unfoldable pub splice : List ℕ → ℕ → (ℕ → ℕ) → ℕ → ℕ
splice [] o g j = g j
splice (x ∷ xs) o g j = if o == j then x else splice xs (suc o) g j

-- `m`, what one round of the loops below moves, and the loops with fuel.
abbrev pub chunk : ℕ → ℕ → ℕ
chunk left off = min left (bsize - off % bsize)

unfoldable pub read_loop : ℕ → ℕ → ℕ → Inode → Fs → Outcome (List ℕ × Inode × Fs)
unfolding bmap slice
read_loop zero left off ip fs = done ([], ip, fs)
read_loop (suc fuel) left off ip fs = elim (left == 0) [
  | true ↦ done ([], ip, fs)
  | false ↦ bmap (off / bsize) ip fs >>= λ r.
      read_loop fuel (left - chunk left off) (off + chunk left off) r.1 r.2 >>= λ q.
      done (slice (chunk left off) (off % bsize) (r.2.bytes r.0) ++ q.0, q.1, q.2)
]

-- The test of `readi` and `writei` on a 32-bit offset and count.
unfoldable pub bad_range : ℕ → ℕ → Inode → Bool
bad_range off n ip = ltb ip.size off || ltb (add32 off n) off

unfoldable pub drop_first : ℕ → List ℕ → List ℕ
drop_first zero xs = xs
drop_first (suc n) [] = []
drop_first (suc n) (x ∷ xs) = drop_first n xs

-- The loop of `writei` for the bytes that are left.
unfoldable pub write_loop : ℕ → List ℕ → ℕ → Inode → Fs → Outcome (ℕ × Inode × Fs)
unfolding bmap splice drop_first
write_loop zero src off ip fs = done (off, ip, fs)
write_loop (suc fuel) src off ip fs = elim (length src == 0) [
  | true ↦ done (off, ip, fs)
  | false ↦ bmap (off / bsize) ip fs >>= λ r.
      let m = chunk (length src) off in
      write_loop fuel (drop_first m src) (off + m) r.1
        (edit r.0 (splice (take m src) (off % bsize)) r.2)
]

-- `devsw`: whether a major number has a function, and what it does.
pub record Devices : Type 0 where
  pub has_read : ℕ → Bool
  pub has_write : ℕ → Bool
  pub read : Inode → ℕ → Fs → Outcome (Option (List ℕ) × Inode × Fs)
  pub write : Inode → List ℕ → Fs → Outcome (Option ℕ × Inode × Fs)

abbrev pub ndev : ℕ
ndev = 10

-- A major number, as a 16-bit word, below 0 or too large.
abbrev pub bad_major : Inode → Bool
bad_major ip = not (ltb ip.major ndev)

-- `none` stands for -1. `iupdate` is that of the inode cache.
module _ (devsw : Devices) (iupdate : Inode → Fs → Fs) where
  -- `readi`: the bytes read.
  unfoldable pub readi : ℕ → ℕ → Inode → Fs → Outcome (Option (List ℕ) × Inode × Fs)
  unfolding bad_range read_loop
  readi off n ip fs =
      if ip.type_ == t_dev
      then if bad_major ip || not (devsw.has_read ip.major)
        then done (none, ip, fs)
        else devsw.read ip n fs
      else if bad_range off n ip
      then done (none, ip, fs)
      else (let left = if ltb ip.size (add32 off n) then ip.size - off else n in
          read_loop (left + 1) left off ip fs >>= λ r. done (some r.0, r.1, r.2))

  -- `writei`: how many bytes were written.
  unfoldable pub writei : List ℕ → ℕ → Inode → Fs → Outcome (Option ℕ × Inode × Fs)
  unfolding bad_range write_loop
  writei src off ip fs =
      if ip.type_ == t_dev
      then if bad_major ip || not (devsw.has_write ip.major)
        then done (none, ip, fs)
        else devsw.write ip src fs
      else if bad_range off (length src) ip
      then done (none, ip, fs)
      else if ltb (maxfile * bsize) (add32 off (length src))
      then done (none, ip, fs)
      else (write_loop (length src + 1) src off ip fs >>= λ r.
          if ltb 0 (length src)
          then if ltb r.1.size r.0
            then (let ip1 = record r.1 { size = r.0 } in
                done (some (length src), ip1, iupdate ip1 r.2))
            else done (some (length src), r.1, r.2)
          else done (some (length src), r.1, r.2))
