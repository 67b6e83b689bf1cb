-- ===== src/File.antt =====
-- Open files: the file table of xv6-public/file.c and file.h. A `struct file *` is a slot of the
-- table. The inode and pipe calls that reading and writing make are an interface, `Backend`, over
-- the state `S` of the rest of the kernel, the caller's memory included.
pub mod Refs
pub mod Write
mod Tests
use ele3021_spring.Common.{
  ℕ, suc, zero, ◌+◌, ◌-◌, ◌*◌, ◌/◌, Bool, true, false, ◌==◌, ltb, if◌then◌else◌, List, [], ◌∷◌,
  Option, none, some, get_elem?, set, Outcome, done, panicked, faulted, ◌>>=◌, slt, add32, sub32,
  minus, not,
}
use ele3021_spring.Log.{maxopblocks}

pub data FileType : Type 0 where
  fd_none fd_pipe fd_inode : FileType

-- `struct file`; `pipe` and `ip` are addresses.
pub record File : Type 0 where
  pub type_ : FileType
  pub ref : ℕ
  pub readable : ℕ
  pub writable : ℕ
  pub pipe : ℕ
  pub ip : ℕ
  pub off : ℕ

-- `ftable`
pub record Ftable : Type 0 where
  pub locked : Bool
  pub file : List File

unfoldable pub acquire : Ftable → Outcome Ftable
acquire t = if t.locked then panicked else done (record t { locked = true })

unfoldable pub release : Ftable → Outcome Ftable
release t = if t.locked then done (record t { locked = false }) else panicked

-- The loop of `filealloc` from slot `i` on.
unfoldable pub free_slot : ℕ → List File → Option ℕ
free_slot i [] = none
free_slot i (f ∷ fs) = if f.ref == 0 then some i else free_slot (suc i) fs

abbrev pub store_file : ℕ → File → Ftable → Ftable
store_file i f t = record t { file = set t.file i f }

-- The slot at a pointer; a pointer that is no slot is not followed.
abbrev pub load_file : ℕ → Ftable → Outcome File
load_file i t = elim (get_elem? t.file i) [ none ↦ faulted | some f ↦ done f ]

unfoldable pub filealloc : Ftable → Outcome (Option ℕ × Ftable)
unfolding free_slot
filealloc t = acquire t >>= λ t1. elim (free_slot 0 t1.file) [
  | none ↦ release t1 >>= λ t2. done (none, t2)
  | some i ↦ load_file i t1 >>= λ f.
      release (store_file i (record f { ref = 1 }) t1) >>= λ t2. done (some i, t2)
]

unfoldable pub filedup : ℕ → Ftable → Outcome Ftable
filedup i t = acquire t >>= λ t1. load_file i t1 >>= λ f.
    if slt f.ref 1 then panicked else release (store_file i (record f { ref = add32 f.ref 1 }) t1)

-- What `fileclose` goes on to do after it released the table's lock.
pub data Closing : Type 0 where
  still_open : Closing
  close_pipe : ℕ → ℕ → Closing
  put_inode : ℕ → Closing
  close_nothing : Closing

unfoldable pub closing : File → Closing
closing f = elim f.type_ [
  | fd_none ↦ close_nothing
  | fd_pipe ↦ close_pipe f.pipe f.writable
  | fd_inode ↦ put_inode f.ip
]

unfoldable pub fileclose : ℕ → Ftable → Outcome (Closing × Ftable)
unfolding closing
fileclose i t = acquire t >>= λ t1. load_file i t1 >>= λ f.
    if slt f.ref 1
    then panicked
    else if slt 0 (sub32 f.ref 1)
    then (release (store_file i (record f { ref = sub32 f.ref 1 }) t1) >>= λ t2.
        done (still_open, t2))
    else (release (store_file i (record f { ref = 0; type_ = fd_none }) t1) >>= λ t2.
        done (closing f, t2))

-- The calls below files: results are ints, the offset of `readi` and `writei` comes before the
-- count.
pub record Backend (S : Type 0) : Type 0 where
  pub piperead : ℕ → ℕ → S → Outcome (ℕ × S)
  pub pipewrite : ℕ → ℕ → S → Outcome (ℕ × S)
  pub begin_op : S → Outcome S
  pub end_op : S → Outcome S
  pub ilock : ℕ → S → Outcome S
  pub iunlock : ℕ → S → Outcome S
  pub readi : ℕ → ℕ → ℕ → S → Outcome (ℕ × S)
  -- `writei` of inode, place in the caller's buffer, offset and count
  pub writei : ℕ → ℕ → ℕ → ℕ → S → Outcome (ℕ × S)

-- `f->off += r` if `r > 0`
unfoldable pub advance : ℕ → File → File
advance r f = if slt 0 r then record f { off = add32 f.off r } else f

-- `max` of `filewrite`, and the size of the next piece.
abbrev pub max_piece : ℕ
max_piece = (maxopblocks - 1 - 1 - 2) / 2 * 512

unfoldable pub piece : ℕ → ℕ → ℕ
piece n i = if ltb max_piece (n - i) then max_piece else n - i

module _ {S : Type 0} (fs : Backend S) where
  unfoldable pub fileread : File → ℕ → S → Outcome (ℕ × File × S)
  unfolding advance
  fileread f n s = if f.readable == 0 then done (minus 1, f, s) else elim f.type_ [
    | fd_pipe ↦ fs.piperead f.pipe n s >>= λ r. done (r.0, f, r.1)
    | fd_inode ↦ fs.ilock f.ip s >>= λ s1. fs.readi f.ip f.off n s1 >>= λ r.
        fs.iunlock f.ip r.1 >>= λ s2. done (r.0, advance r.0 f, s2)
    | fd_none ↦ panicked
  ]

  -- One transaction of `filewrite`: the `n1` bytes from byte `i` of the buffer on.
  unfoldable pub write_piece : ℕ → ℕ → File → S → Outcome (ℕ × File × S)
  unfolding advance
  write_piece i n1 f s = fs.begin_op s >>= λ s1. fs.ilock f.ip s1 >>= λ s2.
      fs.writei f.ip i f.off n1 s2 >>= λ r.
      fs.iunlock f.ip r.1 >>= λ s3. fs.end_op s3 >>= λ s4. done (r.0, advance r.0 f, s4)

  -- The loop of `filewrite` from byte `i` on, with fuel; a count below 0 ends it.
  unfoldable pub write_pieces : ℕ → ℕ → ℕ → File → S → Outcome (ℕ × File × S)
  unfolding write_piece piece
  write_pieces zero n i f s = done (minus 1, f, s)
  write_pieces (suc fuel) n i f s = elim (ltb i n) [
    | false ↦ done (if i == n then n else minus 1, f, s)
    | true ↦ write_piece i (piece n i) f s >>= λ r. elim (slt r.0 0) [
      | true ↦ done (minus 1, r.1, r.2)
      | false ↦ elim (r.0 == piece n i) [
        | false ↦ panicked
        | true ↦ write_pieces fuel n (i + r.0) r.1 r.2
      ]
    ]
  ]

  unfoldable pub filewrite : File → ℕ → S → Outcome (ℕ × File × S)
  unfolding write_pieces
  filewrite f n s = if f.writable == 0 then done (minus 1, f, s) else elim f.type_ [
    | fd_pipe ↦ fs.pipewrite f.pipe n s >>= λ r. done (r.0, f, r.1)
    | fd_inode ↦ if slt n 0 then done (minus 1, f, s) else write_pieces (n + 1) n 0 f s
    | fd_none ↦ panicked
  ]
