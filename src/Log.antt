-- ===== src/Log.antt =====
-- xv6-public/log.c: the redo log of the file system. A block is its words; what `bread` returns is
-- the cached copy of a block, and `bwrite` sends it to the disk. A power failure is modelled by
-- `power`, the number of disk writes that still reach the disk.
pub mod Loops
pub mod Head
pub mod Recover
pub mod Restart
pub mod Crash
pub mod Space
pub mod Absorb
mod Tests
use ele3021_spring.Common.{
  ℕ, suc, zero, ◌+◌, ◌-◌, ◌*◌, Bool, true, false, ◌||◌, not, ◌==◌, ltb, leb, if◌then◌else◌, Outcome,
  done, panicked, ◌>>=◌, slt, sub32, ◌%◌, word, add32,
}

abbrev pub logsize : ℕ
logsize = 30

abbrev pub maxopblocks : ℕ
maxopblocks = 10

-- The words of a block.
abbrev pub Block : Type 0
Block = ℕ → ℕ

-- `struct log` with its header `lh` (`n` and `block`), the block cache and the disk.
pub record Log : Type 0 where
  pub start : ℕ
  pub size : ℕ
  pub outstanding : ℕ
  pub committing : Bool
  pub n : ℕ
  pub block : ℕ → ℕ
  pub cache : ℕ → Block
  pub dirty : ℕ → Bool
  pub disk : ℕ → Block
  pub power : ℕ

-- A store to one index of an array or memory.
abbrev pub update {ℓ} : {A : Type ℓ} → (ℕ → A) → ℕ → A → ℕ → A
update f i a j = if i == j then a else f j

-- `bwrite` of the buffer of block `b` after its data became `x`: cached, no longer dirty, and on
-- the disk if there is power.
unfoldable pub bwrite : ℕ → Block → Log → Log
bwrite b x w = record w {
  cache = update w.cache b x;
  dirty = update w.dirty b false;
  disk = if w.power == 0 then w.disk else update w.disk b x;
  power = w.power - 1;
}

-- The loop of `install_trans` with `r` rounds left, from `tail` on.
unfoldable pub install_loop : ℕ → ℕ → Log → Log
unfolding bwrite
install_loop zero tail w = w
install_loop (suc r) tail w =
    install_loop r (suc tail) (bwrite (w.block tail) (w.cache (w.start + tail + 1)) w)

unfoldable pub install_trans : Log → Log
unfolding install_loop
install_trans w = install_loop w.n 0 w

-- The loop of `write_log`.
unfoldable pub write_loop : ℕ → ℕ → Log → Log
unfolding bwrite
write_loop zero tail w = w
write_loop (suc r) tail w =
    write_loop r (suc tail) (bwrite (w.start + tail + 1) (w.cache (w.block tail)) w)

unfoldable pub write_log : Log → Log
unfolding write_loop
write_log w = write_loop w.n 0 w

-- The loops that copy block numbers out of and into a header block: word 0 is `n`, and word i + 1
-- is `block[i]`.
unfoldable pub read_blocks : ℕ → ℕ → Block → (ℕ → ℕ) → ℕ → ℕ
read_blocks zero i hb block = block
read_blocks (suc r) i hb block = read_blocks r (suc i) hb (update block i (hb (suc i)))

unfoldable pub store_blocks : ℕ → ℕ → (ℕ → ℕ) → Block → Block
store_blocks zero i block hb = hb
store_blocks (suc r) i block hb = store_blocks r (suc i) block (update hb (suc i) (block i))

unfoldable pub read_head : Log → Log
unfolding read_blocks
read_head w =
    let hb = w.cache w.start in record w { n = hb 0; block = read_blocks (hb 0) 0 hb w.block }

unfoldable pub write_head : Log → Log
unfolding store_blocks bwrite
write_head w = bwrite w.start (store_blocks w.n 0 w.block (update (w.cache w.start) 0 w.n)) w

unfoldable pub recover_from_log : Log → Log
unfolding read_head install_trans write_head
recover_from_log w = let w1 = install_trans (read_head w) in write_head (record w1 { n = 0 })

-- `initlog`, with the two numbers that it takes from the superblock.
unfoldable pub initlog : ℕ → ℕ → Log → Log
unfolding recover_from_log
initlog logstart nlog w = recover_from_log (record w { start = logstart; size = nlog })

unfoldable pub commit : Log → Log
unfolding write_log write_head install_trans
commit w =
    if ltb 0 w.n
    then (let w1 = install_trans (write_head (write_log w)) in write_head (record w1 { n = 0 }))
    else w

-- One round of the loop of `begin_op`: `false` when the caller has to sleep.
unfoldable pub begin_op : Log → Bool × Log
begin_op w =
    if w.committing
    then (false, w)
    else if slt logsize ((w.n + (w.outstanding + 1) * maxopblocks) % word)
    then (false, w)
    else (true, record w { outstanding = add32 w.outstanding 1 })

-- The first critical section of `end_op`: `true` when this caller commits.
unfoldable pub end_op_start : Log → Outcome (Bool × Log)
end_op_start w =
    let left = sub32 w.outstanding 1 in
    if w.committing
    then panicked
    else if left == 0
    then done (true, record w { outstanding = left; committing = true })
    else done (false, record w { outstanding = left })

unfoldable pub end_op : Log → Outcome Log
unfolding end_op_start commit
end_op w =
    end_op_start w >>= λ r. done (if r.0 then record (commit r.1) { committing = false } else r.1)

-- The loop of `log_write`: the first index below `n` that holds `b`, or `n`.
unfoldable pub find_block : ℕ → ℕ → (ℕ → ℕ) → ℕ → ℕ
find_block zero i block b = i
find_block (suc r) i block b = if block i == b then i else find_block r (suc i) block b

-- `log_write` of block `b` after its data became `x`.
unfoldable pub log_write : ℕ → Block → Log → Outcome Log
unfolding find_block
log_write b x w =
    if leb logsize w.n || leb (w.size - 1) w.n
    then panicked
    else if slt w.outstanding 1
    then panicked
    else (let i = find_block w.n 0 w.block b in
        done (record w {
          cache = update w.cache b x;
          block = update w.block i b;
          n = if i == w.n then w.n + 1 else w.n;
          dirty = update w.dirty b true;
        }))

-- The machine after a power failure: the cache holds what the disk holds.
unfoldable pub reboot : Log → Log
reboot w = record w {
  outstanding = 0;
  committing = false;
  n = 0;
  cache = w.disk;
  dirty = λ b. false;
}
