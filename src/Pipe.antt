-- ===== src/Pipe.antt =====
-- xv6-public/pipe.c: `pipewrite`, `piperead` and `pipeclose`, each up to the point where it sleeps
-- or returns. `p->lock`, the wakeups and `kfree` are left out.
pub mod Window
pub mod Fifo
mod Tests
use ele3021_spring.Common.{
  ℕ, Bool, if◌then◌else◌, ◌%◌, add32, List, ◌==◌, ◌∷◌, [], false, ◌+◌, suc, ◌&&◌, not, ◌||◌, zero,
  length,
}

abbrev pub pipesize : ℕ
pipesize = 512

-- `struct pipe`; the counters are 32-bit and wrap around.
pub record Pipe : Type 0 where
  pub bytes : ℕ → ℕ
  pub nread : ℕ
  pub nwrite : ℕ
  pub readopen : Bool
  pub writeopen : Bool

-- What a call does: return a count, return -1, or sleep with `i` bytes done.
pub data Reply : Type 0 where
  returned : ℕ → Reply
  refused : Reply
  sleeps : ℕ → Reply

abbrev pub store : (ℕ → ℕ) → ℕ → ℕ → ℕ → ℕ
store f i v j = if i == j then v else f j

unfoldable pub is_full : Pipe → Bool
is_full p = p.nwrite == add32 p.nread pipesize

-- `p->data[p->nwrite++ % PIPESIZE] = c`
unfoldable pub put : ℕ → Pipe → Pipe
put c p = record p { bytes = store p.bytes (p.nwrite % pipesize) c; nwrite = add32 p.nwrite 1 }

-- The loop of `pipewrite` from byte `i` on, for a caller with that `killed`.
unfoldable pub write_from : Bool → ℕ → List ℕ → Pipe → Reply × Pipe
unfolding is_full put
write_from killed i [] p = (returned i, p)
write_from killed i (c ∷ cs) p =
    let more = write_from killed (i + 1) cs (put c p) in
    if is_full p then (if not p.readopen || killed then (refused, p) else (sleeps i, p)) else more

unfoldable pub pipewrite : Bool → List ℕ → Pipe → Reply × Pipe
unfolding write_from
pipewrite killed cs p = write_from killed 0 cs p

-- `p->data[p->nread++ % PIPESIZE]`
unfoldable pub take_byte : Pipe → Pipe
take_byte p = record p { nread = add32 p.nread 1 }

-- The copying loop of `piperead` with `n` rounds left: the bytes read, in order.
unfoldable pub read_loop : ℕ → Pipe → List ℕ × Pipe
unfolding take_byte
read_loop zero p = ([], p)
read_loop (suc n) p =
    let more = read_loop n (take_byte p) in
    if p.nread == p.nwrite then ([], p) else (p.bytes (p.nread % pipesize) ∷ more.0, more.1)

-- `none` for the bytes when the call sleeps or returns -1.
unfoldable pub piperead : Bool → ℕ → Pipe → Reply × List ℕ × Pipe
unfolding read_loop
piperead killed n p =
    if p.nread == p.nwrite && p.writeopen
    then (if killed then (refused, [], p) else (sleeps 0, [], p))
    else (let r = read_loop n p in (returned (length r.0), r.0, r.1))

-- `pipeclose`: whether the pipe's page is freed, and the pipe.
unfoldable pub pipeclose : Bool → Pipe → Bool × Pipe
pipeclose writable p =
    let q = if writable then record p { writeopen = false } else record p { readopen = false } in
    (not q.readopen && not q.writeopen, q)
