-- ===== src/Bcache.antt =====
-- The buffer cache of xv6-public/bio.c: `binit`, `bget`, `bread`, `bwrite` and `brelse`. A `struct buf *`
-- is a slot, and `&bcache.head` the slot `head`. A sleep lock (xv6-public/sleeplock.c) is the pid that
-- holds it. What a buffer holds of its block is left to `iderw`.
pub mod Ring
pub mod Recent
pub mod Scan
pub mod Found
pub mod Unique
pub mod Get
mod Tests
use ele3021_spring.Common.{
  ℕ, Option, Bool, if◌then◌else◌, Outcome, suc, false, some, ◌==◌, panicked, done, none, ◌/◌, ◌>>=◌,
  not, true, zero, ◌&&◌, ◌%◌, add32, ◌+◌, sub32,
}

pub record Buf : Type 0 where
  pub flags : ℕ
  pub dev : ℕ
  pub blockno : ℕ
  pub lock : Option ℕ
  pub refcnt : ℕ

-- `bcache`, with the links of all buffers and of the head.
pub record Bcache : Type 0 where
  pub locked : Bool
  pub buf : ℕ → Buf
  pub prev : ℕ → ℕ
  pub next : ℕ → ℕ

abbrev pub nbuf : ℕ
nbuf = 30

abbrev pub head : ℕ
head = nbuf

-- A store to a field of the structure at a pointer.
abbrev pub store : {A : Type 0} → (ℕ → A) → ℕ → A → ℕ → A
store f i x j = if j == i then x else f j

unfoldable pub acquire : Bcache → Outcome Bcache
acquire c = if c.locked then panicked else done (record c { locked = true })

unfoldable pub release : Bcache → Outcome Bcache
release c = if c.locked then done (record c { locked = false }) else panicked

-- The four stores that put buffer `i` at the head of the list.
unfoldable pub push_front : ℕ → Bcache → Bcache
push_front i c =
    let c1 = record c { next = store c.next i (c.next head) } in
    let c2 = record c1 { prev = store c1.prev i head } in
    let c3 = record c2 { prev = store c2.prev (c2.next head) i } in
    record c3 { next = store c3.next head i }

-- The two stores that take buffer `i` off the list.
unfoldable pub unlink : ℕ → Bcache → Bcache
unlink i c =
    let c1 = record c { prev = store c.prev (c.next i) (c.prev i) } in
    record c1 { next = store c1.next (c1.prev i) (c1.next i) }

-- The loop of `binit` with `n` buffers left, from buffer `i` on.
unfoldable pub init_loop : ℕ → ℕ → Bcache → Bcache
unfolding push_front
init_loop zero i c = c
init_loop (suc n) i c =
    init_loop n (suc i)
      (push_front i (record c { buf = store c.buf i (record (c.buf i) { lock = none }) }))

unfoldable pub binit : Bcache → Bcache
unfolding init_loop
binit c =
    init_loop nbuf 0
      (record c { locked = false; prev = store c.prev head head; next = store c.next head head })

-- What `bget` comes to: the buffer with its lock, or the wait for the lock.
pub data Gotten : Type 0 where
  got : ℕ → Bcache → Gotten
  sleeps : ℕ → Bcache → Gotten

abbrev pub has_block : ℕ → ℕ → Buf → Bool
has_block dev blockno b = b.dev == dev && b.blockno == blockno

-- `B_VALID` and `B_DIRTY`.
abbrev pub is_valid : Buf → Bool
is_valid b = b.flags / 2 % 2 == 1

abbrev pub is_dirty : Buf → Bool
is_dirty b = b.flags / 4 % 2 == 1

abbrev pub is_unused : Buf → Bool
is_unused b = b.refcnt == 0 && not (is_dirty b)

-- The loops of `bget` with fuel, from buffer `i` on along `links`: the first buffer that passes.
unfoldable pub scan : ℕ → (Buf → Bool) → (ℕ → ℕ) → ℕ → Bcache → Option ℕ
scan zero test links i c = none
scan (suc n) test links i c = elim (i == head) [
  | true ↦ none
  | false ↦ elim (test (c.buf i)) [ true ↦ some i | false ↦ scan n test links (links i) c ]
]

-- `acquiresleep` of a buffer.
unfoldable pub acquiresleep : ℕ → ℕ → Bcache → Gotten
acquiresleep pid i c = elim (c.buf i).lock [
  | some p ↦ sleeps i c
  | none ↦ got i (record c { buf = store c.buf i (record (c.buf i) { lock = some pid }) })
]

unfoldable pub bget : ℕ → ℕ → ℕ → Bcache → Outcome Gotten
unfolding acquire release scan acquiresleep
bget pid dev blockno c = acquire c >>= λ c1.
    elim (scan nbuf (has_block dev blockno) c1.next (c1.next head) c1) [
      | some i ↦
          let b = c1.buf i in
          release (record c1 { buf = store c1.buf i (record b { refcnt = add32 b.refcnt 1 }) })
          >>= λ c2. done (acquiresleep pid i c2)
      | none ↦ elim (scan nbuf is_unused c1.prev (c1.prev head) c1) [
        | none ↦ panicked
        | some i ↦
            let b = record (c1.buf i) { dev = dev; blockno = blockno; flags = 0; refcnt = 1 } in
            release (record c1 { buf = store c1.buf i b }) >>= λ c2. done (acquiresleep pid i c2)
      ]
    ]

unfoldable pub holdingsleep : ℕ → Buf → Bool
holdingsleep pid b = elim b.lock [ none ↦ false | some p ↦ p == pid ]

-- `iderw` is that of the disk driver, of a buffer.
module _ (iderw : ℕ → Bcache → Outcome Bcache) where
  unfoldable pub bread : ℕ → ℕ → ℕ → Bcache → Outcome Gotten
  unfolding bget
  bread pid dev blockno c = bget pid dev blockno c >>= λ g. elim g [
    | sleeps i c1 ↦ done (sleeps i c1)
    | got i c1 ↦
        if is_valid (c1.buf i) then done (got i c1) else (iderw i c1 >>= λ c2. done (got i c2))
  ]

  unfoldable pub bwrite : ℕ → ℕ → Bcache → Outcome Bcache
  unfolding holdingsleep
  bwrite pid i c =
      let b = c.buf i in
      if not (holdingsleep pid b)
      then panicked
      else iderw i (record c {
        buf = store c.buf i (record b { flags = if is_dirty b then b.flags else b.flags + 4 });
      })

unfoldable pub brelse : ℕ → ℕ → Bcache → Outcome Bcache
unfolding holdingsleep acquire release unlink push_front
brelse pid i c =
    if not (holdingsleep pid (c.buf i))
    then panicked
    else (acquire (record c { buf = store c.buf i (record (c.buf i) { lock = none }) }) >>= λ c1.
        let b = c1.buf i in
        let n = sub32 b.refcnt 1 in
        let c2 = record c1 { buf = store c1.buf i (record b { refcnt = n }) } in
        release (if n == 0 then push_front i (unlink i c2) else c2))
