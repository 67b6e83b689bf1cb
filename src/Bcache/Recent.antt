-- ===== src/Bcache/Recent.antt =====
-- The order of use that the list of xv6-public/bio.c keeps.
use ele3021_spring.Bcache.Ring.{
  IsRing, push_front-IsRing, unlink-IsRing, Distinct-without, All-without,
}
use ele3021_spring.Bcache.{
  init_loop, binit, Bcache, suc, nbuf, store, push_front, head, unlink, brelse, holdingsleep,
  acquire, release, Buf,
}
use ele3021_spring.Common.{
  ℕ, List, ◌≤◌, [], ◌+◌, ◌≡◌, ◌∷◌, arith, none, zero, subst, sub32, ◌≢◌, if◌then◌else◌, ◌==◌, ◌++◌,
  false, true, some, ◌<◌, word, done, ℕ_discrete, refl, ap, ◌∙◌,
}
use ele3021_spring.Kalloc.Chain.{Absent}

-- The buffers below `i`, the last one first.
abbrev pub down_from : ℕ → List ℕ
down_from zero = []
down_from (suc i) = i ∷ down_from i

down_from-Absent : (i j : ℕ) → i ≤ j → Absent j (down_from i)
down_from-Absent zero j h = tt
down_from-Absent (suc i) j h = (omega (arith, h), down_from-Absent i j (omega (arith, h)))

init_loop-IsRing :
    (n i : ℕ) (c : Bcache)
    → i + n ≤ nbuf
    → IsRing c (down_from i)
    → IsRing (init_loop n i c) (down_from (i + n))
unfolding init_loop
init_loop-IsRing zero i c h r = subst (λ k. IsRing c (down_from k)) (omega arith) r
init_loop-IsRing (suc n) i c h r =
    let c1 : Bcache = record c { buf = store c.buf i (record (c.buf i) { lock = none }) } in
    let r1 : IsRing c1 (down_from i) = record {
      links = r.links;
      distinct = r.distinct;
      apart = r.apart;
    } in
    subst (λ k. IsRing (init_loop n (suc i) (push_front i c1)) (down_from k)) (omega arith)
      (init_loop-IsRing n (suc i) (push_front i c1) (omega (arith, h)) (
        push_front-IsRing c1 (down_from i) i r1 (down_from-Absent i i (omega arith))
          (omega (arith, h))))

-- `binit` makes the ring of all buffers.
pub binit-IsRing : (c : Bcache) → IsRing (binit c) (down_from nbuf)
unfolding binit
binit-IsRing c =
    let c0 : Bcache = record c {
      locked = false;
      prev = store c.prev head head;
      next = store c.next head head;
    } in
    init_loop-IsRing nbuf 0 c0 (omega arith)
      (record { links = (ground arith, ground arith); distinct = tt; apart = tt })

-- What `brelse` leaves: the buffer unlocked, with one reference less, and in front of the list if that
-- was the last one; all other buffers and their order as they were.
pub record Releases (c c' : Bcache) (i : ℕ) (xs ys : List ℕ) : Type 0 where
  pub here : c'.buf i ≡ record (c.buf i) { lock = none; refcnt = sub32 (c.buf i).refcnt 1 }
  pub others : (j : ℕ) → i ≢ j → c'.buf j ≡ c.buf j
  pub ring : IsRing c' (if (c.buf i).refcnt == 1 then i ∷ (xs ++ ys) else xs ++ (i ∷ ys))
  pub free : c'.locked ≡ false

-- The cache after the lock and the reference are given back.
abbrev dropped : ℕ → Bcache → Bcache
dropped i c = record c {
  locked = true;
  buf =
      store (store c.buf i (record (c.buf i) { lock = none })) i
        (record (c.buf i) { lock = none; refcnt = sub32 (c.buf i).refcnt 1 });
}

dropped-IsRing : (i : ℕ) (c : Bcache) (ring : List ℕ) → IsRing c ring → IsRing (dropped i c) ring
dropped-IsRing i c ring r = record { links = r.links; distinct = r.distinct; apart = r.apart }

dropped-here :
    (i : ℕ) (c : Bcache)
    → (dropped i c).buf i ≡ record (c.buf i) { lock = none; refcnt = sub32 (c.buf i).refcnt 1 }
dropped-here i c = ground arith

dropped-other : (i : ℕ) (c : Bcache) (j : ℕ) → i ≢ j → (dropped i c).buf j ≡ c.buf j
dropped-other i c j ne = ground (arith, ne)

moved-buf : (i : ℕ) (c : Bcache) → (push_front i (unlink i c)).buf ≡ c.buf
unfolding push_front unlink
moved-buf i c = refl

-- The buffer at the front.
moved-IsRing :
    (i : ℕ) (c : Bcache) (xs ys : List ℕ)
    → IsRing c (xs ++ (i ∷ ys))
    → IsRing (push_front i (unlink i c)) (i ∷ (xs ++ ys))
moved-IsRing i c xs ys r =
    push_front-IsRing (unlink i c) (xs ++ ys) i (unlink-IsRing c xs ys i r)
      (Distinct-without xs ys i r.distinct).0 (All-without (λ w. w ≢ head) xs ys i r.apart).0

brelse_last :
    (pid i : ℕ) (c : Bcache)
    → c.locked ≡ false
    → (c.buf i).lock ≡ some pid
    → (c.buf i).refcnt ≡ 1
    → brelse pid i c ≡ done (record (push_front i (unlink i (dropped i c))) { locked = false })
unfolding brelse holdingsleep acquire release push_front unlink
brelse_last pid i c free held one = ground (arith, free, held, one)

brelse_more :
    (pid i : ℕ) (c : Bcache)
    → c.locked ≡ false
    → (c.buf i).lock ≡ some pid
    → (c.buf i).refcnt ≢ 1
    → (c.buf i).refcnt < word
    → brelse pid i c ≡ done (record (dropped i c) { locked = false })
unfolding brelse holdingsleep acquire release
brelse_more pid i c free held more small = ground (arith, free, held, more, small)

-- `brelse` of a buffer that the process holds, with the cache's lock free, returns, with the buffer
-- unlocked and one reference less. If that was the last one the buffer is now at the front of the
-- list, and else the list is as it was; all other buffers keep their order and what they hold.
pub brelse-Releases :
    (pid i : ℕ) (c : Bcache) (xs ys : List ℕ)
    → c.locked ≡ false
    → (c.buf i).lock ≡ some pid
    → (c.buf i).refcnt < word
    → IsRing c (xs ++ (i ∷ ys))
    → (c' : Bcache) × (brelse pid i c ≡ done c') × Releases c c' i xs ys
brelse-Releases pid i c xs ys free held small r = elim (ℕ_discrete (c.buf i).refcnt 1) [
  | yes one ↦
      let m = moved-IsRing i (dropped i c) xs ys (dropped-IsRing i c _ r) in
      let t : ((c.buf i).refcnt == 1) ≡ true = ground (arith, one) in
      (
        record (push_front i (unlink i (dropped i c))) { locked = false },
        brelse_last pid i c free held one,
        record {
          here = ap (λ (b : ℕ → Buf). b i) (moved-buf i (dropped i c)) ∙ dropped-here i c;
          others = λ j ne.
              ap (λ (b : ℕ → Buf). b j) (moved-buf i (dropped i c)) ∙ dropped-other i c j ne;
          ring = rw t (record { links = m.links; distinct = m.distinct; apart = m.apart });
          free = refl;
        },
      )
  | no more ↦
      let t : ((c.buf i).refcnt == 1) ≡ false = ground (arith, more) in
      (
        record (dropped i c) { locked = false },
        brelse_more pid i c free held more small,
        record {
          here = dropped-here i c;
          others = λ j ne. dropped-other i c j ne;
          ring = rw t (record { links = r.links; distinct = r.distinct; apart = r.apart });
          free = refl;
        },
      )
]
