-- ===== src/Bcache/Get.antt =====
-- `bget` of xv6-public/bio.c.
use ele3021_spring.Bcache.Unique.{UniqueBlocks, counted-UniqueBlocks, given-UniqueBlocks}
use ele3021_spring.Bcache.Found.{
  NonePass, IsLast, first_buf-some, first_buf-none, last_buf-none, last_buf-some,
}
use ele3021_spring.Bcache.Ring.{IsRing}
use ele3021_spring.Bcache.Scan.{first_buf, last_buf, scan-next, scan-prev}
use ele3021_spring.Bcache.{
  Buf, store, has_block, Bcache, scan, bget, suc, acquire, release, is_unused, nbuf, head,
  acquiresleep,
}
use ele3021_spring.Common.{
  ℕ, ◌≢◌, List, Bool, ◌≡◌, ◌∷◌, All, [], false, some, none, ◌++◌, true, Option-cases, inl, inr,
  arith, ◌∙◌, add32, ◌⊎◌, zero, refl, done, ◌>>=◌, panicked, length, ◌≤◌, ◌/◌, ◌%◌,
}

-- The buffer holds the block, and the buffer may be given another.
abbrev pub HoldsBlock : ℕ → ℕ → Buf → Type 0
HoldsBlock dev blockno b = (b.dev ≡ dev) × (b.blockno ≡ blockno)

abbrev pub IsIdle : Buf → Type 0
IsIdle b = (b.refcnt ≡ 0) × (b.flags / 4 % 2 ≡ 0)

abbrev pub NoneIn : (Buf → Type 0) → (ℕ → Buf) → List ℕ → Type 0
NoneIn P buf ring = All (λ j. ¬ P (buf j)) ring

abbrev pub IsLeastRecent : (ℕ → Buf) → ℕ → List ℕ → Type 0
IsLeastRecent buf i ring =
    (xs ys : List ℕ) × (ring ≡ xs ++ (i ∷ ys)) × IsIdle (buf i) × NoneIn IsIdle buf ys

none-HoldsBlock :
    (dev blockno : ℕ) (buf : ℕ → Buf) (ring : List ℕ)
    → NonePass (has_block dev blockno) buf ring
    → NoneIn (HoldsBlock dev blockno) buf ring
none-HoldsBlock dev blockno buf [] a = tt
none-HoldsBlock dev blockno buf (x ∷ xs) a =
    ((λ h. ground (arith, a.0, h)), none-HoldsBlock dev blockno buf xs a.1)

holds_block :
    (dev blockno : ℕ) (b : Buf) → has_block dev blockno b ≡ true → HoldsBlock dev blockno b
holds_block dev blockno b e = (ground (arith, e), ground (arith, e))

none-IsIdle : (buf : ℕ → Buf) (ring : List ℕ) → NonePass is_unused buf ring → NoneIn IsIdle buf ring
none-IsIdle buf [] a = tt
none-IsIdle buf (x ∷ xs) a = ((λ h. ground (arith, a.0, h)), none-IsIdle buf xs a.1)

unused-IsIdle : (b : Buf) → is_unused b ≡ true → IsIdle b
unused-IsIdle b e = (ground (arith, e), ground (arith, e))

last-IsLeastRecent :
    (buf : ℕ → Buf) (i : ℕ) (ring : List ℕ) → IsLast is_unused buf i ring → IsLeastRecent buf i ring
last-IsLeastRecent buf i ring l =
    (l.0, l.1, l.2, unused-IsIdle (buf i) l.3, none-IsIdle buf l.1 l.4)

-- What `bget` does before it takes the lock of buffer `i`: one reference more to the buffer of the
-- block, or the least recently used of the unused buffers for a block that none has.
pub record Gets (dev blockno : ℕ) (c c' : Bcache) (i : ℕ) (ring : List ℕ) : Type 0 where
  pub how :
      (HoldsBlock dev blockno (c.buf i)
        × (c'.buf i ≡ record (c.buf i) { refcnt = add32 (c.buf i).refcnt 1 }))
      ⊎ (NoneIn (HoldsBlock dev blockno) c.buf ring
          × IsLeastRecent c.buf i ring
          × (c'.buf i ≡ record (c.buf i) { dev = dev; blockno = blockno; flags = 0; refcnt = 1 }))
  pub others : (j : ℕ) → i ≢ j → c'.buf j ≡ c.buf j
  pub list : IsRing c' ring
  pub unique : UniqueBlocks c'.buf ring
  pub free : c'.locked ≡ false

abbrev with_buf : ℕ → Buf → Bcache → Bcache
with_buf i b c = record c { buf = store c.buf i b }

stored_here : (i : ℕ) (b : Buf) (c : Bcache) → (with_buf i b c).buf i ≡ b
stored_here i b c = ground arith

stored_other : (i : ℕ) (b : Buf) (c : Bcache) (j : ℕ) → i ≢ j → (with_buf i b c).buf j ≡ c.buf j
stored_other i b c j ne = ground (arith, ne)

-- `scan` does not look at the lock of the cache.
scan-locked :
    (n : ℕ) (test : Buf → Bool) (links : ℕ → ℕ) (i : ℕ) (c : Bcache)
    → scan n test links i (record c { locked = true }) ≡ scan n test links i c
unfolding scan
scan-locked zero test links i c = refl
scan-locked (suc n) test links i c = ground (arith, scan-locked n test links (links i) c)

bget_cached :
    (pid dev blockno i : ℕ) (c : Bcache)
    → c.locked ≡ false
    → scan nbuf (has_block dev blockno) c.next (c.next head) c ≡ some i
    → bget pid dev blockno c
      ≡ done (
          acquiresleep pid i
            (with_buf i (record (c.buf i) { refcnt = add32 (c.buf i).refcnt 1 }) c))
unfolding bget acquire release acquiresleep
bget_cached pid dev blockno i c free e =
    rw (free, ◌>>=◌, scan-locked nbuf (has_block dev blockno) c.next (c.next head) c ∙ e) refl

bget_recycles :
    (pid dev blockno i : ℕ) (c : Bcache)
    → c.locked ≡ false
    → scan nbuf (has_block dev blockno) c.next (c.next head) c ≡ none
    → scan nbuf is_unused c.prev (c.prev head) c ≡ some i
    → bget pid dev blockno c
      ≡ done (
          acquiresleep pid i (
            with_buf i
              (record (c.buf i) { dev = dev; blockno = blockno; flags = 0; refcnt = 1 })
              c))
unfolding bget acquire release acquiresleep
bget_recycles pid dev blockno i c free n e =
    rw
      (
        free,
        ◌>>=◌,
        scan-locked nbuf (has_block dev blockno) c.next (c.next head) c ∙ n,
        scan-locked nbuf is_unused c.prev (c.prev head) c ∙ e,
      )
      refl

bget_full :
    (pid dev blockno : ℕ) (c : Bcache)
    → c.locked ≡ false
    → scan nbuf (has_block dev blockno) c.next (c.next head) c ≡ none
    → scan nbuf is_unused c.prev (c.prev head) c ≡ none
    → bget pid dev blockno c ≡ panicked
unfolding bget acquire release
bget_full pid dev blockno c free n e =
    rw
      (
        free,
        ◌>>=◌,
        scan-locked nbuf (has_block dev blockno) c.next (c.next head) c ∙ n,
        scan-locked nbuf is_unused c.prev (c.prev head) c ∙ e,
      )
      refl

-- `bget` with the cache's lock free, on a list of 30 buffers at most no two of which hold the same
-- block, takes a buffer, to lock it: that of the block, with one reference more, or the least
-- recently used one that has no references and is not dirty, given to the block if none has it. The
-- list and all other buffers stay as they were, and no two hold the same block. It panics only if
-- no buffer has the block and none is unused.
pub bget-Gets :
    (pid dev blockno : ℕ) (c : Bcache) (ring : List ℕ)
    → c.locked ≡ false
    → length ring ≤ nbuf
    → IsRing c ring
    → UniqueBlocks c.buf ring
    → ((i : ℕ) × (c' : Bcache) × (bget pid dev blockno c ≡ done (acquiresleep pid i c'))
        × Gets dev blockno c c' i ring)
      ⊎ ((bget pid dev blockno c ≡ panicked)
          × NoneIn (HoldsBlock dev blockno) c.buf ring
          × NoneIn IsIdle c.buf ring)
bget-Gets pid dev blockno c ring free few r u =
    let forth = scan-next (has_block dev blockno) c ring few r in
    let back = scan-prev is_unused c ring few r in
    elim (Option-cases (first_buf (has_block dev blockno) c.buf ring)) [
      | inr s ↦
          let n = add32 (c.buf s.0).refcnt 1 in
          let b = record (c.buf s.0) { refcnt = n } in
          inl (
            s.0,
            with_buf s.0 b c,
            bget_cached pid dev blockno s.0 c free (forth ∙ s.1),
            record {
              how = inl (
                holds_block dev blockno (c.buf s.0)
                    (first_buf-some (has_block dev blockno) c.buf ring s.0 s.1),
                stored_here s.0 b c,
              );
              others = λ j ne. stored_other s.0 b c j ne;
              list = record { links = r.links; distinct = r.distinct; apart = r.apart };
              unique = counted-UniqueBlocks c.buf s.0 n ring u;
              free = free;
            },
          )
      | inl z ↦
          let alone = first_buf-none (has_block dev blockno) c.buf ring z in
          elim (Option-cases (last_buf is_unused c.buf ring)) [
            | inl n ↦ inr (
              bget_full pid dev blockno c free (forth ∙ z) (back ∙ n),
              none-HoldsBlock dev blockno c.buf ring alone,
              none-IsIdle c.buf ring (last_buf-none is_unused c.buf ring n),
            )
            | inr s ↦
                let b : Buf = record (c.buf s.0) {
                  dev = dev;
                  blockno = blockno;
                  flags = 0;
                  refcnt = 1;
                } in
                inl (
                  s.0,
                  with_buf s.0 b c,
                  bget_recycles pid dev blockno s.0 c free (forth ∙ z) (back ∙ s.1),
                  record {
                    how = inr (
                      none-HoldsBlock dev blockno c.buf ring alone,
                      last-IsLeastRecent c.buf s.0 ring
                          (last_buf-some is_unused c.buf ring s.0 s.1),
                      stored_here s.0 b c,
                    );
                    others = λ j ne. stored_other s.0 b c j ne;
                    list = record { links = r.links; distinct = r.distinct; apart = r.apart };
                    unique = given-UniqueBlocks c.buf s.0 b ring r.distinct alone u;
                    free = free;
                  },
                )
          ]
    ]
