-- ===== src/Bcache/Scan.antt =====
-- The loops of `bget` of xv6-public/bio.c over the list of buffers, from both ends.
use ele3021_spring.Bcache.Ring.{Links, IsRing}
use ele3021_spring.Bcache.{Buf, scan, Bcache, head, some, nbuf, suc}
use ele3021_spring.Common.{
  ℕ, List, Bool, ◌∷◌, length, Option, [], ◌≡◌, none, ◌≤◌, ◌+◌, ◌∙◌, arith, refl, true, false,
  Bool-cases, inl, inr, zero, ◌≢◌, ap,
}
use ele3021_spring.Kalloc.Chain.{Absent}

-- The first and the last buffer of a list that passes.
abbrev pub first_buf : (Buf → Bool) → (ℕ → Buf) → List ℕ → Option ℕ
first_buf test buf [] = none
first_buf test buf (x ∷ xs) = elim (test (buf x)) [ true ↦ some x | false ↦ first_buf test buf xs ]

abbrev pub last_buf : (Buf → Bool) → (ℕ → Buf) → List ℕ → Option ℕ
last_buf test buf [] = none
last_buf test buf (x ∷ xs) = elim (last_buf test buf xs) [
  | some i ↦ some i
  | none ↦ elim (test (buf x)) [ true ↦ some x | false ↦ none ]
]

abbrev rev_onto : List ℕ → List ℕ → List ℕ
rev_onto [] acc = acc
rev_onto (x ∷ xs) acc = rev_onto xs (x ∷ acc)

-- A round of the loop.
scan_hit :
    (n : ℕ) (test : Buf → Bool) (links : ℕ → ℕ) (x : ℕ) (c : Bcache)
    → x ≢ head
    → test (c.buf x) ≡ true
    → scan (suc n) test links x c ≡ some x
unfolding scan
scan_hit n test links x c ne t = ground (arith, ne, t)

scan_miss :
    (n : ℕ) (test : Buf → Bool) (links : ℕ → ℕ) (x : ℕ) (c : Bcache)
    → x ≢ head
    → test (c.buf x) ≡ false
    → scan (suc n) test links x c ≡ scan n test links (links x) c
unfolding scan
scan_miss n test links x c ne t = ground (arith, ne, t)

scan-first_buf :
    (n : ℕ) (test : Buf → Bool) (next prev : ℕ → ℕ) (from : ℕ) (xs : List ℕ) (c : Bcache)
    → length xs ≤ n
    → Absent head xs
    → Links next prev from xs head
    → scan n test next (next from) c ≡ first_buf test c.buf xs
unfolding scan
scan-first_buf zero test next prev from [] c h a l = refl
scan-first_buf zero test next prev from (x ∷ xs) c h a l = absurd (omega (arith, h))
scan-first_buf (suc n) test next prev from [] c h a l = rw l.0 refl
scan-first_buf (suc n) test next prev from (x ∷ xs) c h a l =
    ap (λ k. scan (suc n) test next k c) l.0 ∙ elim (Bool-cases (test (c.buf x))) [
      | inl t ↦ scan_hit n test next x c a.0 t ∙ ground (arith, t)
      | inr t ↦
          scan_miss n test next x c a.0 t
          ∙ scan-first_buf n test next prev x xs c (omega (arith, h)) a.1 l.2
          ∙ ground (arith, t)
    ]

-- The list backwards is linked by `prev` and `next`.
Links-rev_onto :
    (next prev : ℕ → ℕ) (from to end : ℕ) (xs acc : List ℕ)
    → Links next prev from xs to
    → Links prev next from acc end
    → Links prev next to (rev_onto xs (from ∷ acc)) end
Links-rev_onto next prev from to end [] acc l b = (l.1, l.0, b)
Links-rev_onto next prev from to end (x ∷ xs) acc l b =
    Links-rev_onto next prev x to end xs (from ∷ acc) l.2 (l.1, l.0, b)

Links-back :
    (next prev : ℕ → ℕ) (xs : List ℕ)
    → Links next prev head xs head
    → Links prev next head (rev_onto xs []) head
Links-back next prev [] l = (l.1, l.0)
Links-back next prev (x ∷ xs) l = Links-rev_onto next prev x head head xs [] l.2 (l.1, l.0)

rev_onto-Absent :
    (v : ℕ) (xs acc : List ℕ) → Absent v xs → Absent v acc → Absent v (rev_onto xs acc)
rev_onto-Absent v [] acc a b = b
rev_onto-Absent v (x ∷ xs) acc a b = rev_onto-Absent v xs (x ∷ acc) a.1 (a.0, b)

length-rev_onto : (xs acc : List ℕ) → length (rev_onto xs acc) ≡ length xs + length acc
length-rev_onto [] acc = omega arith
length-rev_onto (x ∷ xs) acc = length-rev_onto xs (x ∷ acc) ∙ omega arith

-- The first one backwards is the last one.
first_buf-rev_onto :
    (test : Buf → Bool) (buf : ℕ → Buf) (xs acc : List ℕ)
    → first_buf test buf (rev_onto xs acc)
      ≡ elim (last_buf test buf xs) [ some i ↦ some i | none ↦ first_buf test buf acc ]
first_buf-rev_onto test buf [] acc = refl
first_buf-rev_onto test buf (x ∷ xs) acc = first_buf-rev_onto test buf xs (x ∷ acc) ∙ step
  where
    step :
        elim (last_buf test buf xs) [ some i ↦ some i | none ↦ first_buf test buf (x ∷ acc) ]
        ≡ elim (last_buf test buf (x ∷ xs)) [ some i ↦ some i | none ↦ first_buf test buf acc ]
    step = ground arith

last_buf-rev_onto :
    (test : Buf → Bool) (buf : ℕ → Buf) (xs : List ℕ)
    → first_buf test buf (rev_onto xs []) ≡ last_buf test buf xs
last_buf-rev_onto test buf xs = first_buf-rev_onto test buf xs [] ∙ ground arith

-- On a ring, the loops along `next` and `prev` find the first and the last buffer that passes.
pub scan-next :
    (test : Buf → Bool) (c : Bcache) (ring : List ℕ)
    → length ring ≤ nbuf
    → IsRing c ring
    → scan nbuf test c.next (c.next head) c ≡ first_buf test c.buf ring
scan-next test c ring h r = scan-first_buf nbuf test c.next c.prev head ring c h r.apart r.links

pub scan-prev :
    (test : Buf → Bool) (c : Bcache) (ring : List ℕ)
    → length ring ≤ nbuf
    → IsRing c ring
    → scan nbuf test c.prev (c.prev head) c ≡ last_buf test c.buf ring
scan-prev test c ring h r =
    scan-first_buf nbuf test c.prev c.next head (rev_onto ring []) c
      (omega (arith, h, length-rev_onto ring [])) (rev_onto-Absent head ring [] r.apart tt)
      (Links-back c.next c.prev ring r.links)
    ∙ last_buf-rev_onto test c.buf ring
