-- ===== src/Icache/Unique.antt =====
-- `iget` of xv6-public/fs.c keeps one slot at most for each inode.
use ele3021_spring.Common.{
  ℕ, get_elem?, ◌≡◌, true, some, none, false, ◌≢◌, set, inl, ap, inr, ◌⊎◌, sym, ◌∙◌, get_elem?-lt,
  arith, refl, get_elem?-set_self, add32, done, panicked, get_elem?-set_ne, ◌>>=◌, Option-cases,
}
use ele3021_spring.Inode.{Inode}
use ele3021_spring.Icache.{
  Icache, is_for, cached, empty_slot, iget, recycled, store_inode, acquire, release,
}
use ele3021_spring.Icache.Scan.{
  IsLive, cached-some, cached-none, empty_slot-some, empty_slot-none, for_parts, parts-for,
  set_from,
}

-- No two slots with references have the same inode.
abbrev pub UniqueInodes : Icache → Type 0
UniqueInodes c =
    (i j : ℕ) (p q : Inode)
    → get_elem? c.inode i ≡ some p
    → get_elem? c.inode j ≡ some q
    → IsLive p
    → IsLive q
    → p.dev ≡ q.dev
    → p.inum ≡ q.inum
    → i ≡ j

-- No slot has the inode.
abbrev pub IsUncached : ℕ → ℕ → Icache → Type 0
IsUncached dev inum c =
    (j : ℕ) (p : Inode) → get_elem? c.inode j ≡ some p → is_for dev inum p ≡ false

-- What `iget` gives: slot `i` has the inode, and all other slots are as they were. The slot had it
-- before, or it had no references and no other slot has the inode; no two slots have the same.
pub record Gets (dev inum : ℕ) (c c' : Icache) (i : ℕ) : Type 0 where
  pub old : Inode
  pub was : get_elem? c.inode i ≡ some old
  pub new : Inode
  pub here : get_elem? c'.inode i ≡ some new
  pub how :
      ((is_for dev inum old ≡ true) × (new ≡ record old { ref = add32 old.ref 1 }))
      ⊎ ((old.ref ≡ 0)
          × IsUncached dev inum c
          × (new ≡ record old { dev = dev; inum = inum; ref = 1; valid = false }))
  pub others : (j : ℕ) → i ≢ j → get_elem? c'.inode j ≡ get_elem? c.inode j
  pub unique : UniqueInodes c'
  pub free : c'.locked ≡ false

-- A slot is changed to a live one for an inode that only it may have.
stored-UniqueInodes :
    (c : Icache) (i : ℕ) (p v : Inode)
    → get_elem? c.inode i ≡ some p
    → UniqueInodes c
    → ((j : ℕ) (q : Inode)
        → get_elem? c.inode j ≡ some q
        → IsLive q
        → q.dev ≡ v.dev
        → q.inum ≡ v.inum
        → i ≡ j)
    → UniqueInodes (store_inode i v c)
stored-UniqueInodes c i p v here u only j k q r e f lq lr d n =
    elim (set_from i j v c.inode p q here e) [
      | inl s ↦ elim (set_from i k v c.inode p r here f) [
        | inl t ↦ sym s.0 ∙ t.0
        | inr t ↦ absurd (
            t.0 (
              only k r t.1 lr (sym d ∙ ap (λ (x : Inode). x.dev) s.1)
                (sym n ∙ ap (λ (x : Inode). x.inum) s.1)))
      ]
      | inr s ↦ elim (set_from i k v c.inode p r here f) [
        | inl t ↦ absurd (
            s.0 (
              only j q s.1 lq (d ∙ ap (λ (x : Inode). x.dev) t.1)
                (n ∙ ap (λ (x : Inode). x.inum) t.1)))
        | inr t ↦ u j k q r s.1 t.1 lq lr d n
      ]
    ]

iget_cached :
    (dev inum : ℕ) (c : Icache) (i : ℕ) (p : Inode)
    → c.locked ≡ false
    → cached dev inum 0 c.inode ≡ some i
    → get_elem? c.inode i ≡ some p
    → iget dev inum c
      ≡ done (i, record c { inode = set c.inode i (record p { ref = add32 p.ref 1 }) })
unfolding iget acquire release
iget_cached dev inum c i p free e here = rw (free, ◌>>=◌, e, here) refl

iget_empty :
    (dev inum : ℕ) (c : Icache) (i : ℕ) (p : Inode)
    → c.locked ≡ false
    → cached dev inum 0 c.inode ≡ none
    → empty_slot 0 c.inode ≡ some i
    → get_elem? c.inode i ≡ some p
    → iget dev inum c ≡ done (i, record c { inode = set c.inode i (recycled dev inum p) })
unfolding iget acquire release
iget_empty dev inum c i p free n e here = rw (free, ◌>>=◌, n, e, here) refl

iget_full :
    (dev inum : ℕ) (c : Icache)
    → c.locked ≡ false
    → cached dev inum 0 c.inode ≡ none
    → empty_slot 0 c.inode ≡ none
    → iget dev inum c ≡ panicked
unfolding iget acquire release
iget_full dev inum c free n e = rw (free, ◌>>=◌, n, e) refl

-- `iget` with the lock free and no two slots for the same inode returns, with both still so, the
-- slot that has the inode, with one more reference, or else a slot without references, which now
-- has the inode with one; all other slots stay as they were. It panics only if no slot has the
-- inode and all have references.
pub iget-Gets :
    (dev inum : ℕ) (c : Icache)
    → c.locked ≡ false
    → UniqueInodes c
    → ((i : ℕ) × (c' : Icache) × (iget dev inum c ≡ done (i, c')) × Gets dev inum c c' i)
      ⊎ ((iget dev inum c ≡ panicked)
          × IsUncached dev inum c
          × ((j : ℕ) (p : Inode) → get_elem? c.inode j ≡ some p → p.ref ≢ 0))
iget-Gets dev inum c free u = elim (Option-cases (cached dev inum 0 c.inode)) [
  | inr s ↦
      let m = cached-some dev inum 0 c.inode s.0 s.1 in
      let i = s.0 in
      let p = m.0 in
      let at_i : get_elem? c.inode i ≡ some p = ap (get_elem? c.inode) (omega (arith, m.2)) ∙ m.3 in
      let v : Inode = record p { ref = add32 p.ref 1 } in
      let parts = for_parts dev inum p m.4 in
      inl (
        i,
        record c { inode = set c.inode i v },
        iget_cached dev inum c i p free s.1 at_i,
        record {
          old = p;
          was = at_i;
          new = v;
          here = get_elem?-set_self c.inode i v (get_elem?-lt c.inode i at_i);
          how = inl (m.4, refl);
          others = λ j n. get_elem?-set_ne c.inode i j v n;
          unique =
              stored-UniqueInodes c i p v at_i u
                (λ j q e l d n. u i j p q at_i e parts.0 l (sym d) (sym n));
          free = free;
        },
      )
  | inl z ↦
      let alone : IsUncached dev inum c = cached-none dev inum 0 c.inode z in
      elim (Option-cases (empty_slot 0 c.inode)) [
        | inl n ↦ inr (iget_full dev inum c free z n, alone, empty_slot-none 0 c.inode n)
        | inr s ↦
            let m = empty_slot-some 0 c.inode s.0 s.1 in
            let i = s.0 in
            let p = m.0 in
            let at_i : get_elem? c.inode i ≡ some p =
              ap (get_elem? c.inode) (omega (arith, m.2)) ∙ m.3 in
            let v : Inode = recycled dev inum p in
            inl (
              i,
              record c { inode = set c.inode i v },
              iget_empty dev inum c i p free z s.1 at_i,
              record {
                old = p;
                was = at_i;
                new = v;
                here = get_elem?-set_self c.inode i v (get_elem?-lt c.inode i at_i);
                how = inr (m.4, alone, refl);
                others = λ j n. get_elem?-set_ne c.inode i j v n;
                unique =
                    stored-UniqueInodes c i p v at_i u
                      (λ j q e l d n. cc (sym (parts-for dev inum q l d n) ∙ alone j q e));
                free = free;
              },
            )
      ]
]
