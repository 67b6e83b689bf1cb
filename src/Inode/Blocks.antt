-- ===== src/Inode/Blocks.antt =====
-- The two places where `bmap` of xv6-public/fs.c allocates: an address of the inode, and an entry of the
-- indirect block.
use ele3021_spring.Common.{
  ℕ, ◌≡◌, ◌≢◌, ◌+◌, ◌*◌, ◌≤◌, ◌<◌, ◌⊎◌, Bool, if◌then◌else◌, ◌==◌, inl, inr, refl, sym, ap, ◌∙◌,
  true, false, arith, get_or, set, get_or-set_self, length, done, ◌>>=◌, ℕ_discrete, get_or-set_ne,
  ==_refl, dec_lt,
}
use ele3021_spring.Fs.{Fs, balloc}
use ele3021_spring.Fs.Alloc.{IsFree, Allocated}
use ele3021_spring.Inode.{Inode, get32, put32, edit, own_block, entry_block}
use ele3021_spring.Inode.Places.{
  IsSound, fresh, Allocated-IsSound, alloc, still-IsFree, HasTwo, IsData, taken-bytes, taken-IsData,
  get32-same, get32-zero, entry,
}
use ele3021_spring.Inode.Words.{get-put32, get-put32_other}

-- What `own_block` gives: a block that is not 0, which it gives again, in use if it was before. The
-- list of a block in use is as it was, and that of a new block is empty.
pub record Owns (k : ℕ) (ip : Inode) (fs : Fs) (a : ℕ) (ip' : Inode) (fs' : Fs) : Type 0 where
  pub result : own_block k ip fs ≡ done (a, ip', fs')
  pub real : a ≢ 0
  pub again : (fs'' : Fs) → own_block k ip' fs'' ≡ done (a, ip', fs'')
  pub sound : IsSound fs'
  pub one : (x : ℕ) × IsFree fs' x
  pub entries : (j : ℕ) → k ≢ j → get_or ip'.addrs j 0 ≡ get_or ip.addrs j 0
  pub size : ip'.size ≡ ip.size
  pub here : get_or ip'.addrs k 0 ≡ a
  pub old : get_or ip.addrs k 0 ≢ 0 → a ≡ get_or ip.addrs k 0
  pub data_ : (get_or ip.addrs k 0 ≢ 0 → IsData fs (get_or ip.addrs k 0)) → IsData fs' a
  pub others : (t j : ℕ) → (t ≢ 0 → IsData fs t) → entry fs' t j ≡ entry fs t j
  pub own :
      (get_or ip.addrs k 0 ≢ 0 → IsData fs (get_or ip.addrs k 0))
      → (j : ℕ) → entry fs' a j ≡ entry fs (get_or ip.addrs k 0) j

-- The list of a block in use, or of none, is as it was when a block is taken.
taken-entry :
    (fs fs' : Fs) (b t j : ℕ)
    → Allocated fs fs' b
    → (t ≢ 0 → IsData fs t)
    → entry fs' t j ≡ entry fs t j
taken-entry fs fs' b t j a d = elim (ℕ_discrete t 0) [
  | yes e ↦ rw e refl
  | no ne ↦
      ap (λ (v : ℕ). if t == 0 then 0 else v)
        (get32-same (fs'.bytes t) (fs.bytes t) (4 * j) (taken-bytes fs fs' b t a (d ne)))
]

new-entry : (fs' : Fs) (b j : ℕ) → ((i : ℕ) → fs'.bytes b i ≡ 0) → entry fs' b j ≡ 0
new-entry fs' b j z = rw (get32-zero (fs'.bytes b) (4 * j) z) (same (b == 0))
  where
    same : (t : Bool) → ◌≡◌ {A = ℕ} (if t then 0 else 0) 0
    same true = refl
    same false = refl

kept :
    (k : ℕ) (ip : Inode) (fs : Fs)
    → get_or ip.addrs k 0 ≢ 0
    → own_block k ip fs ≡ done (get_or ip.addrs k 0, ip, fs)
unfolding own_block
kept k ip fs ne = ground (arith, ne)

grown :
    (k : ℕ) (ip : Inode) (fs : Fs) (b : ℕ) (fs' : Fs)
    → get_or ip.addrs k 0 ≡ 0
    → balloc fs ≡ done (b, fs')
    → own_block k ip fs ≡ done (b, record ip { addrs = set ip.addrs k b }, fs')
unfolding own_block
grown k ip fs b fs' z e = rw (own_block, z, e, ◌>>=◌) refl

pub own_block-Owns :
    (k : ℕ) (ip : Inode) (fs : Fs)
    → k < length ip.addrs
    → IsSound fs
    → HasTwo fs
    → (a : ℕ) × (ip' : Inode) × (fs' : Fs) × Owns k ip fs a ip' fs'
own_block-Owns k ip fs lt s two = elim (ℕ_discrete (get_or ip.addrs k 0) 0) [
  | no ne ↦ (
    get_or ip.addrs k 0,
    ip,
    fs,
    record {
      result = kept k ip fs ne;
      real = ne;
      again = λ fs''. kept k ip fs'' ne;
      sound = s;
      one = (two.0, two.3);
      entries = λ j n. refl;
      size = refl;
      here = refl;
      old = λ e. refl;
      data_ = λ d. d ne;
      others = λ t j d. refl;
      own = λ d j. refl;
    },
  )
  | yes z ↦
      let m = alloc fs two.0 s two.3 in
      let ip' : Inode = record ip { addrs = set ip.addrs k m.0 } in
      let here : get_or ip'.addrs k 0 ≡ m.0 = get_or-set_self ip.addrs k m.0 0 lt in
      let real = (fresh fs m.1 m.0 s m.3).0 in
      (
        m.0,
        ip',
        m.1,
        record {
          result = grown k ip fs m.0 m.1 z m.2;
          real = real;
          again = λ fs''.
              kept k ip' fs'' (λ e. real (sym here ∙ e)) ∙ ap (λ (v : ℕ). done (v, ip', fs'')) here;
          sound = Allocated-IsSound fs m.1 m.0 s m.3;
          one = elim (ℕ_discrete m.0 two.0) [
            | yes e ↦ (two.1, still-IsFree fs m.1 m.0 two.1 m.3 two.4 (λ h. two.2 (sym e ∙ h)))
            | no ne ↦ (two.0, still-IsFree fs m.1 m.0 two.0 m.3 two.3 ne)
          ];
          entries = λ j n. get_or-set_ne ip.addrs k j m.0 0 n;
          size = refl;
          here = here;
          old = λ e. absurd (e z);
          data_ = λ d. taken-IsData fs m.1 m.0 s m.3;
          others = λ t j d. taken-entry fs m.1 m.0 t j m.3 d;
          own = λ d j. new-entry m.1 m.0 j m.3.zeroed ∙ ap (λ t. entry fs t j) (sym z);
        },
      )
]

pub edit_here :
    (b : ℕ) (change : (ℕ → ℕ) → ℕ → ℕ) (fs : Fs) → (edit b change fs).bytes b ≡ change (fs.bytes b)
edit_here b change fs = rw (==_refl b) refl

entry_kept :
    (b i : ℕ) (fs : Fs)
    → get32 (fs.bytes b) (4 * i) ≢ 0
    → entry_block b i fs ≡ done (get32 (fs.bytes b) (4 * i), fs)
unfolding entry_block
entry_kept b i fs ne = ground (arith, ne)

entry_grown :
    (b i : ℕ) (fs : Fs) (a : ℕ) (fs' : Fs)
    → get32 (fs.bytes b) (4 * i) ≡ 0
    → balloc fs ≡ done (a, fs')
    → entry_block b i fs ≡ done (a, edit b (put32 (4 * i) a) fs')
unfolding entry_block
entry_grown b i fs a fs' z e = rw (entry_block, z, e, ◌>>=◌) refl

-- What `entry_block` gives: a block that is not 0, which it gives again.
pub record Enters (b i : ℕ) (fs : Fs) (a : ℕ) (fs' : Fs) : Type 0 where
  pub result : entry_block b i fs ≡ done (a, fs')
  pub real : a ≢ 0
  pub again : entry_block b i fs' ≡ done (a, fs')
  pub here : get32 (fs'.bytes b) (4 * i) ≡ a
  pub old : get32 (fs.bytes b) (4 * i) ≢ 0 → a ≡ get32 (fs.bytes b) (4 * i)
  pub others :
      IsData fs b → (j : ℕ) → j ≢ i → get32 (fs'.bytes b) (4 * j) ≡ get32 (fs.bytes b) (4 * j)

apart_entries : (i j : ℕ) → j ≢ i → (4 * j + 4 ≤ 4 * i) ⊎ (4 * i + 4 ≤ 4 * j)
apart_entries i j n = elim (dec_lt j i) [
  | yes lt ↦ inl (omega (arith, lt))
  | no ge ↦ inr (omega (arith, ge, n))
]

pub entry_block-Enters :
    (b i : ℕ) (fs : Fs) (x : ℕ)
    → IsSound fs
    → IsFree fs x
    → (a : ℕ) × (fs' : Fs) × Enters b i fs a fs'
entry_block-Enters b i fs x s f = elim (ℕ_discrete (get32 (fs.bytes b) (4 * i)) 0) [
  | no ne ↦ (
    get32 (fs.bytes b) (4 * i),
    fs,
    record {
      result = entry_kept b i fs ne;
      real = ne;
      again = entry_kept b i fs ne;
      here = refl;
      old = λ e. refl;
      others = λ d j n. refl;
    },
  )
  | yes z ↦
      let m = alloc fs x s f in
      let fs' : Fs = edit b (put32 (4 * i) m.0) m.1 in
      let new = fresh fs m.1 m.0 s m.3 in
      let here : get32 (fs'.bytes b) (4 * i) ≡ m.0 =
        ap (λ (g : ℕ → ℕ). get32 g (4 * i)) (edit_here b (put32 (4 * i) m.0) m.1)
        ∙ get-put32 (4 * i) m.0 (m.1.bytes b) new.1 in
      (
        m.0,
        fs',
        record {
          result = entry_grown b i fs m.0 m.1 z m.2;
          real = new.0;
          again =
              entry_kept b i fs' (λ e. new.0 (sym here ∙ e)) ∙ ap (λ (v : ℕ). done (v, fs')) here;
          here = here;
          old = λ e. absurd (e z);
          others = λ d j n.
              ap (λ (g : ℕ → ℕ). get32 g (4 * j)) (edit_here b (put32 (4 * i) m.0) m.1)
              ∙ get-put32_other (4 * i) m.0 (m.1.bytes b) (4 * j) (apart_entries i j n)
              ∙ get32-same (m.1.bytes b) (fs.bytes b) (4 * j) (taken-bytes fs m.1 m.0 b m.3 d);
        },
      )
]
