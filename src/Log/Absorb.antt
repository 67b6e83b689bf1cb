-- ===== src/Log/Absorb.antt =====
-- `log_write` of xv6-public/log.c: what it adds to the transaction, with log absorption.
use ele3021_spring.Common.{
  ℕ, zero, suc, ◌≡◌, ◌≢◌, ◌≤◌, ◌<◌, ◌+◌, ◌⊎◌, inl, inr, arith, refl, done, ℕ_discrete, ap, ◌∙◌, sym,
  subst,
}
use ele3021_spring.Log.{Log, Block, find_block, log_write, update, logsize}
use ele3021_spring.Log.Recover.{IsHome, IsPlaced}
use ele3021_spring.Log.Restart.{IsTransaction}
use ele3021_spring.Log.Space.{logged, log_write-logged}

-- `k` is an entry from `i` on and below `n` that holds `b`, or is `n`, and none holds it.
abbrev Finds : (ℕ → ℕ) → ℕ → ℕ → ℕ → ℕ → Type 0
Finds block b i n k =
    ((k < n) × (block k ≡ b)) ⊎ ((k ≡ n) × ((j : ℕ) → i ≤ j → j < n → block j ≢ b))

find_block-Finds :
    (r i : ℕ) (block : ℕ → ℕ) (b n : ℕ) → i + r ≡ n → Finds block b i n (find_block r i block b)
unfolding find_block
find_block-Finds zero i block b n e = inr (omega (arith, e), λ j a l. absurd (omega (arith, e)))
find_block-Finds (suc r) i block b n e = elim (ℕ_discrete (block i) b) [
  | yes h ↦ inl (ground (arith, e, h), ground (arith, e, h))
  | no h ↦ elim (find_block-Finds r (suc i) block b n (omega (arith, e))) [
    | inl f ↦ inl (ground (arith, f.0, h), ground (arith, f.1, h))
    | inr f ↦ inr (
      ground (arith, f.0, h),
      λ j a l. elim (ℕ_discrete i j) [
        | yes s ↦ subst (λ (y : ℕ). block y ≢ b) s h
        | no s ↦ f.1 j (omega arith) l
      ],
    )
  ]
]

-- What `log_write` of block `b` with the contents `x` adds to the transaction of `w`.
pub record Adds (w w' : Log) (b : ℕ) (x : Block) : Type 0 where
  transaction : IsTransaction w'
  start : w'.start ≡ w.start
  contents : w'.cache b ≡ x
  listed : (i : ℕ) × (i < w'.n) × (w'.block i ≡ b)
  keeps : (w.n ≤ w'.n) × ((i : ℕ) → i < w.n → w'.block i ≡ w.block i)
  others : (c : ℕ) → b ≢ c → w'.cache c ≡ w.cache c
  disk : w'.disk ≡ w.disk

update_same : {A : Type 0} → (f : ℕ → A) (i : ℕ) (a : A) → update f i a i ≡ a
update_same f i a = ground arith

update_other : {A : Type 0} → (f : ℕ → A) (i : ℕ) (a : A) (j : ℕ) → i ≢ j → update f i a j ≡ f j
update_other f i a j ne = ground arith

-- Storing what is there.
update_kept : (f : ℕ → ℕ) (k b j : ℕ) → f k ≡ b → update f k b j ≡ f j
update_kept f k b j e = elim (ℕ_discrete k j) [
  | yes s ↦ subst (λ (y : ℕ). update f k b y ≡ f y) s (update_same f k b ∙ sym e)
  | no s ↦ update_other f k b j s
]

module _ (w : Log) (b : ℕ) (x : Block) (t : IsTransaction w) (home : IsHome w.start b)
    (fits : w.n + 1 < logsize) where
  -- The entry that `log_write` stores to.
  k : ℕ
  k = find_block w.n 0 w.block b

  found : Finds w.block b 0 w.n k
  unfolding k
  found = find_block-Finds w.n 0 w.block b w.n (omega arith)

  n-found : k < w.n → (logged b x w).n ≡ w.n
  unfolding logged k
  n-found lt = ground arith

  n-new : k ≡ w.n → (logged b x w).n ≡ w.n + 1
  unfolding logged k
  n-new e = ground (arith, e)

  entry-k : (logged b x w).block k ≡ b
  unfolding logged k
  entry-k = update_same w.block k b

  entry-lt : (j : ℕ) → j < w.n → (logged b x w).block j ≡ w.block j
  unfolding logged k
  entry-lt j lt = elim found [
    | inl f ↦ update_kept w.block k b j f.1
    | inr f ↦ update_other w.block k b j (omega (arith, f.0))
  ]

  k-lt : k < (logged b x w).n
  k-lt = elim found [
    | inl f ↦ omega (arith, f.0, n-found f.0)
    | inr f ↦ omega (arith, f.0, n-new f.0)
  ]

  n-le : (w.n ≤ (logged b x w).n) × ((logged b x w).n ≤ w.n + 1)
  n-le = elim found [ inl f ↦ omega (arith, n-found f.0) | inr f ↦ omega (arith, n-new f.0) ]

  -- An entry is an old one, or the new one at the end, whose block was not there before.
  entry-cases :
      (j : ℕ)
      → j < (logged b x w).n
      → (j < w.n) ⊎ ((j ≡ w.n) × ((logged b x w).block j ≡ b) × ((i : ℕ) → i < w.n → w.block i ≢ b))
  entry-cases j lt = elim found [
    | inl f ↦ inl (omega (arith, n-found f.0))
    | inr f ↦ elim (ℕ_discrete k j) [
      | yes e ↦ inr (
        sym e ∙ f.0,
        subst (λ (y : ℕ). (logged b x w).block y ≡ b) e entry-k,
        λ i l. f.1 i (omega arith) l,
      )
      | no ne ↦ inl (omega (arith, f.0, n-new f.0))
    ]
  ]

  logged-IsPlaced : IsPlaced (logged b x w).n w.start (logged b x w).block
  logged-IsPlaced = record {
    few = omega (arith, n-le, fits);
    away = λ i lt. elim (entry-cases i lt) [
      | inl o ↦ subst (IsHome w.start) (sym (entry-lt i o)) (t.placed.away i o)
      | inr o ↦ subst (IsHome w.start) (sym o.1) home
    ];
    distinct = λ i j a c e. elim (entry-cases i a) [
      | inl o ↦ elim (entry-cases j c) [
        | inl o' ↦ t.placed.distinct i j o o' (sym (entry-lt i o) ∙ e ∙ entry-lt j o')
        | inr o' ↦ absurd (o'.2 i o (sym (entry-lt i o) ∙ e ∙ o'.1))
      ]
      | inr o ↦ elim (entry-cases j c) [
        | inl o' ↦ absurd (o.2 j o' (sym (entry-lt j o') ∙ sym e ∙ o.1))
        | inr o' ↦ o.0 ∙ sym o'.0
      ]
    ];
  }

  logged-cache :
      ((logged b x w).cache b ≡ x) × ((c : ℕ) → b ≢ c → (logged b x w).cache c ≡ w.cache c)
  unfolding logged
  logged-cache = (update_same w.cache b x, λ c ne. update_other w.cache b x c ne)

  logged-same : ((logged b x w).start ≡ w.start) × ((logged b x w).disk ≡ w.disk)
  unfolding logged
  logged-same = (refl, refl)

  logged-IsTransaction : IsTransaction (logged b x w)
  unfolding logged
  logged-IsTransaction = record {
    placed =
        subst (λ (s : ℕ). IsPlaced (logged b x w).n s (logged b x w).block) (sym logged-same.0)
          logged-IsPlaced;
    clean = λ c out.
        logged-cache.1 c (λ e. out k k-lt (entry-k ∙ e))
        ∙ t.clean c (λ i lt e. out i (omega (arith, n-le)) (entry-lt i lt ∙ e))
        ∙ sym (ap (λ (d : ℕ → Block). d c) logged-same.1);
    idle = ap (λ (d : ℕ → Block). d w.start 0) logged-same.1 ∙ t.idle;
  }

  logged-Adds : Adds w (logged b x w) b x
  logged-Adds = record {
    transaction = logged-IsTransaction;
    start = logged-same.0;
    contents = logged-cache.0;
    listed = (k, k-lt, entry-k);
    keeps = (n-le.0, entry-lt);
    others = logged-cache.1;
    disk = logged-same.1;
  }

-- There is an operation, and the log is not full: it has a block for one more entry, and so have the
-- LOGSIZE blocks of the disk.
pub record HasRoom (w : Log) : Type 0 where
  pub some_ : 0 < w.outstanding
  pub few : w.outstanding ≤ 3
  pub fits : w.n + 1 < logsize
  pub size : w.n + 1 < w.size

-- `log_write` of a home block in an operation, one of three at most, on a log that is not full, returns
-- and adds that block, with its new contents, to the transaction: once, whether or not it was there
-- before, with all blocks that were there, and without touching other contents or the disk.
pub log_write-Adds :
    (w : Log) (b : ℕ) (x : Block)
    → IsTransaction w
    → IsHome w.start b
    → HasRoom w
    → (w' : Log) × (log_write b x w ≡ done w') × Adds w w' b x
log_write-Adds w b x t home r = (
  logged b x w,
  log_write-logged b x w (omega (arith, r.fits)) r.size r.some_ r.few,
  logged-Adds w b x t home r.fits,
)
