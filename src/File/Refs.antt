-- ===== src/File/Refs.antt =====
-- The reference counts of xv6-public/file.c.
use ele3021_spring.Common.{
  ℕ, zero, suc, List, [], ◌∷◌, ◌≡◌, ◌≢◌, ◌⊎◌, ◌+◌, ◌<◌, ◌^◌, inl, inr, arith, refl, ap, ◌∙◌, none,
  some, done, get_elem?, set, All, ℕ_discrete, false, true, slt, add32, sub32, ◌>>=◌,
}
use ele3021_spring.File.{
  File, Ftable, acquire, release, free_slot, filealloc, filedup, fileclose, store_file, still_open,
}

-- The first slot without references from slot `i` on, or that there is none.
abbrev FindsFree : ℕ → List File → Type 0
FindsFree i fs =
    ((k : ℕ) × (f : File) × (free_slot i fs ≡ some (i + k))
      × (get_elem? fs k ≡ some f)
      × (f.ref ≡ 0))
    ⊎ ((free_slot i fs ≡ none) × All (λ f. f.ref ≢ 0) fs)

free_slot-FindsFree : (i : ℕ) (fs : List File) → FindsFree i fs
unfolding free_slot
free_slot-FindsFree i [] = inr (refl, tt)
free_slot-FindsFree i (f ∷ fs) = elim (ℕ_discrete f.ref 0) [
  | yes z ↦ inl (0, f, rw z (ap some (omega arith)), refl, z)
  | no nz ↦ elim (free_slot-FindsFree (suc i) fs) [
    | inl s ↦ inl (suc s.0, s.1, ground (arith, nz, s.2), s.3, s.4)
    | inr s ↦ inr (ground (arith, nz, s.0), (nz, s.1))
  ]
]

zero_add : (k : ℕ) → 0 + k ≡ k
zero_add k = omega arith

-- What `filealloc` promises: a slot that had no references and now has one, with everything else
-- as it was; or no slot, when every slot has references.
abbrev pub Allocates : Ftable → Type 0
Allocates t =
    ((i : ℕ) × (f : File) × (get_elem? t.file i ≡ some f)
      × (f.ref ≡ 0)
      × (filealloc t ≡ done (some i, store_file i (record f { ref = 1 }) t)))
    ⊎ ((filealloc t ≡ done (none, t)) × All (λ f. f.ref ≢ 0) t.file)

-- `filealloc` with the lock free returns with the lock free again. It hands out a slot that had no
-- references, with one reference, and changes nothing else, or it returns a null pointer, changes
-- nothing, and every slot has references.
pub filealloc-Allocates : (t : Ftable) → t.locked ≡ false → Allocates t
unfolding filealloc acquire release
filealloc-Allocates t free = elim (free_slot-FindsFree 0 t.file) [
  | inl s ↦ inl (
    s.0,
    s.1,
    s.3,
    s.4,
    rw (free, ◌>>=◌, acquire, s.2 ∙ ap (λ k. some k) (zero_add s.0), s.3) refl,
  )
  | inr s ↦ inr (rw (free, ◌>>=◌, acquire, s.0) refl, s.1)
]

set-set : (fs : List File) (i : ℕ) (f g : File) → set (set fs i f) i g ≡ set fs i g
set-set [] i f g = refl
set-set (x ∷ fs) zero f g = refl
set-set (x ∷ fs) (suc i) f g = ap (λ ys. x ∷ ys) (set-set fs i f g)

set_kept : (fs : List File) (i : ℕ) (f : File) → get_elem? fs i ≡ some f → set fs i f ≡ fs
set_kept [] i f h = refl
set_kept (x ∷ fs) zero f h = cc
set_kept (x ∷ fs) (suc i) f h = ap (λ ys. x ∷ ys) (set_kept fs i f h)

get_elem?-set_self :
    (fs : List File) (i : ℕ) (f g : File)
    → get_elem? fs i ≡ some f
    → get_elem? (set fs i g) i ≡ some g
get_elem?-set_self [] i f g h = cc
get_elem?-set_self (x ∷ fs) zero f g h = refl
get_elem?-set_self (x ∷ fs) (suc i) f g h = get_elem?-set_self fs i f g h

count-up-down :
    (r : ℕ)
    → 0 < r
    → r + 1 < 2 ^ 31
    → (slt r 1 ≡ false)
      × (slt (add32 r 1) 1 ≡ false)
      × (slt 0 (sub32 (add32 r 1) 1) ≡ true)
      × (sub32 (add32 r 1) 1 ≡ r)
count-up-down r pos small = ground arith

-- Duplicating a reference to an open file and closing it again gives back the same table, and the
-- file stays open, if the count, an int, does not overflow.
pub fileclose-filedup :
    (t : Ftable) (i : ℕ) (f : File)
    → t.locked ≡ false
    → get_elem? t.file i ≡ some f
    → 0 < f.ref
    → f.ref + 1 < 2 ^ 31
    → (filedup i t >>= fileclose i) ≡ done (still_open, t)
unfolding filedup fileclose acquire release
fileclose-filedup t i f free here pos small =
    rw
      (
        free,
        ◌>>=◌,
        acquire,
        here,
        c.0,
        get_elem?-set_self t.file i f (record f { ref = add32 f.ref 1 }) here,
        c.1,
        c.2,
        c.3,
      )
      (ap (λ fs. done (still_open, record { locked = false; file = fs }))
        (set-set t.file i (record f { ref = add32 f.ref 1 }) f ∙ set_kept t.file i f here))
  where
    c :
        (slt f.ref 1 ≡ false)
        × (slt (add32 f.ref 1) 1 ≡ false)
        × (slt 0 (sub32 (add32 f.ref 1) 1) ≡ true)
        × (sub32 (add32 f.ref 1) 1 ≡ f.ref)
    c = count-up-down f.ref pos small
