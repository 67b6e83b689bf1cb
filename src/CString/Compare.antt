-- ===== src/CString/Compare.antt =====
-- `strcmp` and `strncmp` decide equality of the strings that the memory holds.
use ele3021_spring.Common.{
  zero, suc, ℕ, List, [], ◌∷◌, ◌≡◌, ◌<◌, arith, All, ◌↔◌, refl, drop, set, All-set, Bool-cases,
  ◌==◌, inl, inr,
}
use ele3021_spring.CString.{text, strcmp, suc, strcpy, fill_zero}

-- Every cell holds a byte.
abbrev pub Bytes : List ℕ → Type 0
Bytes = All (λ a. a < 256)

strcmp-text : (p q : List ℕ) → Bytes p → Bytes q → strcmp p q ≡ 0 → text p ≡ text q
unfolding strcmp
strcmp-text [] [] bp bq h = refl
strcmp-text [] (b ∷ q) bp bq h = ground (arith, bq.0)
strcmp-text (a ∷ p) [] bp bq h = ground (arith, bp.0)
strcmp-text (a ∷ p) (b ∷ q) bp bq h = ground (arith, bp.0, bq.0, strcmp-text p q bp.1 bq.1)

text-strcmp : (p q : List ℕ) → text p ≡ text q → strcmp p q ≡ 0
unfolding strcmp
text-strcmp [] [] h = refl
text-strcmp [] (b ∷ q) h = ground arith
text-strcmp (a ∷ p) [] h = ground arith
text-strcmp (a ∷ p) (b ∷ q) h = ground (arith, text-strcmp p q)

-- On memory that holds bytes, `strcmp` returns 0 exactly when the two pointers hold the same
-- string.
pub strcmp_iff : (p q : List ℕ) → Bytes p → Bytes q → (strcmp p q ≡ 0) ↔ (text p ≡ text q)
strcmp_iff p q bp bq = (strcmp-text p q bp bq, text-strcmp p q)

pub Bytes-drop : (n : ℕ) (s : List ℕ) → Bytes s → Bytes (drop n s)
Bytes-drop zero s h = h
Bytes-drop (suc n) [] h = tt
Bytes-drop (suc n) (a ∷ s) h = Bytes-drop n s h.1

pub Bytes-set : (s : List ℕ) (i v : ℕ) → v < 256 → Bytes s → Bytes (set s i v)
Bytes-set s i v lt h = All-set (λ a. a < 256) s i v h lt

pub Bytes-strcpy :
    (mem : List ℕ) (at : ℕ) (s : List ℕ) → Bytes mem → Bytes s → Bytes (strcpy mem at s)
unfolding strcpy
Bytes-strcpy mem at [] bm bs = Bytes-set mem at 0 (omega arith) bm
Bytes-strcpy mem at (a ∷ s) bm bs = elim (Bool-cases (a == 0)) [
  | inl e ↦ rw e (Bytes-set mem at 0 (omega arith) bm)
  | inr e ↦ rw e (Bytes-strcpy (set mem at a) (suc at) s (Bytes-set mem at a bs.0 bm) bs.1)
]

pub Bytes-fill_zero : (n : ℕ) (mem : List ℕ) (at : ℕ) → Bytes mem → Bytes (fill_zero n mem at)
unfolding fill_zero
Bytes-fill_zero zero mem at h = h
Bytes-fill_zero (suc n) mem at h =
    Bytes-fill_zero n (set mem at 0) (suc at) (Bytes-set mem at 0 (omega arith) h)
