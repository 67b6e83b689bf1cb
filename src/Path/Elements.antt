-- ===== src/Path/Elements.antt =====
-- What `skipelem` of xv6-public/fs.c takes off a path: its first element.
use ele3021_spring.Common.{
  ℕ, ◌≡◌, ◌⊎◌, ◌≤◌, ◌<◌, inl, inr, refl, sym, ap, ◌∙◌, true, false, ◌==◌, arith, Bool,
  if◌then◌else◌, List, [], ◌∷◌, none, some, length, Bool-cases, subst,
}
use ele3021_spring.Path.{slash, skip_slashes, elem_of, put_name, skipelem, is_empty}

-- The pieces of a path between slashes, empty ones included, and its elements, the pieces that are
-- not empty.
unfoldable pub glue : ℕ → List (List ℕ) → List (List ℕ)
glue c [] = (c ∷ []) ∷ []
glue c (p ∷ ps) = (c ∷ p) ∷ ps

unfoldable pub pieces : List ℕ → List (List ℕ)
unfolding glue
pieces [] = [] ∷ []
pieces (c ∷ s) = let rest = pieces s in if c == slash then [] ∷ rest else glue c rest

unfoldable pub nonempty : List (List ℕ) → List (List ℕ)
nonempty [] = []
nonempty ([] ∷ ps) = nonempty ps
nonempty ((c ∷ p) ∷ ps) = (c ∷ p) ∷ nonempty ps

unfoldable pub elements : List ℕ → List (List ℕ)
unfolding pieces nonempty
elements path = nonempty (pieces path)

-- The pieces behind the first slash.
abbrev after : List ℕ → List (List ℕ)
after [] = []
after (c ∷ s) = pieces s

pieces-elem : (s : List ℕ) → pieces s ≡ (elem_of s).0 ∷ after (elem_of s).1
unfolding pieces elem_of glue
pieces-elem [] = refl
pieces-elem (c ∷ s) = elim (Bool-cases (c == slash)) [
  | inl y ↦ rw (pieces, elem_of, y) refl
  | inr n ↦ rw (pieces, elem_of, n) (ap (glue c) (pieces-elem s))
]

-- A path that is empty or begins with a slash.
abbrev IsCut : List ℕ → Type 0
IsCut [] = Unit {0}
IsCut (c ∷ s) = (c == slash) ≡ true

-- A path that is empty or begins with no slash.
abbrev IsBare : List ℕ → Type 0
IsBare [] = Unit {0}
IsBare (c ∷ s) = (c == slash) ≡ false

elem_of-IsCut : (s : List ℕ) → IsCut (elem_of s).1
unfolding elem_of
elem_of-IsCut [] = tt
elem_of-IsCut (c ∷ s) = elim (Bool-cases (c == slash)) [
  | inl y ↦ rw (elem_of, y) y
  | inr n ↦ rw (elem_of, n) (elem_of-IsCut s)
]

skip_slashes-IsBare : (s : List ℕ) → IsBare (skip_slashes s)
unfolding skip_slashes
skip_slashes-IsBare [] = tt
skip_slashes-IsBare (c ∷ s) = elim (Bool-cases (c == slash)) [
  | inl y ↦ rw (skip_slashes, y) (skip_slashes-IsBare s)
  | inr n ↦ rw (skip_slashes, n) n
]

skip_bare : (c : ℕ) (s : List ℕ) → (c == slash) ≡ false → skip_slashes (c ∷ s) ≡ c ∷ s
unfolding skip_slashes
skip_bare c s n = rw n refl

elements-skip : (s : List ℕ) → elements (skip_slashes s) ≡ elements s
unfolding skip_slashes elements pieces nonempty
elements-skip [] = refl
elements-skip (c ∷ s) = elim (Bool-cases (c == slash)) [
  | inl y ↦ rw (skip_slashes, y) (elements-skip s)
  | inr n ↦ ap elements (skip_bare c s n)
]

after-elements : (s : List ℕ) → IsCut s → nonempty (after s) ≡ elements s
unfolding elements nonempty pieces
after-elements [] h = refl
after-elements (c ∷ s) h = rw h refl

elements-elem :
    (c : ℕ) (s : List ℕ)
    → (c == slash) ≡ false
    → elements (c ∷ s) ≡ (elem_of (c ∷ s)).0 ∷ elements (elem_of (c ∷ s)).1
unfolding elements nonempty elem_of
elements-elem c s n =
    ap nonempty (pieces-elem (c ∷ s))
    ∙ rw n (ap (λ r. (c ∷ (elem_of s).0) ∷ r) (after-elements (elem_of s).1 (elem_of-IsCut s)))

length-elem : (s : List ℕ) → length (elem_of s).1 ≤ length s
unfolding elem_of
length-elem [] = omega arith
length-elem (c ∷ s) = elim (Bool-cases (c == slash)) [
  | inl y ↦ rw (elem_of, y) (omega arith)
  | inr n ↦ rw (elem_of, n) (omega (arith, length-elem s))
]

length-skip : (s : List ℕ) → length (skip_slashes s) ≤ length s
unfolding skip_slashes
length-skip [] = omega arith
length-skip (c ∷ s) = elim (Bool-cases (c == slash)) [
  | inl y ↦ rw (skip_slashes, y) (omega (arith, length-skip s))
  | inr n ↦ rw (skip_slashes, n) (omega arith)
]

abbrev pub no_elements : List (List ℕ) → Bool
no_elements [] = true
no_elements (e ∷ es) = false

bare-elements : (s : List ℕ) → IsBare s → is_empty s ≡ no_elements (elements s)
unfolding elements nonempty pieces
bare-elements [] h = refl
bare-elements (c ∷ s) h = ap no_elements (sym (elements-elem c s h))

-- What `skipelem` does: it takes the first element off a path that has one.
pub record Skips (path name : List ℕ) (rest e : List ℕ) : Type 0 where
  pub result : skipelem path name ≡ some (rest, put_name e name)
  pub first : elements path ≡ e ∷ elements rest
  pub last : is_empty rest ≡ no_elements (elements rest)
  pub shorter : length rest < length path

skip_some :
    (path name : List ℕ) (c : ℕ) (s : List ℕ)
    → skip_slashes path ≡ c ∷ s
    → skipelem path name
      ≡ some (skip_slashes (elem_of (c ∷ s)).1, put_name (elem_of (c ∷ s)).0 name)
unfolding skipelem
skip_some path name c s e = rw (skipelem, e) refl

skip_none : (path name : List ℕ) → skip_slashes path ≡ [] → skipelem path name ≡ none
unfolding skipelem
skip_none path name e = rw (skipelem, e) refl

rest_shorter : (c : ℕ) (s : List ℕ) → (c == slash) ≡ false → length (elem_of (c ∷ s)).1 ≤ length s
unfolding elem_of
rest_shorter c s n = rw (elem_of, n) (length-elem s)

elements_nil : elements [] ≡ []
unfolding elements
elements_nil = refl

List-cases : (s : List ℕ) → (s ≡ []) ⊎ ((c : ℕ) × (r : List ℕ) × (s ≡ c ∷ r))
List-cases [] = inl refl
List-cases (c ∷ s) = inr (c, s, refl)

-- `skipelem` returns a null pointer exactly when the path has no element. Otherwise it copies the
-- first one to `name` and returns the path behind it, which has the other elements, is shorter, and
-- is empty exactly when there are none.
pub skipelem-Skips :
    (path name : List ℕ)
    → ((skipelem path name ≡ none) × (elements path ≡ []))
      ⊎ ((rest e : List ℕ) × Skips path name rest e)
skipelem-Skips path name = elim (List-cases (skip_slashes path)) [
  | inl z ↦ inl (skip_none path name z, sym (elements-skip path) ∙ ap elements z ∙ elements_nil)
  | inr m ↦
      let c = m.0 in
      let s = m.1 in
      let bare : (c == slash) ≡ false = subst IsBare m.2 (skip_slashes-IsBare path) in
      let cut = (elem_of (c ∷ s)).1 in
      inr (
        skip_slashes cut,
        (elem_of (c ∷ s)).0,
        record {
          result = skip_some path name c s m.2;
          first =
              sym (elements-skip path)
              ∙ ap elements m.2
              ∙ elements-elem c s bare
              ∙ ap (λ r. (elem_of (c ∷ s)).0 ∷ r) (sym (elements-skip cut));
          last = bare-elements (skip_slashes cut) (skip_slashes-IsBare cut);
          shorter =
              omega
                (arith, length-skip path, ap length m.2, length-skip cut, rest_shorter c s bare);
        },
      )
]
