-- ===== src/Path/Tests.antt =====
-- Paths, and a directory tree with one directory in it.
use ele3021_spring.Common.{
  ℕ, ◌≡◌, List, ◌∷◌, done, false, [], replicate, ◌+◌, if◌then◌else◌, some, refl, ◌-◌, ◌>>=◌,
}
use ele3021_spring.Path.{Names, namex, starts_with_slash}
use ele3021_spring.Path.Elements.{elements}
use ele3021_spring.Path.Walk.{walk, namex-walk}

-- "//ab/c", and 14 bytes for an element.
abbrev path : List ℕ
path = 47 ∷ 47 ∷ 97 ∷ 98 ∷ 47 ∷ 99 ∷ []

abbrev no_name : List ℕ
no_name = replicate 14 0

path-elements : elements path ≡ (97 ∷ 98 ∷ []) ∷ (99 ∷ []) ∷ []
unfolding elements
path-elements = refl

-- Inode 1 is the root, a directory that everyone may search; every name in a directory leads to
-- the next inode. The state counts the references that are held.
abbrev tree : Names ℕ
tree = record {
  iget_root = λ s. done (1, s + 1);
  idup_cwd = λ s. done (1, s + 1);
  ilock = λ ip s. done s;
  iunlock = λ ip s. done s;
  iput = λ ip s. done (s - 1);
  info = λ ip s. (1, replicate 16 0, 9);
  lookup = λ ip name s. done (some (ip + 1), s + 1);
}

namex-walk_example : namex tree no_name false path no_name 0 ≡ (
    (if starts_with_slash path then tree.iget_root 0 else tree.idup_cwd 0) >>= λ r.
    walk tree no_name false (elements path) no_name r.0 r.1)
namex-walk_example = namex-walk tree no_name false path no_name 0

-- The inode of the path is the third, with one reference held.
namex_result : namex tree no_name false path no_name 0 ≡ done (some 3, 1)
unfolding namex
namex_result = refl
