-- ===== src/Path.antt =====
-- Directories and path names in xv6-public/fs.c: `skipelem`, `dirlookup`, the part of `dirlink` for a
-- name that is new, and `namex` with its permission check. A path is the list of its characters without the NUL, and `name` is the
-- memory of its 14 bytes.
pub mod Elements
pub mod Walk
mod Tests
use ele3021_spring.Common.{
  ℕ, zero, suc, ◌+◌, ◌-◌, ◌*◌, ◌/◌, ◌%◌, Bool, true, false, ◌==◌, ◌&&◌, ◌||◌, ltb, not,
  if◌then◌else◌, List, [], ◌∷◌, ◌++◌, Option, none, some, Outcome, done, panicked, faulted, ◌>>=◌,
  length, take, drop, ◌⊎◌, inl, inr,
}
use ele3021_spring.CString.{strcmp, strncmp, strncpy}
use ele3021_spring.Users.{root}
use ele3021_spring.Fs.{Fs, test_bit}
use ele3021_spring.Inode.{Inode, Devices, readi, writei, t_dir}

abbrev pub dirsiz : ℕ
dirsiz = 14

abbrev pub slash : ℕ
slash = b'/'

-- `while(*path == '/') path++`
unfoldable pub skip_slashes : List ℕ → List ℕ
skip_slashes [] = []
skip_slashes (c ∷ s) = let rest = skip_slashes s in if c == slash then rest else c ∷ s

-- The characters up to the next slash, and what comes from there on.
unfoldable pub elem_of : List ℕ → List ℕ × List ℕ
elem_of [] = ([], [])
elem_of (c ∷ s) = let r = elem_of s in if c == slash then ([], c ∷ s) else (c ∷ r.0, r.1)

-- The copy of an element into `name`.
unfoldable pub put_name : List ℕ → List ℕ → List ℕ
put_name e name =
    if ltb (length e) dirsiz then e ++ (0 ∷ drop (length e + 1) name) else take dirsiz e

-- `skipelem`: the rest of the path, and `name`.
unfoldable pub skipelem : List ℕ → List ℕ → Option (List ℕ × List ℕ)
unfolding skip_slashes elem_of put_name
skipelem path name = elim (skip_slashes path) [
  | [] ↦ none
  | c ∷ s ↦ let r = elem_of (c ∷ s) in some (skip_slashes r.1, put_name r.0 name)
]

-- `namecmp`
unfoldable pub namecmp : List ℕ → List ℕ → ℕ
unfolding strncmp
namecmp s t = strncmp s t dirsiz

-- The size of `struct dirent`.
abbrev pub dirent_size : ℕ
dirent_size = 16

-- `de.inum` of the bytes of an entry.
abbrev pub dirent_inum : List ℕ → ℕ
dirent_inum (a ∷ b ∷ de) = a + 256 * b
dirent_inum _ = 0

-- `dp` is the inode of the directory, locked by the caller.
module _ (devsw : Devices) (iupdate : Inode → Fs → Fs) where
  -- `readi` of one entry, which panics unless it is whole.
  unfoldable pub read_entry : ℕ → Inode → Fs → Outcome (List ℕ × Inode × Fs)
  read_entry off dp fs = readi devsw iupdate off dirent_size dp fs >>= λ r. elim r.0 [
    | none ↦ panicked
    | some de ↦ if length de == dirent_size then done (de, r.1, r.2) else panicked
  ]

  -- The loop of `dirlookup` with fuel, from `off` on: the offset and the inode number.
  unfoldable pub lookup_loop : ℕ → ℕ → List ℕ → Inode → Fs → Outcome (Option (ℕ × ℕ) × Inode × Fs)
  unfolding read_entry namecmp
  lookup_loop zero off name dp fs = done (none, dp, fs)
  lookup_loop (suc fuel) off name dp fs = elim (ltb off dp.size) [
    | false ↦ done (none, dp, fs)
    | true ↦ read_entry off dp fs >>= λ r.
        elim (not (dirent_inum r.0 == 0) && namecmp name (drop 2 r.0) == 0) [
          | true ↦ done (some (off, dirent_inum r.0), r.1, r.2)
          | false ↦ lookup_loop fuel (off + dirent_size) name r.1 r.2
        ]
  ]

  -- `dirlookup` up to its call of `iget`.
  unfoldable pub dirlookup : List ℕ → Inode → Fs → Outcome (Option (ℕ × ℕ) × Inode × Fs)
  unfolding lookup_loop
  dirlookup name dp fs =
      if dp.type_ == t_dir then lookup_loop (dp.size + 1) 0 name dp fs else panicked

  -- The loop of `dirlink` that looks for an empty entry: its offset.
  unfoldable pub empty_loop : ℕ → ℕ → Inode → Fs → Outcome (ℕ × Inode × Fs)
  unfolding read_entry
  empty_loop zero off dp fs = done (off, dp, fs)
  empty_loop (suc fuel) off dp fs = elim (ltb off dp.size) [
    | false ↦ done (off, dp, fs)
    | true ↦ read_entry off dp fs >>= λ r. elim (dirent_inum r.0 == 0) [
      | true ↦ done (off, r.1, r.2)
      | false ↦ empty_loop fuel (off + dirent_size) r.1 r.2
    ]
  ]

  -- `dirlink` where the name is not there yet: the entry is written in the empty place. `old` is
  -- the memory of `de.name` before `strncpy`.
  unfoldable pub dirlink_new : List ℕ → List ℕ → ℕ → Inode → Fs → Outcome (Inode × Fs)
  unfolding empty_loop strncpy
  dirlink_new old name inum dp fs = empty_loop (dp.size + 1) 0 dp fs >>= λ r.
      writei devsw iupdate (inum % 256 ∷ inum / 256 % 256 ∷ strncpy old 0 name dirsiz) r.0 r.1 r.2
      >>= λ w. elim w.0 [
        | none ↦ panicked
        | some n ↦ if n == dirent_size then done (w.1, w.2) else panicked
      ]

-- `MODE_XUSR` and `MODE_XOTH` in a mode, as places of bits.
abbrev pub mode_xusr : ℕ
mode_xusr = 3

abbrev pub mode_xoth : ℕ
mode_xoth = 0

-- The permission check of `namex` for a directory with that owner and mode.
unfoldable pub may_search : List ℕ → List ℕ → ℕ → Bool
unfolding test_bit strcmp
may_search userid owner mode =
    if strcmp userid root == 0 || strcmp userid owner == 0
    then test_bit mode mode_xusr
    else test_bit mode mode_xoth

-- `*path == '\0'` and `*path == '/'`
abbrev pub is_empty : List ℕ → Bool
is_empty [] = true
is_empty (c ∷ s) = false

abbrev pub starts_with_slash : List ℕ → Bool
starts_with_slash [] = false
starts_with_slash (c ∷ s) = c == slash

-- What `namex` uses of inodes, over a state `S`; an inode is its slot in the inode cache. `info` is
-- the type, owner and mode of a locked inode, and `lookup` is `dirlookup` with `iget`.
pub record Names (S : Type 0) : Type 0 where
  pub iget_root : S → Outcome (ℕ × S)
  pub idup_cwd : S → Outcome (ℕ × S)
  pub ilock : ℕ → S → Outcome S
  pub iunlock : ℕ → S → Outcome S
  pub iput : ℕ → S → Outcome S
  pub info : ℕ → S → ℕ × List ℕ × ℕ
  pub lookup : ℕ → List ℕ → S → Outcome (Option ℕ × S)

-- `userid` is that of the process, `parent` the argument `nameiparent`.
module _ {S : Type 0} (n : Names S) (userid : List ℕ) (parent : Bool) where
  unfoldable pub iunlockput : ℕ → S → Outcome S
  iunlockput ip s = n.iunlock ip s >>= n.iput ip

  -- The body of the loop of `namex` for the inode `ip`, when `name` is the next element and `last`
  -- says that the path ends there: the inode to go on with (`inl`), or the result.
  unfoldable pub descend : Bool → List ℕ → ℕ → S → Outcome ((ℕ × S) ⊎ (Option ℕ × S))
  unfolding iunlockput may_search
  descend last name ip s = n.ilock ip s >>= λ s1.
      let i = n.info ip s1 in
      if not (i.0 == t_dir) || not (may_search userid i.1 i.2)
      then (iunlockput ip s1 >>= λ s2. done (inr (none, s2)))
      else if parent && last
      then (n.iunlock ip s1 >>= λ s2. done (inr (some ip, s2)))
      else (n.lookup ip name s1 >>= λ r. iunlockput ip r.1 >>= λ s2. elim r.0 [
        | none ↦ done (inr (none, s2))
        | some next ↦ done (inl (next, s2))
      ])

  -- After the last element.
  unfoldable pub arrive : ℕ → S → Outcome (Option ℕ × S)
  arrive ip s = if parent then (n.iput ip s >>= λ s1. done (none, s1)) else done (some ip, s)

  -- The loop of `namex` with fuel; the last component is `name`.
  unfoldable pub namex_loop : ℕ → List ℕ → List ℕ → ℕ → S → Outcome (Option ℕ × S)
  unfolding skipelem descend arrive
  namex_loop zero path name ip s = done (none, s)
  namex_loop (suc fuel) path name ip s = elim (skipelem path name) [
    | none ↦ arrive ip s
    | some r ↦ descend (is_empty r.0) r.1 ip s >>= λ d. elim d [
      | inl next ↦ namex_loop fuel r.0 r.1 next.0 next.1
      | inr result ↦ done result
    ]
  ]

  unfoldable pub namex : List ℕ → List ℕ → S → Outcome (Option ℕ × S)
  unfolding namex_loop
  namex path name s = (if starts_with_slash path then n.iget_root s else n.idup_cwd s) >>= λ r.
      namex_loop (length path + 1) path name r.0 r.1
