-- ===== src/Icache/Layout.antt =====
-- Where `iupdate` and `ilock` of xv6-public/fs.c keep the fields of an inode in its dinode.

use ele3021_spring.CString.Copy.{Holds-text, strcpy-Holds}
use ele3021_spring.Common.{
  ℕ, ◌<◌, ◌≡◌, ◌≤◌, ◌++◌, length, word, ◌+◌, ◌∷◌, arith, ◌⊎◌, All, [], length-append, ◌∙◌, ap, refl,
  sym,
}
use ele3021_spring.CString.{text, strcpy}
use ele3021_spring.Inode.{Inode}
use ele3021_spring.Icache.{
  bytes_of, addr_bytes, save_dinode, load_dinode, splice, slice, addrs_at, num,
}
use ele3021_spring.Icache.Bytes.{
  slice_ext, length-bytes_of, text-append, addrs_at_ext, length-addr_bytes, splice_other,
  text-slice, read_back, slice-split, addrs_at-addr_bytes, num-bytes_of_two, num-bytes_of_four,
  length-slice,
}

-- An inode whose fields fit in a dinode, its user's name with a NUL.
pub record Fits (ip : Inode) : Type 0 where
  pub type_ : ip.type_ < 65536
  pub major : ip.major < 65536
  pub minor : ip.minor < 65536
  pub nlink : ip.nlink < 65536
  pub size : ip.size < word
  pub mode : ip.mode < word
  pub count : length ip.addrs ≡ 8
  pub addrs : All (λ a. a < word) ip.addrs
  pub field : length ip.userid ≡ 16
  pub name : length (text ip.userid) < 16

-- The fields of `ip'` that are those of `ip`.
pub record IsCopy (ip ip' : Inode) : Type 0 where
  pub type_ : ip'.type_ ≡ ip.type_
  pub major : ip'.major ≡ ip.major
  pub minor : ip'.minor ≡ ip.minor
  pub nlink : ip'.nlink ≡ ip.nlink
  pub size : ip'.size ≡ ip.size
  pub mode : ip'.mode ≡ ip.mode
  pub addrs : ip'.addrs ≡ ip.addrs
  pub userid : text ip'.userid ≡ text ip.userid

pub load_dinode_ext :
    (o : ℕ) (f g : ℕ → ℕ) (ip : Inode)
    → ((j : ℕ) → o ≤ j → j < o + 64 → f j ≡ g j)
    → load_dinode o f ip ≡ load_dinode o g ip
unfolding load_dinode
load_dinode_ext o f g ip h =
    let a = slice_ext 2 o f g (λ j x y. h j x (omega arith)) in
    let b = slice_ext 2 (o + 2) f g (λ j x y. h j (omega arith) (omega arith)) in
    let c = slice_ext 2 (o + 4) f g (λ j x y. h j (omega arith) (omega arith)) in
    let d = slice_ext 2 (o + 6) f g (λ j x y. h j (omega arith) (omega arith)) in
    let e = slice_ext 4 (o + 8) f g (λ j x y. h j (omega arith) (omega arith)) in
    let u = slice_ext 20 (o + 44) f g (λ j x y. h j (omega arith) (omega arith)) in
    let m = slice_ext 4 (o + 60) f g (λ j x y. h j (omega arith) (omega arith)) in
    let k = addrs_at_ext 8 (o + 12) f g (λ j x y. h j (omega arith) (omega arith)) in cc

-- The string that `save_dinode` stores.
stored_name : (ip : Inode) → Fits ip → text (ip.userid ++ bytes_of 4 ip.mode) ≡ text ip.userid
stored_name ip fit = text-append ip.userid (bytes_of 4 ip.mode) (omega (arith, fit.field, fit.name))

-- The lengths of what `save_dinode` stores.
record Lengths (ip : Inode) : Type 0 where
  type_ : length (bytes_of 2 ip.type_) ≡ 2
  major : length (bytes_of 2 ip.major) ≡ 2
  minor : length (bytes_of 2 ip.minor) ≡ 2
  nlink : length (bytes_of 2 ip.nlink) ≡ 2
  size : length (bytes_of 4 ip.size) ≡ 4
  mode : length (bytes_of 4 ip.mode) ≡ 4
  addrs : length (addr_bytes ip.addrs) ≡ 32
  name : length (text (ip.userid ++ bytes_of 4 ip.mode) ++ (0 ∷ [])) < 17

lengths : (ip : Inode) → Fits ip → Lengths ip
lengths ip fit = record {
  type_ = length-bytes_of 2 ip.type_;
  major = length-bytes_of 2 ip.major;
  minor = length-bytes_of 2 ip.minor;
  nlink = length-bytes_of 2 ip.nlink;
  size = length-bytes_of 4 ip.size;
  mode = length-bytes_of 4 ip.mode;
  addrs = omega (arith, length-addr_bytes ip.addrs, fit.count);
  name = omega (
    arith,
    length-append (text (ip.userid ++ bytes_of 4 ip.mode)) (0 ∷ []),
    ap length (stored_name ip fit),
    fit.name,
  );
}

-- The stores of `save_dinode`, one after the other.
module _ (ip : Inode) (o : ℕ) (g : ℕ → ℕ) where
  abbrev with_type : ℕ → ℕ
  with_type = splice (bytes_of 2 ip.type_) o g

  abbrev with_major : ℕ → ℕ
  with_major = splice (bytes_of 2 ip.major) (o + 2) with_type

  abbrev with_minor : ℕ → ℕ
  with_minor = splice (bytes_of 2 ip.minor) (o + 4) with_major

  abbrev with_nlink : ℕ → ℕ
  with_nlink = splice (bytes_of 2 ip.nlink) (o + 6) with_minor

  abbrev with_size : ℕ → ℕ
  with_size = splice (bytes_of 4 ip.size) (o + 8) with_nlink

  abbrev with_name : ℕ → ℕ
  with_name = splice (text (ip.userid ++ bytes_of 4 ip.mode) ++ (0 ∷ [])) (o + 44) with_size

  abbrev with_mode : ℕ → ℕ
  with_mode = splice (bytes_of 4 ip.mode) (o + 60) with_name

  abbrev saved : ℕ → ℕ
  saved = save_dinode ip o g

  saved-stores : saved ≡ splice (addr_bytes ip.addrs) (o + 12) with_mode
  unfolding save_dinode
  saved-stores = refl

  module _ (fit : Fits ip) (j : ℕ) where
    low : (j < o + 12) ⊎ (o + 64 ≤ j) → saved j ≡ with_size j
    low out =
        let l = lengths ip fit in
        ap (λ f. f j) saved-stores
        ∙ splice_other (addr_bytes ip.addrs) (o + 12) with_mode j (omega (arith, out, l.addrs))
        ∙ splice_other (bytes_of 4 ip.mode) (o + 60) with_name j (omega (arith, out, l.mode))
        ∙ splice_other (text (ip.userid ++ bytes_of 4 ip.mode) ++ (0 ∷ [])) (o + 44) with_size j
            (omega (arith, out, l.name))

    no_size : (j < o + 8) ⊎ (o + 64 ≤ j) → saved j ≡ with_nlink j
    no_size out =
        low (omega (arith, out))
        ∙ splice_other (bytes_of 4 ip.size) (o + 8) with_nlink j
            (omega (arith, out, (lengths ip fit).size))

    no_nlink : (j < o + 6) ⊎ (o + 64 ≤ j) → saved j ≡ with_minor j
    no_nlink out =
        no_size (omega (arith, out))
        ∙ splice_other (bytes_of 2 ip.nlink) (o + 6) with_minor j
            (omega (arith, out, (lengths ip fit).nlink))

    no_minor : (j < o + 4) ⊎ (o + 64 ≤ j) → saved j ≡ with_major j
    no_minor out =
        no_nlink (omega (arith, out))
        ∙ splice_other (bytes_of 2 ip.minor) (o + 4) with_major j
            (omega (arith, out, (lengths ip fit).minor))

    no_major : (j < o + 2) ⊎ (o + 64 ≤ j) → saved j ≡ with_type j
    no_major out =
        no_minor (omega (arith, out))
        ∙ splice_other (bytes_of 2 ip.major) (o + 2) with_type j
            (omega (arith, out, (lengths ip fit).major))

    pub save_other : (j < o) ⊎ (o + 64 ≤ j) → saved j ≡ g j
    save_other out =
        no_major (omega (arith, out))
        ∙ splice_other (bytes_of 2 ip.type_) o g j (omega (arith, out, (lengths ip fit).type_))

    high : o + 60 ≤ j → saved j ≡ with_mode j
    high above =
        ap (λ f. f j) saved-stores
        ∙ splice_other (addr_bytes ip.addrs) (o + 12) with_mode j
            (omega (arith, above, (lengths ip fit).addrs))

    at_name : o + 44 ≤ j → j < o + 60 → saved j ≡ with_name j
    at_name above below =
        ap (λ f. f j) saved-stores
        ∙ splice_other (addr_bytes ip.addrs) (o + 12) with_mode j
            (omega (arith, above, (lengths ip fit).addrs))
        ∙ splice_other (bytes_of 4 ip.mode) (o + 60) with_name j
            (omega (arith, below, (lengths ip fit).mode))

  module _ (fit : Fits ip) where
    read_name : text (slice 20 (o + 44) saved) ≡ text ip.userid
    read_name =
        let u = ip.userid ++ bytes_of 4 ip.mode in
        let t = stored_name ip fit in
        let front : text (slice 16 (o + 44) saved) ≡ text ip.userid =
          ap text
            (slice_ext 16 (o + 44) saved with_name (λ j a b. at_name fit j a (omega (arith, b))))
          ∙ text-slice 16 (o + 44) u with_size (omega (arith, ap length t, fit.name))
          ∙ t in
        ap text (slice-split 16 4 (o + 44) saved)
        ∙ text-append (slice 16 (o + 44) saved) (slice 4 (o + 44 + 16) saved)
            (omega (arith, ap length front, fit.name, length-slice 16 (o + 44) saved))
        ∙ front

    read_addrs : addrs_at 8 (o + 12) saved ≡ ip.addrs
    read_addrs =
        ap (addrs_at 8 (o + 12)) saved-stores
        ∙ ap (λ k. addrs_at k (o + 12) (splice (addr_bytes ip.addrs) (o + 12) with_mode))
            (sym fit.count)
        ∙ addrs_at-addr_bytes ip.addrs (o + 12) with_mode fit.addrs

    read_two :
        (p v : ℕ) (f : ℕ → ℕ)
        → v < 65536
        → ((j : ℕ) → p ≤ j → j < p + 2 → saved j ≡ splice (bytes_of 2 v) p f j)
        → num (slice 2 p saved) ≡ v
    read_two p v f small same =
        ap num (
          slice_ext 2 p saved (splice (bytes_of 2 v) p f) same
          ∙ read_back 2 (bytes_of 2 v) p f (length-bytes_of 2 v))
        ∙ num-bytes_of_two v small

    read_four :
        (p v : ℕ) (f : ℕ → ℕ)
        → v < word
        → ((j : ℕ) → p ≤ j → j < p + 4 → saved j ≡ splice (bytes_of 4 v) p f j)
        → num (slice 4 p saved) ≡ v
    read_four p v f small same =
        ap num (
          slice_ext 4 p saved (splice (bytes_of 4 v) p f) same
          ∙ read_back 4 (bytes_of 4 v) p f (length-bytes_of 4 v))
        ∙ num-bytes_of_four v small

    pub load-save : (old : Inode) → length old.userid ≡ 16 → IsCopy ip (load_dinode o saved old)
    unfolding load_dinode
    load-save old room = record {
      type_ = read_two o ip.type_ g fit.type_ (λ j a b. no_major fit j (omega (arith, b)));
      major =
          read_two (o + 2) ip.major with_type fit.major
            (λ j a b. no_minor fit j (omega (arith, b)));
      minor =
          read_two (o + 4) ip.minor with_major fit.minor
            (λ j a b. no_nlink fit j (omega (arith, b)));
      nlink =
          read_two (o + 6) ip.nlink with_minor fit.nlink
            (λ j a b. no_size fit j (omega (arith, b)));
      size = read_four (o + 8) ip.size with_nlink fit.size (λ j a b. low fit j (omega (arith, b)));
      mode = read_four (o + 60) ip.mode with_name fit.mode (λ j a b. high fit j a);
      addrs = read_addrs;
      userid =
          Holds-text (strcpy old.userid 0 (slice 20 (o + 44) saved)) 0
            (text (slice 20 (o + 44) saved))
            (strcpy-Holds old.userid 0 (slice 20 (o + 44) saved)
              (omega (arith, ap length read_name, fit.name, room)))
          ∙ read_name;
    }
