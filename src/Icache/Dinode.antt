-- ===== src/Icache/Dinode.antt =====
-- `iupdate` and `ilock` of xv6-public/fs.c: what the first stores in the dinode of an inode is what
-- the second reads, and other dinodes stay as they are.
use ele3021_spring.Inode.Blocks.{edit_here}
use ele3021_spring.Common.{
  ℕ, ◌≡◌, length, ◌+◌, arith, ◌∙◌, ap, refl, sym, ◌≢◌, ◌/◌, subst, ℕ_discrete,
}
use ele3021_spring.Inode.{Inode}
use ele3021_spring.Icache.{save_dinode, load_dinode, Fs, iupdate, dinode_at, iblock}
use ele3021_spring.Icache.Layout.{Fits, IsCopy, load_dinode_ext, save_other, load-save}

-- What `iupdate` of an inode does to the dinodes: its own is read back as it was saved, and all
-- others are read as before.
pub record Saves (ip : Inode) (fs fs' : Fs) : Type 0 where
  pub own :
      (old : Inode)
      → old.inum ≡ ip.inum
      → length old.userid ≡ 16
      → IsCopy ip (load_dinode (dinode_at old.inum) (fs'.bytes (iblock old.inum fs')) old)
  pub others :
      (n : ℕ) (old : Inode)
      → n ≢ ip.inum
      → load_dinode (dinode_at n) (fs'.bytes (iblock n fs')) old
        ≡ load_dinode (dinode_at n) (fs.bytes (iblock n fs)) old

updated_here :
    (ip : Inode) (fs : Fs)
    → (iupdate ip fs).bytes (iblock ip.inum fs)
      ≡ save_dinode ip (dinode_at ip.inum) (fs.bytes (iblock ip.inum fs))
unfolding iupdate
updated_here ip fs = edit_here (iblock ip.inum fs) (save_dinode ip (dinode_at ip.inum)) fs

updated_there :
    (ip : Inode) (fs : Fs) (b : ℕ) → b ≢ iblock ip.inum fs → (iupdate ip fs).bytes b ≡ fs.bytes b
unfolding iupdate
updated_there ip fs b ne = ground (arith, ne)

same_sb : (ip : Inode) (fs : Fs) → (iupdate ip fs).sb ≡ fs.sb
unfolding iupdate
same_sb ip fs = refl

-- `iupdate` of an inode whose fields fit in a dinode: from then on, reading its dinode, as `ilock`
-- does, gives all of its fields, and reading any other dinode gives what it gave before.
pub iupdate-Saves : (ip : Inode) (fs : Fs) → Fits ip → Saves ip fs (iupdate ip fs)
iupdate-Saves ip fs fit = record {
  own = λ old same room. own_dinode old same room;
  others = λ n old ne. other n old ne;
}
  where
    block_of : (n : ℕ) → iblock n (iupdate ip fs) ≡ iblock n fs
    block_of n = ap (λ s. n / 8 + s.inodestart) (same_sb ip fs)

    own_dinode :
        (old : Inode)
        → old.inum ≡ ip.inum
        → length old.userid ≡ 16
        → IsCopy ip (
            load_dinode
              (dinode_at old.inum)
              ((iupdate ip fs).bytes (iblock old.inum (iupdate ip fs)))
              old)
    own_dinode old same room =
        let place : dinode_at ip.inum ≡ dinode_at old.inum = ap (λ n. dinode_at n) (sym same) in
        let block : (iupdate ip fs).bytes (iblock old.inum (iupdate ip fs))
            ≡ save_dinode ip (dinode_at ip.inum) (fs.bytes (iblock ip.inum fs)) =
          ap (iupdate ip fs).bytes (block_of old.inum ∙ ap (λ n. iblock n fs) same)
          ∙ updated_here ip fs in
        subst (λ x. IsCopy ip (load_dinode (dinode_at old.inum) x old)) (sym block)
          (subst
            (λ x. IsCopy ip (
              load_dinode x (save_dinode ip (dinode_at ip.inum) (fs.bytes (iblock ip.inum fs)))
                old))
            place (load-save ip (dinode_at ip.inum) (fs.bytes (iblock ip.inum fs)) fit old room))

    other :
        (n : ℕ) (old : Inode)
        → n ≢ ip.inum
        → load_dinode (dinode_at n) ((iupdate ip fs).bytes (iblock n (iupdate ip fs))) old
          ≡ load_dinode (dinode_at n) (fs.bytes (iblock n fs)) old
    other n old ne =
        ap (λ b. load_dinode (dinode_at n) ((iupdate ip fs).bytes b) old) (block_of n)
        ∙ elim (ℕ_discrete (iblock n fs) (iblock ip.inum fs)) [
          | no d ↦ ap (λ x. load_dinode (dinode_at n) x old) (updated_there ip fs (iblock n fs) d)
          | yes s ↦
              ap (λ b. load_dinode (dinode_at n) ((iupdate ip fs).bytes b) old) s
              ∙ ap (λ x. load_dinode (dinode_at n) x old) (updated_here ip fs)
              ∙ load_dinode_ext (dinode_at n)
                  (save_dinode ip (dinode_at ip.inum) (fs.bytes (iblock ip.inum fs)))
                  (fs.bytes (iblock ip.inum fs)) old
                  (λ j a b.
                    save_other ip (dinode_at ip.inum) (fs.bytes (iblock ip.inum fs)) fit j
                      (omega (arith, a, b, s, ne)))
              ∙ ap (λ b. load_dinode (dinode_at n) (fs.bytes b) old) (sym s)
        ]
