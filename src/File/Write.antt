-- ===== src/File/Write.antt =====
-- The loop of `filewrite` in xv6-public/file.c, which splits a write over several transactions.
use ele3021_spring.Common.{
  ℕ, zero, suc, ◌≡◌, ◌≢◌, ◌≤◌, ◌<◌, ◌+◌, ◌-◌, ◌^◌, arith, refl, ap, ◌∙◌, true, false, ◌==◌, ltb,
  done, ◌>>=◌, subst, slt, add32, word, Bool-cases, inl, inr,
}
use ele3021_spring.File.{
  File, Backend, advance, max_piece, piece, write_piece, write_pieces, filewrite, fd_inode,
}

-- Where a process is in one transaction of `filewrite`.
pub data Phase : Type 0 where
  idle : Phase
  begun : Phase
  held : Phase
  written : Phase
  released : Phase

-- What `filewrite` relies on of the calls below it, for the inode `ip`: one transaction begins, holds
-- the inode, writes once and ends. In a state of a phase at offset `off`, the file reaches to `off`
-- and can grow to `limit` bytes, so a `writei` there of up to `max_piece` bytes writes all of them.
-- `writei` is called once in a transaction, since a transaction's share of the log is bounded.
pub record IsWritable {S : Type 0} (fs : Backend S) (ip limit : ℕ) (at : Phase → ℕ → S → Type 0)
    : Type 0 where
  pub begins :
      (off : ℕ) (s : S) → at idle off s → (s' : S) × (fs.begin_op s ≡ done s') × at begun off s'
  pub locks :
      (off : ℕ) (s : S) → at begun off s → (s' : S) × (fs.ilock ip s ≡ done s') × at held off s'
  pub writes :
      (a off n : ℕ) (s : S)
      → n ≤ max_piece
      → off + n ≤ limit
      → at held off s
      → (s' : S) × (fs.writei ip a off n s ≡ done (n, s')) × at written (off + n) s'
  pub unlocks :
      (off : ℕ) (s : S)
      → at written off s
      → (s' : S) × (fs.iunlock ip s ≡ done s') × at released off s'
  pub ends :
      (off : ℕ) (s : S) → at released off s → (s' : S) × (fs.end_op s ≡ done s') × at idle off s'

advance_lem :
    (r : ℕ) (f : File)
    → 0 < r
    → r ≤ max_piece
    → f.off + r < word
    → advance r f ≡ record f { off = f.off + r }
unfolding advance
advance_lem r f pos few fits = rw (advance, positive, sum) refl
  where
    positive : slt 0 r ≡ true
    positive = ground arith

    sum : add32 f.off r ≡ f.off + r
    sum = omega arith

piece_lem : (n i : ℕ) → i < n → (0 < piece n i) × (piece n i ≤ max_piece) × (i + piece n i ≤ n)
unfolding piece
piece_lem n i lt = ground arith

small_piece : (m : ℕ) → m ≤ max_piece → slt m 0 ≡ false
small_piece m few = ground arith

module _ {S : Type 0} (fs : Backend S) (limit : ℕ) (at : Phase → ℕ → S → Type 0) where
  write_piece-done :
      (i m : ℕ) (f : File) (s : S)
      → IsWritable fs f.ip limit at
      → at idle f.off s
      → 0 < m
      → m ≤ max_piece
      → f.off + m ≤ limit
      → f.off + m < word
      → (s' : S) × (write_piece fs i m f s ≡ done (m, record f { off = f.off + m }, s'))
        × at idle (f.off + m) s'
  unfolding write_piece
  write_piece-done i m f s ok here pos few room fits =
      let b = ok.begins f.off s here in
      let l = ok.locks f.off b.0 b.2 in
      let w = ok.writes i f.off m l.0 few room l.2 in
      let u = ok.unlocks (f.off + m) w.0 w.2 in
      let e = ok.ends (f.off + m) u.0 u.2 in
      (
        e.0,
        rw (b.1, ◌>>=◌, l.1, w.1, u.1, e.1)
            (ap (λ g. done (m, g, e.0)) (advance_lem m f pos few fits)),
        e.2,
      )

  -- One round of the loop.
  write_pieces_step :
      (fuel n i m : ℕ) (f g : File) (s s' : S)
      → ltb i n ≡ true
      → piece n i ≡ m
      → slt m 0 ≡ false
      → write_piece fs i m f s ≡ done (m, g, s')
      → write_pieces fs (suc fuel) n i f s ≡ write_pieces fs fuel n (i + m) g s'
  unfolding write_pieces
  write_pieces_step fuel n i m f g s s' lt p sm h =
      rw (write_pieces, lt, p, h, ◌>>=◌, sm, p, same m) refl
    where
      same : (m : ℕ) → (m == m) ≡ true
      same m = ground arith

  write_pieces_end :
      (fuel n i : ℕ) (f : File) (s : S)
      → ltb i n ≡ false
      → i ≡ n
      → write_pieces fs (suc fuel) n i f s ≡ done (n, f, s)
  unfolding write_pieces
  write_pieces_end fuel n i f s ge e = rw (write_pieces, ge, test) refl
    where
      test : (i == n) ≡ true
      test = ground (arith, e)

  -- What is left of the write after `i` bytes.
  Finishes : ℕ → ℕ → ℕ → File → S → Type 0
  Finishes fuel n i f s =
      (s' : S) × (write_pieces fs fuel n i f s ≡ done (n, record f { off = f.off + (n - i) }, s'))
      × at idle (f.off + (n - i)) s'

  write_pieces-Finishes :
      (fuel n i : ℕ) (f : File) (s : S)
      → IsWritable fs f.ip limit at
      → at idle f.off s
      → n - i < fuel
      → i ≤ n
      → n < 2 ^ 31
      → f.off + (n - i) ≤ limit
      → f.off + (n - i) < word
      → Finishes fuel n i f s
  unfolding Finishes
  write_pieces-Finishes zero n i f s ok here enough le small room fits = absurd (omega arith)
  write_pieces-Finishes (suc fuel) n i f s ok here enough le small room fits =
      elim (Bool-cases (ltb i n)) [
        | inl lt ↦
            let p = piece_lem n i (ground (arith, lt)) in
            let m = piece n i in
            let one =
              write_piece-done i m f s ok here p.0 p.1 (omega (arith, p, room))
                (omega (arith, p, fits)) in
            let g : File = record f { off = f.off + m } in
            let end : f.off + m + (n - (i + m)) ≡ f.off + (n - i) = omega (arith, p) in
            let more =
              write_pieces-Finishes fuel n (i + m) g one.0 ok one.2 (omega (arith, p, enough)) p.2
                small (omega (arith, p, room)) (omega (arith, p, fits)) in
            (
              more.0,
              write_pieces_step fuel n i m f g s one.0 lt refl (small_piece m p.1) one.1
                  ∙ more.1
                  ∙ ap (λ o. done (n, record f { off = o }, more.0)) end,
              subst (λ o. at idle o more.0) end more.2,
            )
        | inr ge ↦
            let end : f.off ≡ f.off + (n - i) = ground (arith, ge) in
            (
              s,
              write_pieces_end fuel n i f s ge (ground (arith, ge))
                  ∙ ap (λ o. done (n, record f { off = o }, s)) end,
              subst (λ o. at idle o s) end here,
            )
      ]

  -- Of a file that is open for writing on an inode, and whose inode can be written from the file's
  -- offset up to `limit` bytes, by transactions of one `writei` of at most `max_piece` bytes each,
  -- `filewrite` of fewer than 2^31 bytes that end at `limit` at most, and at an offset that fits in a
  -- uint, returns their number, moves the offset past them, and leaves the inode writable from there,
  -- however many transactions that takes.
  pub filewrite-Writes :
      (f : File) (n : ℕ) (s : S)
      → IsWritable fs f.ip limit at
      → at idle f.off s
      → f.writable ≢ 0
      → f.type_ ≡ fd_inode
      → n < 2 ^ 31
      → f.off + n ≤ limit
      → f.off + n < word
      → (s' : S) × (filewrite fs f n s ≡ done (n, record f { off = f.off + n }, s'))
        × at idle (f.off + n) s'
  unfolding filewrite Finishes
  filewrite-Writes f n s ok here w i small room fits = (
    all.0,
    enter ∙ all.1 ∙ ap (λ o. done (n, record f { off = o }, all.0)) end,
    subst (λ o. at idle o all.0) end all.2,
  )
    where
      all : Finishes (n + 1) n 0 f s
      all =
          write_pieces-Finishes (n + 1) n 0 f s ok here (omega arith) (omega arith) small
            (omega (arith, room)) (omega (arith, fits))

      end : f.off + (n - 0) ≡ f.off + n
      end = omega arith

      no : (f.writable == 0) ≡ false
      no = ground (arith, w)

      signed : slt n 0 ≡ false
      signed = ground arith

      enter : filewrite fs f n s ≡ write_pieces fs (n + 1) n 0 f s
      enter = simp (filewrite, no, i, signed)
