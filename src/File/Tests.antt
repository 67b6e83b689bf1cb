-- ===== src/File/Tests.antt =====
-- The file table and `filewrite` at small inputs.
use ele3021_spring.Common.{
  ℕ, ◌∷◌, [], ◌≡◌, ◌++◌, arith, refl, done, false, List, ltb, ◌||◌, ◌≤◌, ◌+◌, word, ◌-◌,
  if◌then◌else◌,
}
use ele3021_spring.File.{File, Ftable, Backend, fd_inode, fd_none, filewrite}
use ele3021_spring.File.Write.{Phase, idle, IsWritable, filewrite-Writes}

-- An open inode file with two references, at offset 100.
abbrev opened : File
opened = record {
  type_ = fd_inode;
  ref = 2;
  readable = 1;
  writable = 1;
  pipe = 0;
  ip = 7;
  off = 100;
}

abbrev closed : File
closed = record { type_ = fd_none; ref = 0; readable = 0; writable = 0; pipe = 0; ip = 0; off = 0 }

abbrev table : Ftable
table = record { locked = false; file = opened ∷ closed ∷ [] }

-- A file of 100 bytes or more: what `writei` of xv6-public/fs.c answers for a file of that size, of
-- `size_limit` bytes at most. The sizes of the pieces written are kept.
abbrev size_limit : ℕ
size_limit = 69120

abbrev Disk : Type 0
Disk = ℕ × List ℕ

abbrev fails : ℕ
fails = word - 1

abbrev sizes : Backend Disk
sizes = record {
  piperead = λ p n s. done (0, s);
  pipewrite = λ p n s. done (n, s);
  begin_op = λ s. done s;
  end_op = λ s. done s;
  ilock = λ ip s. done s;
  iunlock = λ ip s. done s;
  readi = λ ip o n s. done (0, s);
  writei = λ ip a o n s.
      if ltb s.0 o || ltb size_limit (o + n)
      then done (fails, s)
      else done (n, ((if ltb s.0 (o + n) then o + n else s.0), s.1 ++ (n ∷ [])));
}

-- The file reaches to the offset.
abbrev Reaches : Phase → ℕ → Disk → Type 0
Reaches phase off s = off ≤ s.0

sizes-IsWritable : IsWritable sizes 7 size_limit Reaches
sizes-IsWritable = record {
  begins = λ off s h. (s, refl, h);
  locks = λ off s h. (s, refl, h);
  writes = λ a off n s few room h. (
    ((if ltb s.0 (off + n) then off + n else s.0), s.1 ++ (n ∷ [])),
    rw (tests off n s.0 room h) refl,
    reached off n s.0,
  );
  unlocks = λ off s h. (s, refl, h);
  ends = λ off s h. (s, refl, h);
}
  where
    tests :
        (off n size : ℕ)
        → off + n ≤ size_limit
        → off ≤ size
        → (ltb size off || ltb size_limit (off + n)) ≡ false
    tests off n size room h = ground (arith, room, h)

    reached : (off n size : ℕ) → off + n ≤ (if ltb size (off + n) then off + n else size)
    reached off n size = ground arith

filewrite-Writes_example :
    (s' : Disk) × (filewrite sizes opened 4000 (100, [])
      ≡ done (4000, record opened { off = 4100 }, s'))
    × Reaches idle 4100 s'
filewrite-Writes_example =
    filewrite-Writes sizes size_limit Reaches opened 4000 (100, []) sizes-IsWritable (omega arith)
      (omega arith) refl (omega arith) (omega arith) (omega arith)

-- 4000 bytes are written in three transactions.
pieces :
    filewrite sizes opened 4000 (100, [])
    ≡ done (4000, record opened { off = 4100 }, (4100, 1536 ∷ 1536 ∷ 928 ∷ []))
unfolding filewrite
pieces = refl
