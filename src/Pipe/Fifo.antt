-- ===== src/Pipe/Fifo.antt =====
-- `pipewrite` and `piperead` of xv6-public/pipe.c against a queue of at most 512 bytes.
use ele3021_spring.Common.{
  ℕ, Bool, List, ◌==◌, suc, if◌then◌else◌, ◌≡◌, arith, Bool-cases, leb, ◌++◌, false, ◌∷◌, take, inl,
  ◌+◌, ◌-◌, inr, drop, ◌%◌, not, ap, zero, ◌||◌, refl, length, [], sym, ◌∙◌, true, ◌&&◌,
}
use mathlib.Core.List.{append-nil, append_assoc}
use ele3021_spring.Pipe.{
  Pipe, Reply, returned, refused, sleeps, pipesize, is_full, put, write_from, pipewrite, take_byte,
  read_loop, piperead,
}
use ele3021_spring.Pipe.Window.{
  window, used, contents, IsValid, is_full_iff, put-IsValid, used-put, has_room, take_byte-IsValid,
  contents-put, contents-take_byte,
}

-- What `pipewrite` answers, for a pipe with room for `room` more bytes.
abbrev pub write_reply : Bool → ℕ → ℕ → ℕ → Reply
write_reply stop i n room =
    if leb n room then returned (i + n) else if stop then refused else sleeps (i + room)

-- What a write has done: the bytes that fit are behind the old contents, in order; the answer says
-- whether all fitted.
pub record Wrote (killed : Bool) (i : ℕ) (cs : List ℕ) (p : Pipe) (r : Reply × Pipe) : Type 0 where
  pub valid : IsValid r.1
  pub bytes : contents r.1 ≡ contents p ++ take (pipesize - used p) cs
  pub reply : r.0 ≡ write_reply (not p.readopen || killed) i (length cs) (pipesize - used p)

reply-shift :
    (stop : Bool) (i n room : ℕ)
    → write_reply stop (i + 1) n room ≡ write_reply stop i (suc n) (suc room)
reply-shift stop i n room = ground arith

room-put :
    (p : Pipe) (c : ℕ)
    → IsValid p
    → is_full p ≡ false
    → pipesize - used p ≡ suc (pipesize - used (put c p))
room-put p c v h = omega (arith, used-put p c v h, has_room p v h)

take-nil : (n : ℕ) → take {A = ℕ} n [] ≡ []
take-nil zero = refl
take-nil (suc n) = refl

-- No room for another byte.
Wrote-full :
    (killed : Bool) (i c : ℕ) (cs : List ℕ) (p : Pipe)
    → IsValid p
    → pipesize - used p ≡ 0
    → Wrote killed i (c ∷ cs) p (if not p.readopen || killed then (refused, p) else (sleeps i, p))
Wrote-full killed i c cs p v full = elim (Bool-cases (not p.readopen || killed)) [
  | inl stop ↦ rw stop (record {
    valid = v;
    bytes = rw full (sym (append-nil (contents p)));
    reply = rw full (ground (arith, stop));
  })
  | inr wait ↦ rw wait (record {
    valid = v;
    bytes = rw full (sym (append-nil (contents p)));
    reply = rw full (ground (arith, wait));
  })
]

-- With room for one more byte.
Wrote-cons :
    (killed : Bool) (i c : ℕ) (cs : List ℕ) (p : Pipe)
    → IsValid p
    → is_full p ≡ false
    → Wrote killed (i + 1) cs (put c p) (write_from killed (i + 1) cs (put c p))
    → Wrote killed i (c ∷ cs) p (write_from killed (i + 1) cs (put c p))
unfolding put
Wrote-cons killed i c cs p v room w = record {
  valid = w.valid;
  bytes =
      w.bytes
      ∙ ap (λ (l : List ℕ). l ++ take (pipesize - used (put c p)) cs) (contents-put p c v room)
      ∙ append_assoc (contents p) (c ∷ []) (take (pipesize - used (put c p)) cs)
      ∙ ap (λ (k : ℕ). contents p ++ take k (c ∷ cs)) (sym (room-put p c v room));
  reply =
      w.reply
      ∙ reply-shift (not p.readopen || killed) i (length cs) (pipesize - used (put c p))
      ∙ ap (write_reply (not p.readopen || killed) i (suc (length cs))) (sym (room-put p c v room));
}

write_from-Wrote :
    (killed : Bool) (i : ℕ) (cs : List ℕ) (p : Pipe)
    → IsValid p
    → Wrote killed i cs p (write_from killed i cs p)
unfolding write_from
write_from-Wrote killed i [] p v = record {
  valid = v;
  bytes = rw (take-nil (pipesize - used p)) (sym (append-nil (contents p)));
  reply = ground arith;
}
write_from-Wrote killed i (c ∷ cs) p v = elim (Bool-cases (is_full p)) [
  | inl full ↦
      rw (write_from, full) (Wrote-full killed i c cs p v (omega (arith, (is_full_iff p v).0 full)))
  | inr room ↦
      rw (write_from, room)
        (Wrote-cons killed i c cs p v room
          (write_from-Wrote killed (i + 1) cs (put c p) (put-IsValid p c v room)))
]

-- `pipewrite` on a valid pipe puts as many of the bytes as fit behind the pipe's contents, in
-- order, and keeps it valid; it returns the number of bytes if all fit, and otherwise returns -1 if
-- the read end is closed or the caller was killed, else sleeps with the number that fitted.
pub pipewrite-Wrote :
    (killed : Bool) (cs : List ℕ) (p : Pipe)
    → IsValid p
    → Wrote killed 0 cs p (pipewrite killed cs p)
unfolding pipewrite
pipewrite-Wrote killed cs p v = write_from-Wrote killed 0 cs p v

-- The loop of `piperead` reads the first `n` bytes of the contents, or all, and leaves the rest.
pub record Read (n : ℕ) (p : Pipe) (r : List ℕ × Pipe) : Type 0 where
  pub valid : IsValid r.1
  pub bytes : r.0 ≡ take n (contents p)
  pub rest : contents r.1 ≡ drop n (contents p)

Read-empty : (n : ℕ) (p : Pipe) → IsValid p → (p.nread == p.nwrite) ≡ true → Read (suc n) p ([], p)
Read-empty n p v e = record { valid = v; bytes = rw none_; rest = rw none_ }
  where
    none_ : contents p ≡ []
    none_ = ap (window p.bytes p.nread) {y = 0} (ground (arith, e, v))

Read-cons :
    (n : ℕ) (p : Pipe)
    → IsValid p
    → (p.nread == p.nwrite) ≡ false
    → Read n (take_byte p) (read_loop n (take_byte p))
    → let r = read_loop n (take_byte p) in Read (suc n) p (p.bytes (p.nread % pipesize) ∷ r.0, r.1)
Read-cons n p v e r = record {
  valid = r.valid;
  bytes =
      rw (contents-take_byte p v e) (ap (λ (l : List ℕ). p.bytes (p.nread % pipesize) ∷ l) r.bytes);
  rest = rw (contents-take_byte p v e) r.rest;
}

read_loop-Read : (n : ℕ) (p : Pipe) → IsValid p → Read n p (read_loop n p)
unfolding read_loop
read_loop-Read zero p v = record { valid = v; bytes = refl; rest = refl }
read_loop-Read (suc n) p v = elim (Bool-cases (p.nread == p.nwrite)) [
  | inl e ↦ rw (read_loop, e) (Read-empty n p v e)
  | inr e ↦
      rw (read_loop, e)
        (Read-cons n p v e (read_loop-Read n (take_byte p) (take_byte-IsValid p v e)))
]

-- What `piperead` answers, with the bytes that it has read: nothing is read while the pipe is empty
-- with its write end open; otherwise the first `n` bytes of the contents, or all.
pub piperead-Read :
    (killed : Bool) (n : ℕ) (p : Pipe)
    → IsValid p
    → (p.nread == p.nwrite && p.writeopen) ≡ false
    → let r = piperead killed n p in
      (r.0 ≡ returned (length r.1))
      × (r.1 ≡ take n (contents p))
      × (contents r.2 ≡ drop n (contents p))
      × IsValid r.2
unfolding piperead
piperead-Read killed n p v ready =
    let r = read_loop-Read n p v in rw ready (refl, r.bytes, r.rest, r.valid)
