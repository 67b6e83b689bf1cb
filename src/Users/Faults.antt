-- ===== src/Users/Faults.antt =====
-- Where `useradd` of xv6-public/PRJ03_syscall.c goes wrong: the lock that its error returns keep,
-- and names of exactly 16 bytes.
use ele3021_spring.Common.{
  ℕ, List, ◌≡◌, ◌<◌, length, ◌≢◌, true, ◌++◌, [], some, panicked, done, arith, ◌∷◌, ◌∙◌,
  length-append, ap, take, subst, refl, false, ◌↔◌, ◌⊎◌, ℕ_discrete, sym, inl, inr,
}
use ele3021_spring.CString.{text, strcmp, strcpy}
use ele3021_spring.CString.Compare.{Bytes}
use ele3021_spring.CString.Copy.{
  Holds, Holds-text, Holds-append, strcpy-Holds, length-strcpy, get_or-strcpy_ne,
}
use ele3021_spring.Users.{
  Utable, refuse, write_back, root, name_at, pass_at, num_user, name_size, fill_row, find_name,
  find_free, useradd_table, useradd_locked, useradd_enter, usercheck,
}
use ele3021_spring.Users.Check.{name, Registered, usercheck_iff}
use ele3021_spring.Users.Rows.{set_status-Holds, name-fill_row_ne}
use ele3021_spring.Users.Add.{IsReady, IsNew, useradd_stores, find_free-lt, Bytes-fill_row}
use ele3021_spring.Users.Del.{find_name-IsSome}

-- With the lock held, every later call of `useradd` by root panics in `acquire`.
useradd_held :
    (userid u p : List ℕ) (t : Utable)
    → strcmp userid root ≡ 0
    → t.locked ≡ true
    → useradd_table userid u p t ≡ panicked
unfolding useradd_table
useradd_held userid u p t r held = rw (r, held)

refused :
    (u p : List ℕ) (t : Utable) (k : ℕ)
    → find_name num_user 0 t.mem u ≡ some k
    → useradd_locked u p t ≡ done (refuse, t)
unfolding useradd_locked
refused u p t k found = rw (useradd_locked, found)

-- `useradd` by root of a name that a row of a tidy table already has is refused with the table's
-- bytes unchanged but with `utable.lock` still held, so the next `useradd` by root panics whatever
-- its arguments.
pub useradd-keeps_lock :
    (userid u p : List ℕ) (t : Utable) (r : ℕ)
    → IsReady userid t
    → Bytes u
    → r < num_user
    → name t.mem r ≡ text u
    → let t' : Utable = record t { locked = true } in
      (useradd_table userid u p t ≡ done (refuse, t'))
      × ((u' p' : List ℕ) → useradd_table userid u' p' t' ≡ panicked)
useradd-keeps_lock userid u p t r ready bu lt e =
    let (k, found) =
      find_name-IsSome t.mem u ready.tidy.bytes bu num_user 0 r (omega arith) (omega arith) e in
    (
      useradd_enter userid t ready.by_root ready.unlocked u p
          ∙ refused u p (record t { locked = true }) k found,
      λ u' p'. useradd_held userid u' p' (record t { locked = true }) ready.by_root refl,
    )

-- After a name of 16 bytes was stored, its row reads as the name with the password behind it: the
-- password has overwritten the name's NUL.
name-fill_row_long :
    (mem u p : List ℕ) (k : ℕ)
    → length mem ≡ 360
    → k < num_user
    → length (text u) ≡ name_size
    → length (text p) < name_size
    → name (fill_row mem k u p) k ≡ text u ++ text p
unfolding fill_row
name-fill_row_long mem u p k size row long short = Holds-text _ (name_at k) (text u ++ text p) (
    set_status-Holds _ k 1 (name_at k) (text u ++ text p)
      (omega (arith, length-append (text u) (text p)))
      (Holds-append (strcpy mem (name_at k) u) (strcpy (strcpy mem (name_at k) u) (pass_at k) p)
        (name_at k) (text u) (text p)
        (λ j lt. get_or-strcpy_ne (strcpy mem (name_at k) u) (pass_at k) p j (omega arith))
        (strcpy-Holds mem (name_at k) u (omega arith))
        (subst (λ (n : ℕ). Holds (strcpy (strcpy mem (name_at k) u) (pass_at k) p) n (text p))
          (omega arith)
          (strcpy-Holds (strcpy mem (name_at k) u) (pass_at k) p
            (omega (arith, length-strcpy mem (name_at k) u))))))

append-ne : (s t : List ℕ) → t ≢ [] → s ++ t ≢ s
append-ne s t ne e = ne (length-nil t (omega (arith, ap length e, length-append s t)))
  where
    length-nil : (t : List ℕ) → length t ≡ 0 → t ≡ []
    length-nil [] h = refl
    length-nil (x ∷ t) h = absurd (omega arith)

-- `useradd` accepts a new user name of exactly 16 bytes on a tidy table, with a password of 1 to
-- 15 bytes; but then no password at all lets that user log in.
pub useradd-long_name :
    (userid u p : List ℕ) (t : Utable) (k : ℕ)
    → IsReady userid t
    → Bytes u
    → Bytes p
    → IsNew t.mem u
    → find_free num_user 0 t.mem ≡ some k
    → length (text u) ≡ name_size
    → length (text p) < name_size
    → text p ≢ []
    → (t' : Utable) × (useradd_table userid u p t ≡ done (write_back (take 320 t'.mem), t'))
      × ((q : List ℕ) → Bytes q → usercheck u q t' ≡ 0)
useradd-long_name userid u p t k ready bu bp new free long short ne = (
  record { locked = false; mem = mem },
  useradd_stores userid u p t k ready bu new free (omega arith) (omega arith),
  λ q bq. elim (iff q bq).1 [ inl in_ ↦ absurd (nobody q ((iff q bq).0.0 in_)) | inr out ↦ out ],
)
  where
    mem : List ℕ
    mem = fill_row t.mem k u p

    lt : k < num_user
    lt = (find_free-lt t.mem num_user 0 k free).1

    iff :
        (q : List ℕ)
        → Bytes q
        → let t' : Utable = record { locked = false; mem = mem } in
          ((usercheck u q t' ≡ 1) ↔ Registered mem u q 0 num_user)
          × ((usercheck u q t' ≡ 1) ⊎ (usercheck u q t' ≡ 0))
    iff q bq = usercheck_iff mem (Bytes-fill_row t.mem u p k ready.tidy.bytes bu bp) u q bu bq false

    kept : (i : ℕ) → i < num_user → i ≢ k → name mem i ≡ name t.mem i
    kept i li nk = name-fill_row_ne t.mem u p k ready.tidy lt (omega arith) short i li nk

    nobody : (q : List ℕ) → Registered mem u q 0 num_user → ⊥
    nobody q g = elim (ℕ_discrete g.row k) [
      | yes s ↦ append-ne (text u) (text p) ne (
          sym (name-fill_row_long t.mem u p k ready.tidy.size lt long short)
          ∙ subst (λ (r : ℕ). name mem r ≡ text u) s g.name_is)
      | no s ↦ new g.row g.below (sym (kept g.row g.below s) ∙ g.name_is)
    ]
