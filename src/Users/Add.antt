-- ===== src/Users/Add.antt =====
-- `useradd` of xv6-public/PRJ03_syscall.c: whom it lets in, and what it keeps.
use ele3021_spring.Common.{
  ℕ, suc, zero, ◌+◌, ◌<◌, ◌≤◌, ◌≡◌, ◌≢◌, refl, inl, inr, List, true, false, none, some, length,
  length-set, arith, take, ltb, Bool-cases, ◌∙◌, done, ℕ_discrete,
}
use ele3021_spring.CString.{text, strcpy, strcmp, strlen}
use ele3021_spring.CString.Compare.{Bytes, Bytes-set, Bytes-strcpy}
use ele3021_spring.CString.Copy.{length-strcpy, strlen-text}
use ele3021_spring.Users.{
  Utable, useradd_enter, useradd_locked, write_back, root, name_at, pass_at, num_user, name_size,
  set_status, fill_row, find_name, find_free, name_matches, useradd_table, usercheck, release,
}
use ele3021_spring.Users.Check.{name, pass, usercheck_iff, name_matches-eq}
use ele3021_spring.Users.Rows.{
  IsTidy, name-fill_row, pass-fill_row, name-fill_row_ne, pass-fill_row_ne,
}

-- No row of the table has this name.
abbrev pub IsNew : List ℕ → List ℕ → Type 0
IsNew mem u = (i : ℕ) → i < num_user → name mem i ≢ text u

find_name-none :
    (mem u : List ℕ)
    → Bytes mem
    → Bytes u
    → IsNew mem u
    → (n i : ℕ) → i + n ≤ num_user
    → find_name n i mem u ≡ none
unfolding find_name
find_name-none mem u bm bu new zero i le = refl
find_name-none mem u bm bu new (suc n) i le = elim (Bool-cases (name_matches mem u i)) [
  | inl e ↦ absurd (new i (omega arith) (name_matches-eq mem bm u bu i e))
  | inr e ↦ rw e (find_name-none mem u bm bu new n (suc i) (omega arith))
]

pub find_free-lt : (mem : List ℕ) (n i k : ℕ) → find_free n i mem ≡ some k → (i ≤ k) × (k < i + n)
unfolding find_free
find_free-lt mem zero i k h = cc
find_free-lt mem (suc n) i k h = ground (arith, find_free-lt mem n (suc i) k)

length-fill_row : (mem u p : List ℕ) (k : ℕ) → length (fill_row mem k u p) ≡ length mem
unfolding fill_row set_status
length-fill_row mem u p k =
    length-set _ _ _
    ∙ length-set _ _ _
    ∙ length-set _ _ _
    ∙ length-set _ _ _
    ∙ length-strcpy (strcpy mem (name_at k) u) (pass_at k) p
    ∙ length-strcpy mem (name_at k) u

pub Bytes-fill_row :
    (mem u p : List ℕ) (k : ℕ) → Bytes mem → Bytes u → Bytes p → Bytes (fill_row mem k u p)
unfolding fill_row set_status
Bytes-fill_row mem u p k bm bu bp = Bytes-set _ _ 0 (omega arith) (
    Bytes-set _ _ 0 (omega arith) (
      Bytes-set _ _ 0 (omega arith)
        (Bytes-set _ _ 1 (omega arith) (Bytes-strcpy _ _ p (Bytes-strcpy mem _ u bm bu) bp))))

-- `root` calls, the lock is free, and the table is tidy.
pub record IsReady (userid : List ℕ) (t : Utable) : Type 0 where
  pub by_root : strcmp userid root ≡ 0
  pub unlocked : t.locked ≡ false
  pub tidy : IsTidy t.mem

strlen-fits : (s : List ℕ) → length (text s) ≤ name_size → ltb name_size (strlen s) ≡ false
strlen-fits s h = ground (arith, strlen-text s)

useradd_locked_stores :
    (u p : List ℕ) (t : Utable) (k : ℕ)
    → find_name num_user 0 t.mem u ≡ none
    → find_free num_user 0 t.mem ≡ some k
    → t.locked ≡ true
    → length (text u) ≤ name_size
    → length (text p) ≤ name_size
    → let mem = fill_row t.mem k u p in
      useradd_locked u p t ≡ done (write_back (take 320 mem), record { locked = false; mem = mem })
unfolding useradd_locked
useradd_locked_stores u p t k new free held su sp =
    rw (useradd_locked, new, free, strlen-fits u su, strlen-fits p sp, release, held)

-- `useradd` with a new name and a free row, as the table alone decides it.
pub useradd_stores :
    (userid u p : List ℕ) (t : Utable) (k : ℕ)
    → IsReady userid t
    → Bytes u
    → IsNew t.mem u
    → find_free num_user 0 t.mem ≡ some k
    → length (text u) ≤ name_size
    → length (text p) ≤ name_size
    → let mem = fill_row t.mem k u p in
      useradd_table userid u p t
      ≡ done (write_back (take 320 mem), record { locked = false; mem = mem })
useradd_stores userid u p t k ready bu new free su sp =
    useradd_enter userid t ready.by_root ready.unlocked u p
    ∙ useradd_locked_stores u p (record t { locked = true }) k
        (find_name-none t.mem u ready.tidy.bytes bu new num_user 0 (omega arith)) free refl su sp

fill_row-IsTidy :
    (mem u p : List ℕ) (k : ℕ)
    → IsTidy mem
    → k < num_user
    → Bytes u
    → Bytes p
    → length (text u) < name_size
    → length (text p) < name_size
    → IsTidy (fill_row mem k u p)
fill_row-IsTidy mem u p k tidy lt bu bp su sp = record {
  size = length-fill_row mem u p k ∙ tidy.size;
  bytes = Bytes-fill_row mem u p k tidy.bytes bu bp;
  names = λ i li. elim (ℕ_discrete i k) [
    | yes e ↦ rw (e, name-fill_row mem u p k tidy.size lt su sp) su
    | no ne ↦ rw (name-fill_row_ne mem u p k tidy lt (omega arith) sp i li ne) (tidy.names i li)
  ];
  passes = λ i li. elim (ℕ_discrete i k) [
    | yes e ↦ rw (e, pass-fill_row mem u p k tidy.size lt (omega arith) sp) sp
    | no ne ↦ rw (pass-fill_row_ne mem u p k tidy lt (omega arith) sp i li ne) (tidy.passes i li)
  ];
}

-- The table after a user was added in row `k`: that user can log in, every other row is as it
-- was, the table is tidy and its lock free.
pub record Added (t t' : Utable) (u p : List ℕ) (k : ℕ) : Type 0 where
  pub login : usercheck u p t' ≡ 1
  pub names : (i : ℕ) → i < num_user → i ≢ k → name t'.mem i ≡ name t.mem i
  pub passes : (i : ℕ) → i < num_user → i ≢ k → pass t'.mem i ≡ pass t.mem i
  pub ready : IsTidy t'.mem × (t'.locked ≡ false)

-- On a tidy table with a free row, called by root with a new name, both strings at most 15 bytes
-- long, `useradd` stores the user: it goes on to write the table's 320 bytes to /shadow, the new
-- user can log in with the password, all other rows keep their name and password, and the table
-- is tidy again with its lock released.
pub useradd-Added :
    (userid u p : List ℕ) (t : Utable) (k : ℕ)
    → IsReady userid t
    → Bytes u
    → Bytes p
    → IsNew t.mem u
    → find_free num_user 0 t.mem ≡ some k
    → length (text u) < name_size
    → length (text p) < name_size
    → (t' : Utable) × (useradd_table userid u p t ≡ done (write_back (take 320 t'.mem), t'))
      × Added t t' u p k
useradd-Added userid u p t k ready bu bp new free su sp = (
  record { locked = false; mem = fill_row t.mem k u p },
  useradd_stores userid u p t k ready bu new free (omega arith) (omega arith),
  record {
    login =
        (usercheck_iff (fill_row t.mem k u p) (Bytes-fill_row t.mem u p k ready.tidy.bytes bu bp) u
            p bu bp false).0.1
          (record {
            row = k;
            from = omega arith;
            below = lt;
            name_is = name-fill_row t.mem u p k ready.tidy.size lt su sp;
            pass_is = pass-fill_row t.mem u p k ready.tidy.size lt (omega arith) sp;
          });
    names = name-fill_row_ne t.mem u p k ready.tidy lt (omega arith) sp;
    passes = pass-fill_row_ne t.mem u p k ready.tidy lt (omega arith) sp;
    ready = (fill_row-IsTidy t.mem u p k ready.tidy lt bu bp su sp, refl);
  },
)
  where
    lt : k < num_user
    lt = (find_free-lt t.mem num_user 0 k free).1
