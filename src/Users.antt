-- ===== src/Users.antt =====
-- The user table of xv6-public/PRJ03_syscall.c: `utable`, `init_utable`, `usercheck` and the parts
-- of `useradd` and `userdel` that work on the table.
pub mod Check
pub mod Rows
pub mod Add
pub mod Del
pub mod Faults
mod Tests
use ele3021_spring.Common.{
  ◌≡◌, ◌≢◌, arith, ℕ, suc, zero, ◌+◌, ◌*◌, Bool, true, false, ◌&&◌, ◌||◌, not, ◌==◌, ltb,
  if◌then◌else◌, List, [], ◌∷◌, Option, none, some, drop, set, get_or, take, replicate, Outcome,
  done, panicked, ◌>>=◌, ◌≡◌,
}
use ele3021_spring.CString.{strcmp, strcpy, strlen, fill_zero}

abbrev pub num_user : ℕ
num_user = 10

abbrev pub user_field : ℕ
user_field = 32

abbrev pub name_size : ℕ
name_size = 16

-- "root"
abbrev pub root : List ℕ
root = b'r' ∷ b'o' ∷ b'o' ∷ b't' ∷ []

-- `utable`: `mem` is the memory of `u` (10 rows of 32 bytes: name, then password) with the ten
-- ints of `status` behind it, as the struct lays them out.
pub record Utable : Type 0 where
  pub locked : Bool
  pub mem : List ℕ

-- Offsets of `u[i]`, of the password in it, and of `status[i]`.
abbrev pub name_at : ℕ → ℕ
name_at i = user_field * i

abbrev pub pass_at : ℕ → ℕ
pass_at i = user_field * i + name_size

abbrev pub status_at : ℕ → ℕ
status_at i = user_field * num_user + 4 * i

unfoldable pub acquire : Utable → Outcome Utable
acquire t = if t.locked then panicked else done (record t { locked = true })

unfoldable pub release : Utable → Outcome Utable
release t = if t.locked then done (record t { locked = false }) else panicked

-- `status[i] == 0`: all four bytes of the int are 0.
unfoldable pub status_zero : List ℕ → ℕ → Bool
status_zero mem i =
    get_or mem (status_at i) 0 == 0
    && get_or mem (status_at i + 1) 0 == 0
    && (get_or mem (status_at i + 2) 0 == 0 && get_or mem (status_at i + 3) 0 == 0)

-- `status[i] = v` for a byte `v`
unfoldable pub set_status : List ℕ → ℕ → ℕ → List ℕ
set_status mem i v =
    set (set (set (set mem (status_at i) v) (status_at i + 1) 0) (status_at i + 2) 0)
      (status_at i + 3) 0

-- The loops of `init_utable` clear every byte of `u` and of `status`.
unfoldable pub init_utable : Utable → Utable
init_utable t = record { locked = false; mem = replicate 360 0 }

-- `!strcmp(u[i], username)`
unfoldable pub name_matches : List ℕ → List ℕ → ℕ → Bool
name_matches mem username i = strcmp (drop (name_at i) mem) username == 0

unfoldable pub pass_matches : List ℕ → List ℕ → ℕ → Bool
pass_matches mem password i = strcmp (drop (pass_at i) mem) password == 0

-- The loop of `usercheck` with `n` rows left, from row `i` on.
unfoldable pub check_rows : ℕ → ℕ → List ℕ → List ℕ → List ℕ → Bool
unfolding name_matches pass_matches
check_rows zero i mem username password = false
check_rows (suc n) i mem username password =
    (name_matches mem username i && pass_matches mem password i)
    || check_rows n (suc i) mem username password

unfoldable pub usercheck : List ℕ → List ℕ → Utable → ℕ
unfolding check_rows
usercheck username password t = if check_rows num_user 0 t.mem username password then 1 else 0

-- The first row of that name, and the first row whose status is 0.
unfoldable pub find_name : ℕ → ℕ → List ℕ → List ℕ → Option ℕ
unfolding name_matches
find_name zero i mem username = none
find_name (suc n) i mem username =
    if name_matches mem username i then some i else find_name n (suc i) mem username

unfoldable pub find_free : ℕ → ℕ → List ℕ → Option ℕ
unfolding status_zero
find_free zero i mem = none
find_free (suc n) i mem = if status_zero mem i then some i else find_free n (suc i) mem

-- What `useradd` and `userdel` do with the table: give up with -1, or go on to write these bytes
-- to the file /shadow.
pub data Verdict : Type 0 where
  refuse : Verdict
  write_back : List ℕ → Verdict

-- The row that `useradd` fills.
unfoldable pub fill_row : List ℕ → ℕ → List ℕ → List ℕ → List ℕ
unfolding set_status strcpy
fill_row mem i username password =
    set_status (strcpy (strcpy mem (name_at i) username) (pass_at i) password) i 1

-- `useradd` from `acquire` to `release`: the early returns keep the lock, as the source does.
unfoldable pub useradd_locked : List ℕ → List ℕ → Utable → Outcome (Verdict × Utable)
unfolding find_name find_free fill_row release strlen
useradd_locked username password t = elim (find_name num_user 0 t.mem username) [
  | some _ ↦ done (refuse, t)
  | none ↦ elim (find_free num_user 0 t.mem) [
    | none ↦ done (refuse, t)
    | some i ↦
        if ltb name_size (strlen username) || ltb name_size (strlen password)
        then done (refuse, t)
        else (let mem = fill_row t.mem i username password in
            release (record t { mem = mem }) >>= λ t2. done (write_back (take 320 mem), t2))
  ]
]

unfoldable pub useradd_table : List ℕ → List ℕ → List ℕ → Utable → Outcome (Verdict × Utable)
unfolding acquire
useradd_table userid username password t =
    if not (strcmp userid root == 0)
    then done (refuse, t)
    else (acquire t >>= useradd_locked username password)

-- `userdel` from `acquire` to `release`, or to its last return.
unfoldable pub userdel_locked : List ℕ → Utable → Outcome (Verdict × Utable)
unfolding find_name set_status fill_zero release
userdel_locked username t = elim (find_name num_user 0 t.mem username) [
  | some i ↦
      let mem = set_status (fill_zero user_field t.mem (name_at i)) i 0 in
      release (record t { mem = mem }) >>= λ t2. done (write_back (take 320 mem), t2)
  | none ↦ release t >>= λ t2. done (refuse, t2)
]

unfoldable pub userdel_table : List ℕ → List ℕ → Utable → Outcome (Verdict × Utable)
unfolding acquire
userdel_table userid username t =
    if not (strcmp userid root == 0)
    then done (refuse, t)
    else if strcmp username root == 0
    then done (refuse, t)
    else (acquire t >>= userdel_locked username)

-- With root calling and the lock free, `useradd` and `userdel` enter their critical sections.
module _ (userid : List ℕ) (t : Utable) (r : strcmp userid root ≡ 0) (free : t.locked ≡ false) where
  pub useradd_enter :
      (u p : List ℕ) → useradd_table userid u p t ≡ useradd_locked u p (record t { locked = true })
  unfolding useradd_table
  useradd_enter u p = rw (r, free)

  pub userdel_enter :
      (u : List ℕ)
      → strcmp u root ≢ 0
      → userdel_table userid u t ≡ userdel_locked u (record t { locked = true })
  unfolding userdel_table
  userdel_enter u ne = ground (arith, r, free)
