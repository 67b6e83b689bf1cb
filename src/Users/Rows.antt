-- ===== src/Users/Rows.antt =====
-- How `fill_row`, the stores of `useradd`, changes the rows of the user table.
use ele3021_spring.Common.{ℕ, ◌+◌, ◌<◌, ◌≡◌, ◌≢◌, ◌⊎◌, inl, inr, List, length, arith, ◌≤◌}
use ele3021_spring.CString.{text, strcpy}
use ele3021_spring.CString.Compare.{Bytes}
use ele3021_spring.CString.Copy.{
  Holds, Holds-text, Holds-set, Holds-strcpy, strcpy-Holds, text-Holds, length-strcpy,
}
use ele3021_spring.Users.{name_at, pass_at, status_at, num_user, name_size, set_status, fill_row}
use ele3021_spring.Users.Check.{name, pass}

-- The memory of the table, each row with a NUL inside its name field and inside its password field.
pub record IsTidy (mem : List ℕ) : Type 0 where
  pub size : length mem ≡ 360
  pub bytes : Bytes mem
  pub names : (i : ℕ) → i < num_user → length (name mem i) < name_size
  pub passes : (i : ℕ) → i < num_user → length (pass mem i) < name_size

pub set_status-Holds :
    (mem : List ℕ) (i v at : ℕ) (s : List ℕ)
    → at + length s < status_at 0
    → Holds mem at s
    → Holds (set_status mem i v) at s
unfolding set_status
set_status-Holds mem i v at s lt h = Holds-set _ at s _ 0 (inr (omega arith)) (
    Holds-set _ at s _ 0 (inr (omega arith))
      (Holds-set _ at s _ 0 (inr (omega arith)) (Holds-set mem at s _ v (inr (omega arith)) h)))

module _ (mem u p : List ℕ) (k : ℕ) (size : length mem ≡ 360) (row : k < num_user) where
  pub name-fill_row :
      length (text u) < name_size
      → length (text p) < name_size
      → name (fill_row mem k u p) k ≡ text u
  unfolding fill_row
  name-fill_row short_u short_p = Holds-text _ (name_at k) (text u) (
      set_status-Holds _ k 1 (name_at k) (text u) (omega arith) (
        Holds-strcpy _ (pass_at k) p (name_at k) (text u) (inl (omega arith))
          (strcpy-Holds mem (name_at k) u (omega arith))))

module _ (mem u p : List ℕ) (k : ℕ) (size : length mem ≡ 360) (row : k < num_user)
    (fit_u : length (text u) ≤ name_size) (short_p : length (text p) < name_size) where
  pub pass-fill_row : pass (fill_row mem k u p) k ≡ text p
  unfolding fill_row
  pass-fill_row = Holds-text _ (pass_at k) (text p) (
      set_status-Holds _ k 1 (pass_at k) (text p) (omega arith) (
        strcpy-Holds (strcpy mem (name_at k) u) (pass_at k) p
          (omega (arith, length-strcpy mem (name_at k) u))))

  -- A string that lies in another row than `k` stays.
  other-fill_row :
      (at : ℕ) (s : List ℕ)
      → (at + length s < name_at k) ⊎ (name_at k + 32 ≤ at)
      → at + length s < status_at 0
      → Holds mem at s
      → Holds (fill_row mem k u p) at s
  unfolding fill_row
  other-fill_row at s o lt h = set_status-Holds _ k 1 at s lt (
      Holds-strcpy _ (pass_at k) p at s (omega arith)
        (Holds-strcpy mem (name_at k) u at s (omega arith) h))

module _ (mem u p : List ℕ) (k : ℕ) (tidy : IsTidy mem) (row : k < num_user)
    (fit_u : length (text u) ≤ name_size) (short_p : length (text p) < name_size) where
  pub name-fill_row_ne : (i : ℕ) → i < num_user → i ≢ k → name (fill_row mem k u p) i ≡ name mem i
  name-fill_row_ne i lt ne = Holds-text _ (name_at i) (name mem i) (
      other-fill_row mem u p k tidy.size row fit_u short_p (name_at i) (name mem i)
        (omega (arith, tidy.names i lt)) (omega (arith, tidy.names i lt))
        (text-Holds mem (name_at i)))

  pub pass-fill_row_ne : (i : ℕ) → i < num_user → i ≢ k → pass (fill_row mem k u p) i ≡ pass mem i
  pass-fill_row_ne i lt ne = Holds-text _ (pass_at i) (pass mem i) (
      other-fill_row mem u p k tidy.size row fit_u short_p (pass_at i) (pass mem i)
        (omega (arith, tidy.passes i lt)) (omega (arith, tidy.passes i lt))
        (text-Holds mem (pass_at i)))
