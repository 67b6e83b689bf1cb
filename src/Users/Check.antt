-- ===== src/Users/Check.antt =====
-- What `usercheck` of xv6-public/PRJ03_syscall.c accepts.
use ele3021_spring.Common.{
  ◌&&◌, ◌||◌, ◌⊎◌, ◌↔◌, ℕ_discrete, refl, ==→eq, ℕ, suc, zero, ◌+◌, ◌<◌, ◌≤◌, ◌≡◌, Bool, true, List,
  drop, arith, Bool-cases, inl, inr, ==→eq,
}
use ele3021_spring.CString.{text}
use ele3021_spring.CString.Compare.{Bytes, Bytes-drop, strcmp_iff}
use ele3021_spring.Users.{
  Utable, name_at, pass_at, num_user, name_matches, pass_matches, check_rows, usercheck,
}

&&-left : (a b : Bool) → (a && b) ≡ true → a ≡ true
&&-left a b h = ground arith

&&-right : (a b : Bool) → (a && b) ≡ true → b ≡ true
&&-right a b h = ground arith

||-true : (a : Bool) → (a || true) ≡ true
||-true a = ground arith

-- The name and the password that row `i` holds.
abbrev pub name : List ℕ → ℕ → List ℕ
name mem i = text (drop (name_at i) mem)

abbrev pub pass : List ℕ → ℕ → List ℕ
pass mem i = text (drop (pass_at i) mem)

-- A row among those from `i` to `j` holds this name and password.
pub record Registered (mem : List ℕ) (username password : List ℕ) (i j : ℕ) : Type 0 where
  pub row : ℕ
  pub from : i ≤ row
  pub below : row < j
  pub name_is : name mem row ≡ text username
  pub pass_is : pass mem row ≡ text password

module _ (mem : List ℕ) (bytes : Bytes mem) (username : List ℕ) (b : Bytes username) where
  pub name_matches-eq : (i : ℕ) → name_matches mem username i ≡ true → name mem i ≡ text username
  unfolding name_matches
  name_matches-eq i h =
      (strcmp_iff (drop (name_at i) mem) username (Bytes-drop (name_at i) mem bytes) b).0
        (==→eq _ 0 h)

  pub pass_matches-eq : (i : ℕ) → pass_matches mem username i ≡ true → pass mem i ≡ text username
  unfolding pass_matches
  pass_matches-eq i h =
      (strcmp_iff (drop (pass_at i) mem) username (Bytes-drop (pass_at i) mem bytes) b).0
        (==→eq _ 0 h)

  pub name_matches_of_eq : (i : ℕ) → name mem i ≡ text username → name_matches mem username i ≡ true
  unfolding name_matches
  name_matches_of_eq i h =
      rw ((strcmp_iff (drop (name_at i) mem) username (Bytes-drop (name_at i) mem bytes) b).1 h)

  pub pass_matches_of_eq : (i : ℕ) → pass mem i ≡ text username → pass_matches mem username i ≡ true
  unfolding pass_matches
  pass_matches_of_eq i h =
      rw ((strcmp_iff (drop (pass_at i) mem) username (Bytes-drop (pass_at i) mem bytes) b).1 h)

module _ (mem : List ℕ) (bytes : Bytes mem) (username password : List ℕ) (bu : Bytes username)
    (bp : Bytes password) where
  check_rows-Registered :
      (n i : ℕ)
      → check_rows n i mem username password ≡ true
      → Registered mem username password i (i + n)
  unfolding check_rows
  check_rows-Registered zero i h = cc
  check_rows-Registered (suc n) i h =
      elim (Bool-cases (name_matches mem username i && pass_matches mem password i)) [
        | inl e ↦ record {
          row = i;
          from = omega arith;
          below = omega arith;
          name_is = name_matches-eq mem bytes username bu i (&&-left _ _ e);
          pass_is = pass_matches-eq mem bytes password bp i (&&-right _ _ e);
        }
        | inr e ↦
            let r = check_rows-Registered n (suc i) (rw e at h) in
            record {
              row = r.row;
              from = omega (arith, r.from);
              below = omega (arith, r.below);
              name_is = r.name_is;
              pass_is = r.pass_is;
            }
      ]

  Registered-check_rows :
      (n i : ℕ)
      → Registered mem username password i (i + n)
      → check_rows n i mem username password ≡ true
  unfolding check_rows
  Registered-check_rows zero i r = absurd (omega (arith, r.from, r.below))
  Registered-check_rows (suc n) i r = elim (ℕ_discrete r.row i) [
    | yes e ↦ rw (
      name_matches_of_eq mem bytes username bu i (rw (← e) r.name_is),
      pass_matches_of_eq mem bytes password bp i (rw (← e) r.pass_is),
    )
    | no ne ↦
        rw
          (Registered-check_rows n (suc i) (record {
            row = r.row;
            from = omega (arith, r.from);
            below = omega (arith, r.below);
            name_is = r.name_is;
            pass_is = r.pass_is;
          }))
          (||-true _)
  ]

  -- On a table of bytes `usercheck` returns 1 exactly when one of the ten rows holds that user
  -- name and that password, and 0 otherwise.
  pub usercheck_iff :
      (l : Bool)
      → let t : Utable = record { locked = l; mem = mem } in
        ((usercheck username password t ≡ 1) ↔ Registered mem username password 0 num_user)
        × ((usercheck username password t ≡ 1) ⊎ (usercheck username password t ≡ 0))
  unfolding usercheck
  usercheck_iff l = elim (Bool-cases (check_rows num_user 0 mem username password)) [
    | inl e ↦ rw e ((λ h. check_rows-Registered num_user 0 e, λ r. refl), inl refl)
    | inr e ↦ rw e ((λ h. cc, λ r. absurd (cc (Registered-check_rows num_user 0 r))), inr refl)
  ]
