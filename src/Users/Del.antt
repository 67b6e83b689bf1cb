-- ===== src/Users/Del.antt =====
-- `userdel` of xv6-public/PRJ03_syscall.c: whom it removes, and whom it keeps.
use ele3021_spring.Common.{
  ℕ, List, ◌≡◌, ◌≤◌, ◌<◌, ◌≢◌, some, ◌+◌, [], arith, length-set, false, suc, ◌∙◌, done, Bool-cases,
  ℕ_discrete, take, inl, inr, zero, true, ◌↔◌, ◌⊎◌, refl, sym, length, get_or, set, get_or-set_self,
  get_or-set_ne,
}
use ele3021_spring.CString.{text, strcmp, fill_zero}
use ele3021_spring.CString.Compare.{Bytes, Bytes-set, Bytes-fill_zero}
use ele3021_spring.CString.Copy.{
  Holds-text, Holds-fill_zero, get_or-fill_zero, length-fill_zero, text-Holds,
}
use ele3021_spring.Users.{
  Utable, write_back, root, name_at, pass_at, num_user, user_field, set_status, find_name,
  name_matches, userdel_table, userdel_locked, userdel_enter, usercheck, release, status_at,
}
use ele3021_spring.Users.Check.{
  name, pass, Registered, usercheck_iff, name_matches-eq, name_matches_of_eq,
}
use ele3021_spring.Users.Rows.{IsTidy, set_status-Holds}
use ele3021_spring.Users.Add.{IsReady}

-- `find_name` finds a row of the name, if a row has it.
pub find_name-row :
    (mem u : List ℕ)
    → Bytes mem
    → Bytes u
    → (n i k : ℕ) → find_name n i mem u ≡ some k
    → (i ≤ k) × (k < i + n) × (name mem k ≡ text u)
unfolding find_name
find_name-row mem u bm bu zero i k h = cc
find_name-row mem u bm bu (suc n) i k h = elim (Bool-cases (name_matches mem u i)) [
  | inl e ↦
      let same : i ≡ k = ground (arith, e) in
      (omega arith, omega arith, rw (← same) (name_matches-eq mem bm u bu i e))
  | inr e ↦
      let r = find_name-row mem u bm bu n (suc i) k (rw e at h) in (omega arith, omega arith, r.2)
]

pub find_name-IsSome :
    (mem u : List ℕ)
    → Bytes mem
    → Bytes u
    → (n i r : ℕ) → i ≤ r
    → r < i + n
    → name mem r ≡ text u
    → (k : ℕ) × (find_name n i mem u ≡ some k)
unfolding find_name
find_name-IsSome mem u bm bu zero i r lo hi e = absurd (omega arith)
find_name-IsSome mem u bm bu (suc n) i r lo hi e = elim (Bool-cases (name_matches mem u i)) [
  | inl m ↦ (i, rw m)
  | inr m ↦
      rw (m, find_name) (find_name-IsSome mem u bm bu n (suc i) r (different m) (omega arith) e)
]
  where
    different : name_matches mem u i ≡ false → suc i ≤ r
    different m = elim (ℕ_discrete i r) [
      | yes s ↦ absurd (cc (m, name_matches_of_eq mem bm u bu i (rw s e)))
      | no ne ↦ omega arith
    ]

zero_here : (m : List ℕ) (i : ℕ) → i < length m → get_or (set m i 0) i 0 ≡ 0
zero_here m i lt = get_or-set_self m i 0 0 lt

zero_stays : (m : List ℕ) (i p : ℕ) → i ≢ p → get_or m p 0 ≡ 0 → get_or (set m i 0) p 0 ≡ 0
zero_stays m i p ne z = get_or-set_ne m i p 0 0 ne ∙ z

-- The memory after row `k` was cleared.
abbrev cleared : List ℕ → ℕ → List ℕ
cleared mem k = set_status (fill_zero user_field mem (name_at k)) k 0

module _ (mem : List ℕ) (k : ℕ) (tidy : IsTidy mem) (row : k < num_user) where
  name-cleared : name (cleared mem k) k ≡ []
  name-cleared = Holds-text _ (name_at k) [] (
      set_status-Holds _ k 0 (name_at k) [] (omega arith) (
        get_or-fill_zero user_field mem (name_at k) (name_at k) (omega arith) (omega arith)
          (omega (arith, tidy.size))))

  pass-cleared : pass (cleared mem k) k ≡ []
  pass-cleared = Holds-text _ (pass_at k) [] (
      set_status-Holds _ k 0 (pass_at k) [] (omega arith) (
        get_or-fill_zero user_field mem (name_at k) (pass_at k) (omega arith) (omega arith)
          (omega (arith, tidy.size))))

  name-cleared_ne : (i : ℕ) → i < num_user → i ≢ k → name (cleared mem k) i ≡ name mem i
  name-cleared_ne i lt ne = Holds-text _ (name_at i) (name mem i) (
      set_status-Holds _ k 0 (name_at i) (name mem i) (omega (arith, tidy.names i lt)) (
        Holds-fill_zero user_field mem (name_at k) (name_at i) (name mem i)
          (omega (arith, tidy.names i lt)) (text-Holds mem (name_at i))))

  pass-cleared_ne : (i : ℕ) → i < num_user → i ≢ k → pass (cleared mem k) i ≡ pass mem i
  pass-cleared_ne i lt ne = Holds-text _ (pass_at i) (pass mem i) (
      set_status-Holds _ k 0 (pass_at i) (pass mem i) (omega (arith, tidy.passes i lt)) (
        Holds-fill_zero user_field mem (name_at k) (pass_at i) (pass mem i)
          (omega (arith, tidy.passes i lt)) (text-Holds mem (pass_at i))))

  -- All bytes of the row's status.
  status-cleared : (j : ℕ) → j < 4 → get_or (cleared mem k) (status_at k + j) 0 ≡ 0
  unfolding set_status
  status-cleared j small =
      let m0 = fill_zero user_field mem (name_at k) in
      let a = status_at k in
      let m1 = set m0 a 0 in
      let m2 = set m1 (a + 1) 0 in
      let m3 = set m2 (a + 2) 0 in
      let size : length m0 ≡ 360 = length-fill_zero user_field mem (name_at k) ∙ tidy.size in
      ground (
        arith,
        small,
        row,
        size,
        length-set m0 a 0,
        length-set m1 (a + 1) 0,
        length-set m2 (a + 2) 0,
        zero_here m0 a,
        zero_here m1 (a + 1),
        zero_here m2 (a + 2),
        zero_here m3 (a + 3),
        zero_stays m1 (a + 1) a,
        zero_stays m2 (a + 2) a,
        zero_stays m3 (a + 3) a,
        zero_stays m2 (a + 2) (a + 1),
        zero_stays m3 (a + 3) (a + 1),
        zero_stays m3 (a + 3) (a + 2),
      )

  cleared-IsTidy : IsTidy (cleared mem k)
  unfolding set_status
  cleared-IsTidy = record {
    size =
        length-set _ _ _
        ∙ length-set _ _ _
        ∙ length-set _ _ _
        ∙ length-set _ _ _
        ∙ length-fill_zero user_field mem (name_at k)
        ∙ tidy.size;
    bytes = Bytes-set _ _ 0 (omega arith) (
        Bytes-set _ _ 0 (omega arith) (
          Bytes-set _ _ 0 (omega arith) (
            Bytes-set _ _ 0 (omega arith)
              (Bytes-fill_zero user_field mem (name_at k) tidy.bytes))));
    names = λ i lt. elim (ℕ_discrete i k) [
      | yes e ↦ rw (e, name-cleared) (omega arith)
      | no ne ↦ rw (name-cleared_ne i lt ne) (tidy.names i lt)
    ];
    passes = λ i lt. elim (ℕ_discrete i k) [
      | yes e ↦ rw (e, pass-cleared) (omega arith)
      | no ne ↦ rw (pass-cleared_ne i lt ne) (tidy.passes i lt)
    ];
  }

-- No two rows have the same name, except the empty one.
abbrev pub IsUnique : List ℕ → Type 0
IsUnique mem =
    (i j : ℕ) → i < num_user → j < num_user → name mem i ≡ name mem j → name mem i ≢ [] → i ≡ j

userdel_locked_clears :
    (u : List ℕ) (t : Utable) (k : ℕ)
    → find_name num_user 0 t.mem u ≡ some k
    → t.locked ≡ true
    → userdel_locked u t
      ≡ done (
        write_back (take 320 (cleared t.mem k)),
        record { locked = false; mem = cleared t.mem k },
      )
unfolding userdel_locked
userdel_locked_clears u t k found held = rw (userdel_locked, found, release, held)

locked_out :
    (mem u : List ℕ) (k : ℕ)
    → IsTidy mem
    → IsUnique mem
    → Bytes u
    → text u ≢ []
    → k < num_user
    → name mem k ≡ text u
    → (p : List ℕ) → Bytes p
    → usercheck u p (record { locked = false; mem = cleared mem k }) ≡ 0
locked_out mem u k tidy uniq bu ne lt e p bp = elim iff.1 [
  | inl in_ ↦ absurd (stays (iff.0.0 in_))
  | inr out ↦ out
]
  where
    iff :
        let t : Utable = record { locked = false; mem = cleared mem k } in
        ((usercheck u p t ≡ 1) ↔ Registered (cleared mem k) u p 0 num_user)
        × ((usercheck u p t ≡ 1) ⊎ (usercheck u p t ≡ 0))
    iff = usercheck_iff (cleared mem k) (cleared-IsTidy mem k tidy lt).bytes u p bu bp false

    stays : Registered (cleared mem k) u p 0 num_user → ⊥
    stays g = elim (ℕ_discrete g.row k) [
      | yes s ↦ ne (sym g.name_is ∙ rw s (name-cleared mem k tidy lt))
      | no s ↦
          let kept = sym (name-cleared_ne mem k tidy lt g.row g.below s) ∙ g.name_is in
          s (uniq g.row k g.below lt (kept ∙ sym e) (λ z. ne (sym kept ∙ z)))
    ]

-- The table after a user was deleted: nobody can log in under that name, a row with it was cleared,
-- and every other row has the name and password it had; the table is tidy and its lock free.
pub record Deleted (t t' : Utable) (u : List ℕ) : Type 0 where
  pub row : ℕ
  pub locked_out : (p : List ℕ) → Bytes p → usercheck u p t' ≡ 0
  pub found : (row < num_user) × (name t.mem row ≡ text u)
  pub cleared_ : (name t'.mem row ≡ []) × (pass t'.mem row ≡ [])
  pub status : (j : ℕ) → j < 4 → get_or t'.mem (status_at row + j) 0 ≡ 0
  pub names : (i : ℕ) → i < num_user → i ≢ row → name t'.mem i ≡ name t.mem i
  pub passes : (i : ℕ) → i < num_user → i ≢ row → pass t'.mem i ≡ pass t.mem i
  pub ready : IsTidy t'.mem × (t'.locked ≡ false)

-- On a tidy table without duplicate names, called by root for an existing user whose name is
-- neither empty nor `root`, `userdel` clears a row with that name, its password and its status:
-- it goes on to write the table's 320 bytes to /shadow, nobody can log in under the name any more,
-- and the names and passwords of all other rows stay.
pub userdel-Deleted :
    (userid u : List ℕ) (t : Utable) (r : ℕ)
    → IsReady userid t
    → IsUnique t.mem
    → Bytes u
    → text u ≢ []
    → strcmp u root ≢ 0
    → r < num_user
    → name t.mem r ≡ text u
    → (t' : Utable) × (userdel_table userid u t ≡ done (write_back (take 320 t'.mem), t'))
      × Deleted t t' u
userdel-Deleted userid u t r ready uniq bu ne nroot lt e =
    let (k, found) =
      find_name-IsSome t.mem u ready.tidy.bytes bu num_user 0 r (omega arith) (omega arith) e in
    let at = find_name-row t.mem u ready.tidy.bytes bu num_user 0 k found in
    (
      record { locked = false; mem = cleared t.mem k },
      userdel_enter userid t ready.by_root ready.unlocked u nroot
          ∙ userdel_locked_clears u (record t { locked = true }) k found refl,
      record {
        row = k;
        found = (at.1, at.2);
        cleared_ = (name-cleared t.mem k ready.tidy at.1, pass-cleared t.mem k ready.tidy at.1);
        status = λ j small. status-cleared t.mem k ready.tidy at.1 j small;
        locked_out = locked_out t.mem u k ready.tidy uniq bu ne at.1 at.2;
        names = name-cleared_ne t.mem k ready.tidy at.1;
        passes = pass-cleared_ne t.mem k ready.tidy at.1;
        ready = (cleared-IsTidy t.mem k ready.tidy at.1, refl);
      },
    )
