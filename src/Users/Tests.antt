-- ===== src/Users/Tests.antt =====
-- The user table after boot, and calls on it.
use ele3021_spring.CString.Compare.{Bytes}
use ele3021_spring.Users.Del.{IsUnique, Deleted, userdel-Deleted}
use ele3021_spring.Users.Faults.{useradd-keeps_lock, useradd-long_name}
use ele3021_spring.Common.{
  ℕ, List, false, replicate, ◌<◌, arith, refl, ◌≢◌, ◌∷◌, ◌++◌, ◌≡◌, suc, length, [], zero, ◌⊎◌,
  true, ◌↔◌, inl, done, inr, take, panicked, ◌∙◌, sym,
}
use ele3021_spring.CString.{strcmp}
use ele3021_spring.Users.{
  Utable, root, fill_row, num_user, usercheck, find_free, userdel_table, useradd_table, write_back,
  refuse,
}
use ele3021_spring.Users.Check.{name, pass, Registered, usercheck_iff}
use ele3021_spring.Users.Rows.{IsTidy}
use ele3021_spring.Users.Add.{IsReady, IsNew, Added, useradd-Added}

-- "1234" and "kim"
abbrev root_pass : List ℕ
root_pass = 49 ∷ 50 ∷ 51 ∷ 52 ∷ []

abbrev kim : List ℕ
kim = 107 ∷ 105 ∷ 109 ∷ []

-- The table with the user root alone, as `load_shadow` makes it.
abbrev row : List ℕ
row =
    114
    ∷ 111
    ∷ 111
    ∷ 116
    ∷ 0
    ∷ 0
    ∷ 0
    ∷ 0
    ∷ 0
    ∷ 0
    ∷ 0
    ∷ 0
    ∷ 0
    ∷ 0
    ∷ 0
    ∷ 0
    ∷ 49
    ∷ 50
    ∷ 51
    ∷ 52
    ∷ replicate 300 0

abbrev boot_mem : List ℕ
boot_mem = row ++ 1 ∷ replicate 39 0

abbrev boot : Utable
boot = record { locked = false; mem = boot_mem }

filled : fill_row (replicate 360 0) 0 root root_pass ≡ boot_mem
unfolding fill_row
filled = refl

-- A property of the ten rows, checked row by row.
rows :
    (P : ℕ → Type 0)
    → P 0 × P 1 × P 2 × P 3 × P 4 × P 5 × P 6 × P 7 × P 8 × P 9
    → (i : ℕ) → i < num_user
    → P i
rows P h zero lt = h.0
rows P h (suc zero) lt = h.1
rows P h (suc (suc zero)) lt = h.2
rows P h (suc (suc (suc zero))) lt = h.3
rows P h (suc (suc (suc (suc zero)))) lt = h.4
rows P h (suc (suc (suc (suc (suc zero))))) lt = h.5
rows P h (suc (suc (suc (suc (suc (suc zero)))))) lt = h.6
rows P h (suc (suc (suc (suc (suc (suc (suc zero))))))) lt = h.7
rows P h (suc (suc (suc (suc (suc (suc (suc (suc zero)))))))) lt = h.8
rows P h (suc (suc (suc (suc (suc (suc (suc (suc (suc zero))))))))) lt = h.9
rows P h (suc (suc (suc (suc (suc (suc (suc (suc (suc (suc i)))))))))) lt = absurd (omega arith)

boot-IsTidy : IsTidy boot_mem
boot-IsTidy = record {
  size = refl;
  bytes = omega arith;
  names = rows (λ i. length (name boot_mem i) < 16) (omega arith);
  passes = rows (λ i. length (pass boot_mem i) < 16) (omega arith);
}

boot-IsReady : IsReady root boot
unfolding strcmp
boot-IsReady = record { by_root = refl; unlocked = refl; tidy = boot-IsTidy }

kim-IsNew : IsNew boot_mem kim
kim-IsNew = rows (λ i. name boot_mem i ≢ kim) (grind arith)

usercheck_iff_example :
    ((usercheck root root_pass boot ≡ 1) ↔ Registered boot_mem root root_pass 0 num_user)
    × ((usercheck root root_pass boot ≡ 1) ⊎ (usercheck root root_pass boot ≡ 0))
usercheck_iff_example =
    usercheck_iff boot_mem boot-IsTidy.bytes root root_pass (omega arith) (omega arith) false

useradd-Added_example :
    (t' : Utable) × (useradd_table root kim root_pass boot
      ≡ done (write_back (take 320 t'.mem), t'))
    × Added boot t' kim root_pass 1
unfolding find_free
useradd-Added_example =
    useradd-Added root kim root_pass boot 1 boot-IsReady (omega arith) (omega arith) kim-IsNew refl
      (omega arith) (omega arith)

-- A table with kim as its only user.
abbrev kim_mem : List ℕ
kim_mem =
    (107 ∷ 105 ∷ 109 ∷ replicate 13 0)
    ++ (49 ∷ 50 ∷ 51 ∷ 52 ∷ replicate 300 0)
    ++ (1 ∷ replicate 39 0)

abbrev kim_only : Utable
kim_only = record { locked = false; mem = kim_mem }

kim_only-IsReady : IsReady root kim_only
unfolding strcmp
kim_only-IsReady = record {
  by_root = refl;
  unlocked = refl;
  tidy = record {
    size = refl;
    bytes = omega arith;
    names = rows (λ i. length (name kim_mem i) < 16) (omega arith);
    passes = rows (λ i. length (pass kim_mem i) < 16) (omega arith);
  };
}

kim_mem-only_row : (i : ℕ) → i < num_user → (i ≡ 0) ⊎ (name kim_mem i ≡ [])
kim_mem-only_row =
    rows (λ i. (i ≡ 0) ⊎ (name kim_mem i ≡ []))
      (
        inl refl,
        inr refl,
        inr refl,
        inr refl,
        inr refl,
        inr refl,
        inr refl,
        inr refl,
        inr refl,
        inr refl,
      )

kim_mem-IsUnique : IsUnique kim_mem
kim_mem-IsUnique i j li lj e ne = elim (kim_mem-only_row i li) [
  | inr none_ ↦ absurd (ne none_)
  | inl zi ↦ elim (kim_mem-only_row j lj) [
    | inr none_ ↦ absurd (ne (e ∙ none_))
    | inl zj ↦ zi ∙ sym zj
  ]
]

kim-not-root : strcmp kim root ≢ 0
unfolding strcmp
kim-not-root = omega arith

userdel-Deleted_example :
    (t' : Utable) × (userdel_table root kim kim_only ≡ done (write_back (take 320 t'.mem), t'))
    × Deleted kim_only t' kim
userdel-Deleted_example =
    userdel-Deleted root kim kim_only 0 kim_only-IsReady kim_mem-IsUnique (omega arith)
      (grind arith) kim-not-root (omega arith) refl

useradd-keeps_lock_example :
    let t' : Utable = record boot { locked = true } in
    (useradd_table root root kim boot ≡ done (refuse, t'))
    × ((u' p' : List ℕ) → useradd_table root u' p' t' ≡ panicked)
useradd-keeps_lock_example =
    useradd-keeps_lock root root kim boot 0 boot-IsReady (omega arith) (omega arith) refl

-- A name of 16 bytes.
abbrev long : List ℕ
long = replicate 16 97

long-IsNew : IsNew boot_mem long
long-IsNew = rows (λ i. name boot_mem i ≢ long) (grind arith)

useradd-long_name_example :
    (t' : Utable) × (useradd_table root long kim boot ≡ done (write_back (take 320 t'.mem), t'))
    × ((q : List ℕ) → Bytes q → usercheck long q t' ≡ 0)
unfolding find_free
useradd-long_name_example =
    useradd-long_name root long kim boot 1 boot-IsReady (omega arith) (omega arith) long-IsNew refl
      refl (omega arith) (grind arith)
