-- ===== src/Sysargs/Tests.antt =====
-- A process of 100 bytes.
use ele3021_spring.Common.{
  some, ◌≡◌, refl, if◌then◌else◌, none, ◌<◌, ◌==◌, ◌≤◌, List, ℕ, ◌∷◌, ◌⊎◌, [], ◌≢◌,
}
use ele3021_spring.Sysargs.{User, argptr, fetchstr, scan_string}
use ele3021_spring.Sysargs.Bounds.{Stands, fetchstr-Stands}

-- The first argument is the address 60.
abbrev small : User
small = record { sz = 100; esp = 0; mem = λ a. if a == 4 then 60 else 0 }

accepted : argptr 0 40 small ≡ some 60
unfolding argptr
accepted = refl

refused : argptr 0 41 small ≡ none
unfolding argptr
refused = refl

-- The string `hi` at the address 60.
abbrev greeting : User
greeting = record {
  sz = 64;
  esp = 0;
  mem = λ a. if a == 60 then b'h' else if a == 61 then b'i' else 0;
}

fetchstr-Stands_example :
    ((cs : List ℕ) × (fetchstr 60 greeting ≡ some cs) × Stands cs 60 64 greeting.mem)
    ⊎ ((fetchstr 60 greeting ≡ none) × ((j : ℕ) → 60 ≤ j → j < 64 → greeting.mem j ≢ 0))
fetchstr-Stands_example = fetchstr-Stands 60 greeting

fetched : fetchstr 60 greeting ≡ some (b'h' ∷ b'i' ∷ [])
unfolding fetchstr scan_string
fetched = refl

-- No NUL is left below the size.
unterminated : fetchstr 60 (record greeting { sz = 62 }) ≡ none
unfolding fetchstr scan_string
unterminated = refl
