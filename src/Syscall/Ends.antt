-- ===== src/Syscall/Ends.antt =====
-- A call that returns has a result and a state as described, and a call may also panic: how such facts
-- are put together along the code of xv6-public/sysfile.c.
use ele3021_spring.Common.{
  Bool, true, false, Outcome, done, Option, ◌≡◌, ◌>>=◌, refl, if◌then◌else◌, none, ap, some,
  panicked, faulted, subst, >>=-eq-done,
}

-- Whenever the call returns, `P` holds of what it returns.
pub record Ends {A : Type 0} (o : Outcome A) (P : A → Type 0) : Type 0 where
  pub fact : (a : A) → o ≡ done a → P a

-- The value that a call returns.
abbrev value_or : {A : Type 0} → A → Outcome A → A
value_or a (done b) = b
value_or a panicked = a
value_or a faulted = a

pub ends_panic : {A : Type 0} {P : A → Type 0} → Ends panicked P
ends_panic = record { fact = λ a e. cc }

pub ends_done : {A : Type 0} {P : A → Type 0} (a : A) → P a → Ends (done a) P
ends_done {P = P} a p = record { fact = λ b e. subst P (ap (value_or a) e) p }

pub ends_if :
    {A : Type 0} {P : A → Type 0} (b : Bool) {x y : Outcome A}
    → (b ≡ true → Ends x P)
    → (b ≡ false → Ends y P)
    → Ends (if b then x else y) P
ends_if true x y = x refl
ends_if false x y = y refl

pub ends_option :
    {A B : Type 0} {P : A → Type 0} (m : Option B) {x : Outcome A} {f : B → Outcome A}
    → (m ≡ none → Ends x P)
    → ((b : B) → m ≡ some b → Ends (f b) P)
    → Ends (elim m [ none ↦ x | some b ↦ f b ]) P
ends_option none x f = x refl
ends_option (some b) x f = f b refl

pub ends_bind :
    {A B : Type 0} {P : A → Type 0} {Q : B → Type 0} {o : Outcome A} {f : A → Outcome B}
    → Ends o P
    → ((a : A) → P a → Ends (f a) Q)
    → Ends (o >>= f) Q
ends_bind {o = o} {f = f} e h = record {
  fact = λ b r. let (a, m, q) = >>=-eq-done o f r in (h a (e.fact a m)).fact b q;
}

pub ends_bool :
    {A : Type 0} {P : A → Type 0} (b : Bool) {x y : Outcome A}
    → (b ≡ true → Ends x P)
    → (b ≡ false → Ends y P)
    → Ends (elim b [ false ↦ y | true ↦ x ]) P
ends_bool true x y = x refl
ends_bool false x y = y refl

-- What a call returns is known to be what it returns.
pub ends_known :
    {A : Type 0} {P : A → Type 0} {o : Outcome A} → Ends o P → Ends o (λ a. (o ≡ done a) × P a)
ends_known e = record { fact = λ a r. (r, e.fact a r) }

pub ends_weaken :
    {A : Type 0} {P Q : A → Type 0} {o : Outcome A} → Ends o P → ((a : A) → P a → Q a) → Ends o Q
ends_weaken e h = record { fact = λ a r. h a (e.fact a r) }
