-- ===== src/Grep/Language.antt =====
-- What the patterns of xv6-public/grep.c mean.
use ele3021_spring.Common.{
  ℕ, ◌≡◌, ◌≢◌, ◌⊎◌, ◌↔◌, inl, inr, arith, refl, sym, ap, subst, ◌∙◌, Bool, true, List, [], ◌∷◌,
  ◌++◌, Bool-cases, ℕ_discrete,
}
use ele3021_spring.Grep.{
  asterisk, caret, dollar, fits, matchstar, matchchar, matchhere, match_from, matches,
}

-- `Denotes re t`: the pattern `re` without its `^` stands at the start of the text `t`. A
-- character followed by an asterisk takes any number of characters that it fits; `$` at the end
-- of the pattern is the end of the text.
pub data Denotes : List ℕ → List ℕ → Type 0 where
  all_taken : {t : List ℕ} → Denotes [] t
  at_end : Denotes (dollar ∷ []) []
  star_done : {c : ℕ} {re t : List ℕ} → Denotes re t → Denotes (c ∷ asterisk ∷ re) t
  star_more :
      {c x : ℕ} {re t : List ℕ}
      → fits c x ≡ true
      → Denotes (c ∷ asterisk ∷ re) t
      → Denotes (c ∷ asterisk ∷ re) (x ∷ t)
  last_char : {c x : ℕ} {t : List ℕ} → c ≢ dollar → fits c x ≡ true → Denotes (c ∷ []) (x ∷ t)
  one_char :
      {c d x : ℕ} {re t : List ℕ}
      → d ≢ asterisk
      → fits c x ≡ true
      → Denotes (d ∷ re) t
      → Denotes (c ∷ d ∷ re) (x ∷ t)

sound_star :
    (c : ℕ) (re t : List ℕ)
    → ((u : List ℕ) → matchhere re u ≡ true → Denotes re u)
    → matchstar c (matchhere re) t ≡ true
    → Denotes (c ∷ asterisk ∷ re) t
unfolding matchstar
sound_star c re [] ih h = star_done (ih [] h)
sound_star c re (x ∷ t) ih h = elim (Bool-cases (matchhere re (x ∷ t))) [
  | inl y ↦ star_done (ih (x ∷ t) y)
  | inr n ↦ elim (Bool-cases (fits c x)) [
    | inl f ↦ star_more f (sound_star c re t ih (ground (arith, h, n, f)))
    | inr nf ↦ ground (arith, h, n, nf)
  ]
]

-- The tests of `matchhere`, each as an equation.
matchhere_star :
    (c : ℕ) (re t : List ℕ) → matchhere (c ∷ asterisk ∷ re) t ≡ matchstar c (matchhere re) t
unfolding matchhere
matchhere_star c re t = refl

matchhere_one :
    (c d : ℕ) (re t : List ℕ)
    → d ≢ asterisk
    → matchhere (c ∷ d ∷ re) t ≡ matchchar c (matchhere (d ∷ re)) t
unfolding matchhere
matchhere_one c d re t ne = ground (arith, ne)

matchhere_last :
    (c : ℕ) (t : List ℕ) → c ≢ dollar → matchhere (c ∷ []) t ≡ matchchar c (matchhere []) t
unfolding matchhere
matchhere_last c t ne = ground (arith, ne)

-- What `matchchar` tells.
matchchar-true :
    (c : ℕ) (rest : List ℕ → Bool) (x : ℕ) (t : List ℕ)
    → matchchar c rest (x ∷ t) ≡ true
    → (fits c x ≡ true) × (rest t ≡ true)
unfolding matchchar
matchchar-true c rest x t h = elim (Bool-cases (fits c x)) [
  | inl f ↦ (f, ground (arith, h, f))
  | inr nf ↦ ground (arith, h, nf)
]

sound_last :
    (c : ℕ) (t : List ℕ) → c ≢ dollar → matchchar c (matchhere []) t ≡ true → Denotes (c ∷ []) t
unfolding matchchar
sound_last c [] ne h = cc
sound_last c (x ∷ t) ne h = last_char ne (matchchar-true c (matchhere []) x t h).0

sound_one :
    (c d : ℕ) (re t : List ℕ)
    → ((u : List ℕ) → matchhere (d ∷ re) u ≡ true → Denotes (d ∷ re) u)
    → d ≢ asterisk
    → matchchar c (matchhere (d ∷ re)) t ≡ true
    → Denotes (c ∷ d ∷ re) t
unfolding matchchar
sound_one c d re [] ih ne h = cc
sound_one c d re (x ∷ t) ih ne h =
    let m = matchchar-true c (matchhere (d ∷ re)) x t h in one_char ne m.0 (ih t m.1)

sound_dollar : (t : List ℕ) → matchhere (dollar ∷ []) t ≡ true → Denotes (dollar ∷ []) t
unfolding matchhere
sound_dollar [] h = at_end
sound_dollar (x ∷ t) h = cc

sound : (re t : List ℕ) → matchhere re t ≡ true → Denotes re t
sound [] t h = all_taken
sound (c ∷ []) t h = elim (ℕ_discrete c dollar) [
  | yes e ↦
      subst (λ (y : ℕ). Denotes (y ∷ []) t) (sym e)
        (sound_dollar t (subst (λ (y : ℕ). matchhere (y ∷ []) t ≡ true) e h))
  | no ne ↦ sound_last c t ne (sym (matchhere_last c t ne) ∙ h)
]
sound (c ∷ d ∷ re) t h = elim (ℕ_discrete d asterisk) [
  | yes e ↦
      subst (λ (y : ℕ). Denotes (c ∷ y ∷ re) t) (sym e)
        (sound_star c re t (sound re)
          (sym (matchhere_star c re t) ∙ subst (λ (y : ℕ). matchhere (c ∷ y ∷ re) t ≡ true) e h))
  | no ne ↦ sound_one c d re t (sound (d ∷ re)) ne (sym (matchhere_one c d re t ne) ∙ h)
]

star_here : (c : ℕ) (here : List ℕ → Bool) (t : List ℕ) → here t ≡ true → matchstar c here t ≡ true
unfolding matchstar
star_here c here [] h = h
star_here c here (x ∷ t) h = ground (arith, h)

star_next :
    (c : ℕ) (here : List ℕ → Bool) (x : ℕ) (t : List ℕ)
    → fits c x ≡ true
    → matchstar c here t ≡ true
    → matchstar c here (x ∷ t) ≡ true
unfolding matchstar
star_next c here x t f h = elim (Bool-cases (here (x ∷ t))) [
  | inl y ↦ ground (arith, y)
  | inr n ↦ ground (arith, n, f, h)
]

both :
    (c : ℕ) (rest : List ℕ → Bool) (x : ℕ) (t : List ℕ)
    → fits c x ≡ true
    → rest t ≡ true
    → matchchar c rest (x ∷ t) ≡ true
unfolding matchchar
both c rest x t f r = rw (f, r) refl

complete : {re t : List ℕ} → Denotes re t → matchhere re t ≡ true
unfolding matchhere matchchar
complete all_taken = refl
complete at_end = refl
complete (star_done {c} {re} {t} d) = star_here c (matchhere re) t (complete d)
complete (star_more {c} {x} {re} {t} f d) = star_next c (matchhere re) x t f (complete d)
complete (last_char {c} {x} {t} ne f) =
    matchhere_last c (x ∷ t) ne ∙ both c (matchhere []) x t f refl
complete (one_char {c} {d} {x} {re} {t} ne f r) =
    matchhere_one c d re (x ∷ t) ne ∙ both c (matchhere (d ∷ re)) x t f (complete r)

-- The pattern stands somewhere in the text.
abbrev pub Somewhere : List ℕ → List ℕ → Type 0
Somewhere re text = (u v : List ℕ) × (text ≡ u ++ v) × Denotes re v

-- A pattern that begins with `^` stands at the start of the text, any other pattern anywhere.
abbrev pub Occurs : List ℕ → List ℕ → Type 0
Occurs [] text = Somewhere [] text
Occurs (c ∷ re) text = ((c ≡ caret) × Denotes re text) ⊎ ((c ≢ caret) × Somewhere (c ∷ re) text)

sound_from : (re t : List ℕ) → match_from re t ≡ true → Somewhere re t
unfolding match_from
sound_from re [] h = ([], [], refl, sound re [] h)
sound_from re (x ∷ t) h = elim (Bool-cases (matchhere re (x ∷ t))) [
  | inl y ↦ ([], x ∷ t, refl, sound re (x ∷ t) y)
  | inr n ↦
      let s = sound_from re t (ground (arith, n, h)) in (x ∷ s.0, s.1, ap (λ r. x ∷ r) s.2, s.3)
]

-- A match at the start is found, and one that is found further on as well.
from_here : (re t : List ℕ) → matchhere re t ≡ true → match_from re t ≡ true
unfolding match_from
from_here re [] h = h
from_here re (x ∷ t) h = ground (arith, h)

from_later :
    (re : List ℕ) (x : ℕ) (t : List ℕ) → match_from re t ≡ true → match_from re (x ∷ t) ≡ true
unfolding match_from
from_later re x t h = elim (Bool-cases (matchhere re (x ∷ t))) [
  | inl y ↦ ground (arith, y)
  | inr n ↦ ground (arith, n, h)
]

complete_from : (re u v : List ℕ) → Denotes re v → match_from re (u ++ v) ≡ true
complete_from re [] v d = from_here re v (complete d)
complete_from re (x ∷ u) v d = from_later re x (u ++ v) (complete_from re u v d)

somewhere : (re t : List ℕ) → (match_from re t ≡ true) ↔ Somewhere re t
somewhere re t = (
  sound_from re t,
  λ s. subst (λ (y : List ℕ). match_from re y ≡ true) (sym s.2) (complete_from re s.0 s.1 s.3),
)

-- `match` accepts a text exactly when the pattern occurs in it.
pub matches_iff : (re text : List ℕ) → (matches re text ≡ true) ↔ Occurs re text
unfolding matches
matches_iff [] text = somewhere [] text
matches_iff (c ∷ re) text = elim (ℕ_discrete c caret) [
  | yes e ↦ (
    λ h. inl (e, sound re text (ground (arith, e, h))),
    λ o. elim o [ inl p ↦ ground (arith, e, complete p.1) | inr p ↦ absurd (p.0 e) ],
  )
  | no ne ↦ (
    λ h. inr (ne, sound_from (c ∷ re) text (ground (arith, ne, h))),
    λ o. elim o [
      | inl p ↦ absurd (ne p.0)
      | inr p ↦ ground (arith, ne, (somewhere (c ∷ re) text).1 p.1)
    ],
  )
]
