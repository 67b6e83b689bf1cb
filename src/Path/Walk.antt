-- ===== src/Path/Walk.antt =====
-- `namex` of xv6-public/fs.c is a walk along the elements of its path.
use ele3021_spring.Common.{
  ℕ, zero, suc, ◌≡◌, ◌⊎◌, ◌+◌, ◌<◌, inl, inr, refl, sym, ap, ◌∙◌, arith, Bool, if◌then◌else◌, List,
  [], ◌∷◌, Option, none, some, length, Outcome, done, panicked, faulted, ◌>>=◌,
}
use ele3021_spring.Path.{
  put_name, skipelem, Names, descend, arrive, namex_loop, namex, starts_with_slash, is_empty,
}
use ele3021_spring.Path.Elements.{elements, no_elements, skipelem-Skips}

module _ {S : Type 0} (n : Names S) (userid : List ℕ) (parent : Bool) where
  -- The walk: one step down for each element, with `name` the memory of the last one.
  unfoldable pub walk : List (List ℕ) → List ℕ → ℕ → S → Outcome (Option ℕ × S)
  unfolding descend arrive
  walk [] name ip s = arrive n userid parent ip s
  walk (e ∷ es) name ip s = descend n userid parent (no_elements es) (put_name e name) ip s >>= λ d.
      elim d [ inl next ↦ walk es (put_name e name) next.0 next.1 | inr result ↦ done result ]

  -- The steps of both, after the step down.
  go_on :
      (o : Outcome ((ℕ × S) ⊎ (Option ℕ × S))) (f g : ℕ → S → Outcome (Option ℕ × S))
      → ((ip : ℕ) (s : S) → f ip s ≡ g ip s)
      → (o >>= λ d. elim d [ inl next ↦ f next.0 next.1 | inr result ↦ done result ])
        ≡ (o >>= λ d. elim d [ inl next ↦ g next.0 next.1 | inr result ↦ done result ])
  go_on (done (inl next)) f g h = h next.0 next.1
  go_on (done (inr result)) f g h = refl
  go_on panicked f g h = refl
  go_on faulted f g h = refl

  loop_end :
      (fuel : ℕ) (path name : List ℕ) (ip : ℕ) (s : S)
      → skipelem path name ≡ none
      → namex_loop n userid parent (suc fuel) path name ip s ≡ arrive n userid parent ip s
  unfolding namex_loop
  loop_end fuel path name ip s e = rw (namex_loop, e) refl

  loop_step :
      (fuel : ℕ) (path name rest e : List ℕ) (ip : ℕ) (s : S)
      → skipelem path name ≡ some (rest, put_name e name)
      → namex_loop n userid parent (suc fuel) path name ip s ≡ (
          descend n userid parent (is_empty rest) (put_name e name) ip s >>= λ d. elim d [
            | inl next ↦ namex_loop n userid parent fuel rest (put_name e name) next.0 next.1
            | inr result ↦ done result
          ])
  unfolding namex_loop
  loop_step fuel path name rest e ip s h = rw (namex_loop, h) refl

  walk_end : (name : List ℕ) (ip : ℕ) (s : S) → walk [] name ip s ≡ arrive n userid parent ip s
  unfolding walk
  walk_end name ip s = refl

  walk_step :
      (e : List ℕ) (es : List (List ℕ)) (name : List ℕ) (ip : ℕ) (s : S)
      → walk (e ∷ es) name ip s ≡ (
          descend n userid parent (no_elements es) (put_name e name) ip s >>= λ d. elim d [
            | inl next ↦ walk es (put_name e name) next.0 next.1
            | inr result ↦ done result
          ])
  unfolding walk
  walk_step e es name ip s = refl

  -- Enough fuel: one more than the path is long.
  namex_loop-walk :
      (fuel : ℕ) (path name : List ℕ) (ip : ℕ) (s : S)
      → length path < fuel
      → namex_loop n userid parent fuel path name ip s ≡ walk (elements path) name ip s
  namex_loop-walk zero path name ip s lt = absurd (omega arith)
  namex_loop-walk (suc fuel) path name ip s lt = elim (skipelem-Skips path name) [
    | inl z ↦
        loop_end fuel path name ip s z.0
        ∙ sym (walk_end name ip s)
        ∙ ap (λ es. walk es name ip s) (sym z.1)
    | inr m ↦
        let rest = m.0 in
        let e = m.1 in
        let k = m.2 in
        loop_step fuel path name rest e ip s k.result
        ∙ ap
            (λ b. descend n userid parent b (put_name e name) ip s >>= λ d. elim d [
              | inl next ↦ namex_loop n userid parent fuel rest (put_name e name) next.0 next.1
              | inr result ↦ done result
            ])
            k.last
        ∙ go_on (descend n userid parent (no_elements (elements rest)) (put_name e name) ip s)
            (namex_loop n userid parent fuel rest (put_name e name))
            (walk (elements rest) (put_name e name))
            (λ i t. namex_loop-walk fuel rest (put_name e name) i t (omega (arith, lt, k.shorter)))
        ∙ sym (walk_step e (elements rest) name ip s)
        ∙ ap (λ es. walk es name ip s) (sym k.first)
  ]

  -- `namex` always ends, and is the walk along the elements of the path, from the root inode if the
  -- path begins with a slash and from the current directory otherwise.
  pub namex-walk :
      (path name : List ℕ) (s : S)
      → namex n userid parent path name s ≡ (
          (if starts_with_slash path then n.iget_root s else n.idup_cwd s) >>= λ r.
          walk (elements path) name r.0 r.1)
  unfolding namex
  namex-walk path name s = started (if starts_with_slash path then n.iget_root s else n.idup_cwd s)
    where
      started :
          (o : Outcome (ℕ × S))
          → (o >>= λ r. namex_loop n userid parent (length path + 1) path name r.0 r.1)
            ≡ (o >>= λ r. walk (elements path) name r.0 r.1)
      started (done r) = namex_loop-walk (length path + 1) path name r.0 r.1 (omega arith)
      started panicked = refl
      started faulted = refl
