-- ===== src/Prelude/Perms.antt =====
-- Lists that differ in their order.
use mathlib.Core.List.{Permᴰ}
use mathlib.Core.Bool.{Bool, true, false}
use mathlib.Core.List.{List, [], ◌∷◌, ◌++◌, map}
use mathlib.Core.Path.{◌≡◌, refl, sym, ap, ◌∙◌, subst}
use mathlib.Core.Logic.{inl, inr}
use native.Mathlib.Omega.{arith}
use apalis_surrealdb.Prelude.Tests.{Bool-cases}
use apalis_surrealdb.Prelude.Lists.{All, any, filter}
use apalis_surrealdb.Prelude.Members.{Apart}

module _ {A : Type 0} where
  pub perm_refl : (xs : List A) → Permᴰ xs xs
  perm_refl [] = Permᴰ.nil
  perm_refl (x ∷ xs) = Permᴰ.cons refl (perm_refl xs)

  pub All-perm : (P : A → Type 0) {xs ys : List A} → Permᴰ xs ys → All P xs → All P ys
  All-perm P Permᴰ.nil h = tt
  All-perm P (Permᴰ.cons e p) h = (subst P e h.0, All-perm P p h.1)
  All-perm P (Permᴰ.swap e d) h = (subst P d h.1.0, (subst P e h.0, h.1.1))
  All-perm P (Permᴰ.trans p q) h = All-perm P q (All-perm P p h)

  pub any-perm : (f : A → Bool) {xs ys : List A} → Permᴰ xs ys → any f xs ≡ any f ys
  any-perm f Permᴰ.nil = refl
  any-perm f (Permᴰ.cons e p) = rw (ap f e, any-perm f p) refl
  any-perm f (Permᴰ.swap e d) = rw (ap f e, ap f d) (ground arith)
  any-perm f (Permᴰ.trans p q) = any-perm f p ∙ any-perm f q

  pub snoc-perm : (z : A) {xs ys : List A} → Permᴰ xs ys → Permᴰ (xs ++ z ∷ []) (ys ++ z ∷ [])
  snoc-perm z Permᴰ.nil = perm_refl (z ∷ [])
  snoc-perm z (Permᴰ.cons e p) = Permᴰ.cons e (snoc-perm z p)
  snoc-perm z (Permᴰ.swap e d) = Permᴰ.swap e d
  snoc-perm z (Permᴰ.trans p q) = Permᴰ.trans (snoc-perm z p) (snoc-perm z q)

  pub map-perm : (f : A → A) {xs ys : List A} → Permᴰ xs ys → Permᴰ (map f xs) (map f ys)
  map-perm f Permᴰ.nil = Permᴰ.nil
  map-perm f (Permᴰ.cons e p) = Permᴰ.cons (ap f e) (map-perm f p)
  map-perm f (Permᴰ.swap e d) = Permᴰ.swap (ap f e) (ap f d)
  map-perm f (Permᴰ.trans p q) = Permᴰ.trans (map-perm f p) (map-perm f q)

  pub filter-perm :
      (f : A → Bool) {xs ys : List A} → Permᴰ xs ys → Permᴰ (filter f xs) (filter f ys)
  filter-perm f Permᴰ.nil = Permᴰ.nil
  filter-perm f (Permᴰ.cons {a = x} {b = y} e p) = elim (Bool-cases (f x)) [
    | inl t ↦ let u : f y ≡ true = ap f (sym e) ∙ t in rw (t, u) (Permᴰ.cons e (filter-perm f p))
    | inr n ↦ let u : f y ≡ false = ap f (sym e) ∙ n in rw (n, u) (filter-perm f p)
  ]
  filter-perm f (Permᴰ.swap {a = x} {b = y} {a' = u} {b' = v} {l = l} e d) =
      let fu : f u ≡ f y = ap f (sym d) in
      let fv : f v ≡ f x = ap f (sym e) in
      elim (Bool-cases (f x)) [
        | inl t ↦ elim (Bool-cases (f y)) [
          | inl k ↦ rw (fu, fv, t, k) (Permᴰ.swap e d)
          | inr k ↦ rw (fu, fv, t, k) (Permᴰ.cons e (perm_refl (filter f l)))
        ]
        | inr t ↦ elim (Bool-cases (f y)) [
          | inl k ↦ rw (fu, fv, t, k) (Permᴰ.cons d (perm_refl (filter f l)))
          | inr k ↦ rw (fu, fv, t, k) (perm_refl (filter f l))
        ]
      ]
  filter-perm f (Permᴰ.trans p q) = Permᴰ.trans (filter-perm f p) (filter-perm f q)

  -- Where the test is symmetric, it does not matter in which order the elements stand.
  pub Apart-perm :
      (clash : A → A → Bool)
      → ((x y : A) → clash x y ≡ clash y x)
      → {xs ys : List A} → Permᴰ xs ys
      → Apart clash xs
      → Apart clash ys
  Apart-perm clash s Permᴰ.nil h = tt
  Apart-perm clash s (Permᴰ.cons {a = x} {b = y} {l₁ = xs} {l₂ = ys} e p) h = (
    subst (λ z. All (λ w. clash z w ≡ false) ys) e (All-perm (λ w. clash x w ≡ false) p h.0),
    Apart-perm clash s p h.1,
  )
  Apart-perm clash s (Permᴰ.swap {a = x} {b = y} {a' = u} {b' = v} {l = l} e d) h =
      let apart : clash u v ≡ false =
        ap (λ z. clash z v) (sym d) ∙ ap (clash y) (sym e) ∙ s y x ∙ h.0.0 in
      (
        (apart, subst (λ z. All (λ w. clash z w ≡ false) l) d h.1.0),
        (subst (λ z. All (λ w. clash z w ≡ false) l) e h.0.1, h.1.1),
      )
  Apart-perm clash s (Permᴰ.trans p q) h = Apart-perm clash s q (Apart-perm clash s p h)
