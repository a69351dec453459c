-- ===== src/Prelude/Members.antt =====
-- What holds of every element of a list, through the list functions.
use mathlib.Core.Path.{◌≡◌, refl, subst, sym, ◌∙◌, ap}
use Prim.Native.Nat.{ℕ, zero, suc}
use mathlib.Core.Bool.{Bool, true, false, ◌||◌}
use mathlib.Core.Logic.{inl, inr}
use mathlib.Core.List.{List, [], ◌∷◌, ◌++◌, map, Memᴰ}
use native.Mathlib.Omega.{arith}
use apalis_surrealdb.Prelude.Tests.{if◌then◌else◌, Bool-cases}
use apalis_surrealdb.Prelude.Lists.{filter, any, All, take}

module _ {ℓ κ} {A : Type ℓ} (P : A → Type κ) where
  pub All-mem : (xs : List A) {a : A} → All P xs → Memᴰ a xs → P a
  All-mem [] h m = elim m [ ]
  All-mem (x ∷ xs) h (Memᴰ.head e) = subst P (sym e) h.0
  All-mem (x ∷ xs) h (Memᴰ.tail m) = All-mem xs h.1 m

  pub All-append : (xs ys : List A) → All P xs → All P ys → All P (xs ++ ys)
  All-append [] ys hx hy = hy
  All-append (x ∷ xs) ys hx hy = (hx.0, All-append xs ys hx.1 hy)

  pub All-take : (n : ℕ) (xs : List A) → All P xs → All P (take n xs)
  All-take zero xs h = tt
  All-take (suc n) [] h = tt
  All-take (suc n) (x ∷ xs) h = (h.0, All-take n xs h.1)

  pub All-filter : (p : A → Bool) (xs : List A) → All P xs → All P (filter p xs)
  All-filter p [] h = tt
  All-filter p (x ∷ xs) h = elim (Bool-cases (p x)) [
    | inl e ↦ rw e (h.0, All-filter p xs h.1)
    | inr e ↦ rw e (All-filter p xs h.1)
  ]

module _ {ℓ} {A : Type ℓ} where
  pub All_filtered : (p : A → Bool) (xs : List A) → All (λ a. p a ≡ true) (filter p xs)
  All_filtered p [] = tt
  All_filtered p (x ∷ xs) = elim (Bool-cases (p x)) [
    | inl e ↦ rw e (e, All_filtered p xs)
    | inr e ↦ rw e (All_filtered p xs)
  ]

module _ {ℓ κ μ} {A : Type ℓ} {B : Type μ} (P : A → Type κ) where
  pub All-map {ν} :
      (Q : B → Type ν) (f : A → B) (xs : List A)
      → ((a : A) → P a → Q (f a))
      → All P xs
      → All Q (map f xs)
  All-map Q f [] g h = tt
  All-map Q f (x ∷ xs) g h = (g x h.0, All-map Q f xs g h.1)

  -- The converse, for a condition that the image satisfies.
  pub All-unmap {ν} :
      (Q : B → Type ν) (f : A → B) (xs : List A)
      → ((a : A) → Q (f a) → P a)
      → All Q (map f xs)
      → All P xs
  All-unmap Q f [] g h = tt
  All-unmap Q f (x ∷ xs) g h = (g x h.0, All-unmap Q f xs g h.1)

module _ {ℓ} {A : Type ℓ} where
  pub All_of_any-false : (p : A → Bool) (xs : List A) → any p xs ≡ false → All (λ a. p a ≡ false) xs
  All_of_any-false p [] h = tt
  All_of_any-false p (x ∷ xs) h = (ground arith, All_of_any-false p xs (ground arith))

  pub any-append : (p : A → Bool) (xs ys : List A) → any p (xs ++ ys) ≡ (any p xs || any p ys)
  any-append p [] ys = refl
  any-append p (x ∷ xs) ys = ground (arith, any-append p xs ys)

  -- Elements that must not meet: every two of them, in list order, fail the test.
  abbrev pub Apart : (A → A → Bool) → List A → Type 0
  Apart clash [] = Unit
  Apart clash (x ∷ xs) = All (λ y. clash x y ≡ false) xs × Apart clash xs

module _ {ℓ} {A : Type ℓ} (clash : A → A → Bool) where
  pub Apart-map :
      (g : A → A) (xs : List A)
      → ((x y : A) → clash (g x) (g y) ≡ clash x y)
      → Apart clash xs
      → Apart clash (map g xs)
  Apart-map g [] same h = tt
  Apart-map g (x ∷ xs) same h = (
    All-map (λ y. clash x y ≡ false) (λ y. clash (g x) y ≡ false) g xs (λ y e. same x y ∙ e) h.0,
    Apart-map g xs same h.1,
  )

  pub Apart-filter : (p : A → Bool) (xs : List A) → Apart clash xs → Apart clash (filter p xs)
  Apart-filter p [] h = tt
  Apart-filter p (x ∷ xs) h = elim (Bool-cases (p x)) [
    | inl e ↦ rw e (All-filter (λ y. clash x y ≡ false) p xs h.0, Apart-filter p xs h.1)
    | inr e ↦ rw e (Apart-filter p xs h.1)
  ]

  pub Apart-snoc :
      (xs : List A) (x : A)
      → Apart clash xs
      → All (λ y. clash y x ≡ false) xs
      → Apart clash (xs ++ x ∷ [])
  Apart-snoc [] x h a = (tt, tt)
  Apart-snoc (y ∷ ys) x h a =
      (All-append (λ z. clash y z ≡ false) ys (x ∷ []) h.0 (a.0, tt), Apart-snoc ys x h.1 a.1)

module _ {ℓ κ} {A : Type ℓ} (P Q R : A → Type κ) where
  pub All-imp₂ : (xs : List A) → ((a : A) → P a → Q a → R a) → All P xs → All Q xs → All R xs
  All-imp₂ [] f h k = tt
  All-imp₂ (x ∷ xs) f h k = (f x h.0 k.0, All-imp₂ xs f h.1 k.1)

module _ {ℓ κ} {A : Type ℓ} (P Q : A → Type κ) where
  pub All-imp : (xs : List A) → ((a : A) → P a → Q a) → All P xs → All Q xs
  All-imp [] f h = tt
  All-imp (x ∷ xs) f h = (f x h.0, All-imp xs f h.1)

module _ {ℓ} {A : Type ℓ} (p : A → Bool) where
  pub any-map : (g : A → A) (xs : List A) → ((a : A) → p (g a) ≡ p a) → any p (map g xs) ≡ any p xs
  any-map g [] same = refl
  any-map g (x ∷ xs) same = rw (same x, any-map g xs same)

  pub any-filter :
      (keep : A → Bool) (xs : List A)
      → any p xs ≡ true
      → All (λ a. p a ≡ true → keep a ≡ true) xs
      → any p (filter keep xs) ≡ true
  any-filter keep [] h a = h
  any-filter keep (x ∷ xs) h a = elim (Bool-cases (p x)) [
    | inl e ↦ rw (a.0 e) (rw e)
    | inr e ↦
        let rest = any-filter keep xs (rw e at h) a.1 in
        elim (Bool-cases (keep x)) [ inl k ↦ rw (k, e) rest | inr k ↦ rw k rest ]
  ]

  pub any-false : (xs : List A) → All (λ a. p a ≡ false) xs → any p xs ≡ false
  any-false [] h = refl
  any-false (x ∷ xs) h = rw h.0 (any-false xs h.1)

  pub filter-nil : (xs : List A) → All (λ a. p a ≡ false) xs → filter p xs ≡ []
  filter-nil [] h = refl
  filter-nil (x ∷ xs) h = rw h.0 (filter-nil xs h.1)

  pub map-if_false :
      (f : A → A) (xs : List A)
      → All (λ a. p a ≡ false) xs
      → map (λ a. if p a then f a else a) xs ≡ xs
  map-if_false f [] h = refl
  map-if_false f (x ∷ xs) h = rw h.0 (ap (λ l. x ∷ l) (map-if_false f xs h.1))

module _ {ℓ} {A : Type ℓ} where
  pub All-self : (xs : List A) → All (λ a. Memᴰ a xs) xs
  All-self [] = tt
  All-self (x ∷ xs) = (Memᴰ.head refl, All-imp _ _ xs (λ a m. Memᴰ.tail m) (All-self xs))

  pub any_of_mem : (p : A → Bool) (xs : List A) {a : A} → Memᴰ a xs → p a ≡ true → any p xs ≡ true
  any_of_mem p [] m e = elim m [ ]
  any_of_mem p (x ∷ xs) (Memᴰ.head q) e = ground arith
  any_of_mem p (x ∷ xs) (Memᴰ.tail m) e = ground (arith, any_of_mem p xs m e)

  pub mem_of_map {κ} :
      {B : Type κ} (f : A → B) (xs : List A) {b : B}
      → Memᴰ b (map f xs)
      → (a : A) × Memᴰ a xs × (b ≡ f a)
  mem_of_map f [] m = elim m [ ]
  mem_of_map f (x ∷ xs) (Memᴰ.head e) = (x, Memᴰ.head refl, e)
  mem_of_map f (x ∷ xs) (Memᴰ.tail m) = let (a, n, e) = mem_of_map f xs m in (a, Memᴰ.tail n, e)
