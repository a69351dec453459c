-- ===== src/Tx/Order.antt =====
-- `classify_tx_errors` of mod.rs and the iteration order of its `HashMap`.
use mathlib.Core.List.{Permᴰ}
use apalis_surrealdb.Prelude.{ℕ, ◌≡◌, refl, ap, ◌∙◌, ◌≢◌, sym, subst, List, [], All-perm, is_empty}
use apalis_surrealdb.Database.{DbError}
use apalis_surrealdb.Tx.{insert, collect, classify_tx_errors}
use apalis_surrealdb.Tx.Slots.{Fresh, Distinct, insert_comm}

module _ {A : Type 0} where
  Distinct-perm : {xs ys : List (ℕ × A)} → Permᴰ xs ys → Distinct xs → Distinct ys
  Distinct-perm Permᴰ.nil h = tt
  Distinct-perm (Permᴰ.cons {l₂ = ys} e p) h =
      (subst (λ x. Fresh x.0 ys) e (All-perm (λ x. x.0 ≢ _) p h.0), Distinct-perm p h.1)
  Distinct-perm (Permᴰ.swap {l = l} e d) h = (
    (
      λ q. h.0.0 (ap (λ (z : ℕ × A). z.0) d ∙ sym q ∙ ap (λ (z : ℕ × A). z.0) (sym e)),
      subst (λ x. Fresh x.0 l) d h.1.0,
    ),
    (subst (λ x. Fresh x.0 l) e h.0.1, h.1.1),
  )
  Distinct-perm (Permᴰ.trans p q) h = Distinct-perm q (Distinct-perm p h)

  collect-perm :
      (acc : List (ℕ × A)) {xs ys : List (ℕ × A)}
      → Permᴰ xs ys
      → Distinct xs
      → collect acc xs ≡ collect acc ys
  unfolding collect
  collect-perm acc Permᴰ.nil d = refl
  collect-perm acc (Permᴰ.cons {a = x} {b = y} {l₁ = xs} e p) d =
      ap (λ (z : ℕ × A). collect (insert z.0 z.1 acc) xs) e
      ∙ collect-perm (insert y.0 y.1 acc) p d.1
  collect-perm acc (Permᴰ.swap {a = x} {b = y} {a' = u} {l = l} e f) d =
      ap (λ m. collect m l) (insert_comm y.0 x.0 y.1 x.1 acc d.0.0)
      ∙ ap (λ (z : ℕ × A). collect (insert x.0 x.1 (insert z.0 z.1 acc)) l) f
      ∙ ap (λ (z : ℕ × A). collect (insert z.0 z.1 (insert u.0 u.1 acc)) l) e
  collect-perm acc (Permᴰ.trans p q) d =
      collect-perm acc p d ∙ collect-perm acc q (Distinct-perm p d)

is_empty-perm : {A : Type 0} {xs ys : List A} → Permᴰ xs ys → is_empty xs ≡ is_empty ys
is_empty-perm Permᴰ.nil = refl
is_empty-perm (Permᴰ.cons e p) = refl
is_empty-perm (Permᴰ.swap e f) = refl
is_empty-perm (Permᴰ.trans p q) = is_empty-perm p ∙ is_empty-perm q

-- Two orders of the same errors, at distinct slots, are classified alike.
classify_tx_errors-perm :
    {xs ys : List (ℕ × DbError)}
    → Permᴰ xs ys
    → Distinct xs
    → classify_tx_errors xs ≡ classify_tx_errors ys
unfolding classify_tx_errors
classify_tx_errors-perm p d = rw (is_empty-perm p, collect-perm [] p d)
