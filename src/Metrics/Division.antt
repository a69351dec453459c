-- ===== src/Metrics/Division.antt =====
-- The two quotients of `build_statistics`.
use apalis_surrealdb.Prelude.{ℕ, ◌<◌, ◌≡◌, refl, ap, ◌∙◌, Option, ltb, Bool-cases, inl, inr, arith}
use apalis_surrealdb.Prelude.Int.{ℤ}
use apalis_surrealdb.Metrics.{
  OverviewRow, Floats, round2, success_rate, avg_duration, build_statistics,
}

-- Another division.
abbrev pub with_div : (f : Floats) → (f.F → f.F → f.F) → Floats
with_div f div = record f { div = div }

module _ (f : Floats) (div : f.F → f.F → f.F)
    (agree : (a : f.F) (n : ℕ) → 0 < n → div a (f.of_i64 n) ≡ f.div a (f.of_i64 n))
    (percent : (a : f.F) → div a (f.lit 100) ≡ f.div a (f.lit 100))
    (minutes : (a : f.F) → div a (f.lit 60) ≡ f.div a (f.lit 60)) where
  round2-div : (a : f.F) → round2 (with_div f div) a ≡ round2 f a
  round2-div a = percent (f.round (f.mul a (f.lit 100)))

  success_rate-div : (c : OverviewRow) → success_rate (with_div f div) c ≡ success_rate f c
  success_rate-div c = elim (Bool-cases (ltb 0 c.total)) [
    | inl e ↦ rw e (round2-div _ ∙ ap (round2 f) (agree _ c.total (ground arith)))
    | inr e ↦ rw e refl
  ]

  avg_duration-div : (c : OverviewRow) → avg_duration (with_div f div) c ≡ avg_duration f c
  avg_duration-div c = elim (Bool-cases (ltb 0 c.finished)) [
    | inl e ↦ rw e (
        round2-div _
        ∙ ap (round2 f)
            (minutes _ ∙ ap (λ x. f.div x (f.lit 60)) (agree _ c.finished (ground arith))))
    | inr e ↦ rw e refl
  ]

  -- No statistic depends on a division by zero: the divisors are positive counts, 60 and 100, so that
  -- a division which agrees on these gives the same board.
  build_statistics-div :
      (c : OverviewRow) (oldest : Option ℤ)
      → build_statistics (with_div f div) c oldest ≡ build_statistics f c oldest
  unfolding build_statistics
  build_statistics-div c oldest = rw (success_rate-div c, avg_duration-div c) refl
