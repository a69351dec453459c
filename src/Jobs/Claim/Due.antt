-- ===== src/Jobs/Claim/Due.antt =====
-- The rows that `LET $due` of a claim chooses.
use apalis_surrealdb.Prelude.{
  ℕ, ◌≡◌, Bool, true, List, [], ◌∷◌, All, All-take, All-filter, All_filtered, Bool-cases, inl, inr,
  filter,
}
use apalis_surrealdb.Database.{JobRow}
use apalis_surrealdb.Jobs.Claim.{ahead, insert_row, order_rows, due_rows}

module _ (P : JobRow → Type 0) where
  pub All-insert_row :
      (a : JobRow) (rows : List JobRow) → P a → All P rows → All P (insert_row a rows)
  unfolding insert_row
  All-insert_row a [] pa h = (pa, tt)
  All-insert_row a (b ∷ bs) pa h = elim (Bool-cases (ahead a b)) [
    | inl e ↦ rw e (pa, h)
    | inr e ↦ rw e (h.0, All-insert_row a bs pa h.1)
  ]

  All-order_rows : (rows : List JobRow) → All P rows → All P (order_rows rows)
  unfolding order_rows
  All-order_rows [] h = tt
  All-order_rows (r ∷ rs) h = All-insert_row r (order_rows rs) h.0 (All-order_rows rs h.1)

  pub All-due_rows :
      (p : JobRow → Bool) (limit : ℕ) (rows : List JobRow)
      → All P rows
      → All P (due_rows p limit rows)
  unfolding due_rows
  All-due_rows p limit rows h =
      All-take P limit _ (All-order_rows (filter p rows) (All-filter P p rows h))

pub due_rows-pass :
    (p : JobRow → Bool) (limit : ℕ) (rows : List JobRow)
    → All (λ r. p r ≡ true) (due_rows p limit rows)
unfolding due_rows
due_rows-pass p limit rows =
    All-take (λ r. p r ≡ true) limit _
      (All-order_rows (λ r. p r ≡ true) (filter p rows) (All_filtered p rows))
