-- ===== src/Jobs/Update.antt =====
-- What an UPDATE keeps of the rows.
use apalis_surrealdb.Prelude.{◌≡◌, Bool, true, List, [], ◌∷◌, All, Bool-cases, inl, inr}
use apalis_surrealdb.Database.{JobRow}
use apalis_surrealdb.Jobs.{update_where}

-- A property that the SET clauses keep on the selected rows holds of all rows afterwards.
pub All-update_where :
    (P : JobRow → Type 0) (p : JobRow → Bool) (f : JobRow → JobRow) (rows : List JobRow)
    → ((r : JobRow) → p r ≡ true → P r → P (f r))
    → All P rows
    → All P (update_where p f rows)
All-update_where P p f [] keep h = tt
All-update_where P p f (r ∷ rows) keep h =
    let rest = All-update_where P p f rows keep h.1 in
    elim (Bool-cases (p r)) [ inl e ↦ rw e (keep r e h.0, rest) | inr e ↦ rw e (h.0, rest) ]
