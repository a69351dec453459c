-- ===== src/Storage/Given.antt =====
-- The rows that the query of wait_for.rs gives for some ids.
use apalis_surrealdb.Prelude.{
  ℕ, ◌≡◌, true, List, [], ◌∷◌, ◌++◌, map, filter, any, arith, All, Bool-cases, ◌&&◌, ◌==◌, inl, inr,
}
use apalis_surrealdb.Database.{JobRow, text, same_id, same_id_iff}
use apalis_surrealdb.Jobs.Finished.{is_completed, completed_rows}

-- A row of one of the ids, of a task that has ended.
pub record Given (ids : List ℕ) (r : JobRow) : Type 0 where
  pub key : ℕ
  pub keyed : r.id ≡ text key
  pub asked : any (λ j. j == key) ids ≡ true
  pub completed : is_completed r ≡ true

All-append : {A : Type 0} (P : A → Type 0) (xs ys : List A) → All P xs → All P ys → All P (xs ++ ys)
All-append P [] ys h k = k
All-append P (x ∷ xs) ys h k = (h.0, All-append P xs ys h.1 k)

filter-Given :
    (ids : List ℕ) (i : ℕ) (jobs : List JobRow)
    → any (λ j. j == i) ids ≡ true
    → All (Given ids) (filter (λ r. same_id r.id (text i) && is_completed r) jobs)
filter-Given ids i [] h = tt
filter-Given ids i (r ∷ rs) h = elim (Bool-cases (same_id r.id (text i) && is_completed r)) [
  | inl e ↦
      let both : (same_id r.id (text i) ≡ true) × (is_completed r ≡ true) =
        (ground arith, ground arith) in
      rw e (
        record {
          key = i;
          keyed = (same_id_iff r.id (text i)).0 both.0;
          asked = h;
          completed = both.1;
        },
        filter-Given ids i rs h,
      )
  | inr e ↦ rw e (filter-Given ids i rs h)
]

completed_rows-within :
    (ids part : List ℕ) (jobs : List JobRow)
    → ((i : ℕ) → any (λ j. j == i) part ≡ true → any (λ j. j == i) ids ≡ true)
    → All (Given ids) (completed_rows (map text part) jobs)
unfolding completed_rows
completed_rows-within ids [] jobs h = tt
completed_rows-within ids (k ∷ ks) jobs h =
    All-append (Given ids) _ _ (filter-Given ids k jobs (h k (ground arith)))
      (completed_rows-within ids ks jobs (λ i e. h i (ground (arith, e))))

pub completed_rows-Given :
    (ids : List ℕ) (jobs : List JobRow) → All (Given ids) (completed_rows (map text ids) jobs)
completed_rows-Given ids jobs = completed_rows-within ids ids jobs (λ i e. e)
