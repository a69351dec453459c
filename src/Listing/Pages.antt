-- ===== src/Listing/Pages.antt =====
-- LIMIT and START of list_jobs.surql and list_all_jobs.surql.
use apalis_surrealdb.Prelude.{
  ℕ, zero, suc, ◌+◌, ◌-◌, min, ◌≡◌, refl, sym, ap, ◌∙◌, Option, List, [], ◌∷◌, ◌++◌, filter, take,
  drop, length, arith, length-take,
}
use native.Mathlib.Nat.{suc-add, zero-add}
use apalis_surrealdb.Database.{Status, JobRow}
use apalis_surrealdb.Listing.Newest.{Listed, newest_first-Listed}
use apalis_surrealdb.Listing.{newest_first, insert_newer, list_jobs, matches}

take-nil : {A : Type 0} (n : ℕ) → take {A = A} n [] ≡ []
take-nil zero = refl
take-nil (suc n) = refl

drop-nil : {A : Type 0} (n : ℕ) → drop {A = A} n [] ≡ []
drop-nil zero = refl
drop-nil (suc n) = refl

take-drop : {A : Type 0} (a b : ℕ) (xs : List A) → take a xs ++ take b (drop a xs) ≡ take (a + b) xs
take-drop zero b xs = rw zero-add refl
take-drop (suc a) b [] = take-nil b ∙ sym (take-nil (suc a + b))
take-drop (suc a) b (x ∷ xs) = rw (suc-add) (ap (λ l. x ∷ l) (take-drop a b xs))

drop-drop : {A : Type 0} (o a : ℕ) (xs : List A) → drop a (drop o xs) ≡ drop (o + a) xs
drop-drop zero a xs = rw zero-add refl
drop-drop (suc o) a [] = drop-nil a ∙ sym (drop-nil (suc o + a))
drop-drop (suc o) a (x ∷ xs) = rw (suc-add) (drop-drop o a xs)

length-drop : {A : Type 0} (o : ℕ) (xs : List A) → length (drop o xs) ≡ length xs - o
length-drop zero xs = omega arith
length-drop (suc o) [] = omega arith
length-drop (suc o) (x ∷ xs) = rw (length-drop o xs) (omega arith)

length-insert_newer : (r : JobRow) (rs : List JobRow) → length (insert_newer r rs) ≡ suc (length rs)
unfolding insert_newer
length-insert_newer r [] = refl
length-insert_newer r (s ∷ rs) = ground (arith, length-insert_newer r rs)

length-newest_first : (rs : List JobRow) → length (newest_first rs) ≡ length rs
unfolding newest_first
length-newest_first [] = refl
length-newest_first (r ∷ rs) =
    length-insert_newer r (newest_first rs) ∙ ap suc (length-newest_first rs)

pages :
    (queue : Option ℕ) (status : Status) (a b offset : ℕ) (jobs : List JobRow)
    → list_jobs queue status a offset jobs ++ list_jobs queue status b (offset + a) jobs
      ≡ list_jobs queue status (a + b) offset jobs
unfolding list_jobs
pages queue status a b offset jobs =
    let rows = newest_first (filter (matches queue status) jobs) in
    ap (λ l. take a (drop offset rows) ++ take b l) (sym (drop-drop offset a rows))
    ∙ take-drop a b (drop offset rows)

length-list_jobs :
    (queue : Option ℕ) (status : Status) (limit offset : ℕ) (jobs : List JobRow)
    → length (list_jobs queue status limit offset jobs)
      ≡ min limit (length (filter (matches queue status) jobs) - offset)
unfolding list_jobs
length-list_jobs queue status limit offset jobs =
    let found = filter (matches queue status) jobs in
    length-take limit (drop offset (newest_first found))
    ∙ ap (min limit)
        (length-drop offset (newest_first found) ∙ ap (λ n. n - offset) (length-newest_first found))

-- A page is what is left behind its offset, up to its limit, of the list of the jobs that are asked for: all
-- those of the status, and of the queue if one is given, and no other, the latest first and of the same time
-- those with later ids first. So two pages that follow each other are the page of both, and no job is shown
-- twice or left out between them; and a page is as long as its limit, or as what is left behind its offset.
pub list_jobs_pages :
    (queue : Option ℕ) (status : Status) (a b offset : ℕ) (jobs : List JobRow)
    → (all : List JobRow) × Listed queue status jobs all
      × (list_jobs queue status a offset jobs ≡ take a (drop offset all))
      × (list_jobs queue status a offset jobs ++ list_jobs queue status b (offset + a) jobs
          ≡ list_jobs queue status (a + b) offset jobs)
      × (length (list_jobs queue status a offset jobs) ≡ min a (length all - offset))
list_jobs_pages queue status a b offset jobs =
    let found = filter (matches queue status) jobs in
    (
      newest_first found,
      newest_first-Listed queue status jobs,
      unfold list_jobs in refl,
      pages queue status a b offset jobs,
      length-list_jobs queue status a offset jobs
          ∙ ap (λ n. min a (n - offset)) (sym (length-newest_first found)),
    )
