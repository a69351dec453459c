-- ===== src/Jobs/Rewrites.antt =====
-- What an UPDATE with a WHERE does to a table, for a condition and new rows that are described apart from
-- the statement.
use apalis_surrealdb.Prelude.{
  ◌≡◌, refl, ap, ◌⊎◌, Bool, true, false, ◌||◌, Option, none, some, List, [], ◌∷◌, ℕ, holds, is_none,
  arith, Bool-cases, inl, inr,
}
use apalis_surrealdb.Database.{Status, pending, queued, running, done, failed, killed, JobRow}
use apalis_surrealdb.Jobs.{update_where, is_pending, is_queued, is_running, is_failed}

-- A row that meets `Cond` becomes `new` of it, and every other row stays as it is.
pub data Rewrites (Cond : JobRow → Type 0) (new : JobRow → JobRow)
    : List JobRow → List JobRow → Type 0 where
  end : Rewrites Cond new [] []
  changed :
      {r : JobRow} {rs ss : List JobRow}
      → Cond r
      → Rewrites Cond new rs ss
      → Rewrites Cond new (r ∷ rs) (new r ∷ ss)
  kept :
      {r : JobRow} {rs ss : List JobRow}
      → ¬ Cond r
      → Rewrites Cond new rs ss
      → Rewrites Cond new (r ∷ rs) (r ∷ ss)

pub update_where-Rewrites :
    (Cond : JobRow → Type 0) (new : JobRow → JobRow) (p : JobRow → Bool) (f : JobRow → JobRow)
    → ((r : JobRow) → p r ≡ true → Cond r)
    → ((r : JobRow) → Cond r → p r ≡ true)
    → ((r : JobRow) → f r ≡ new r)
    → (rows : List JobRow) → Rewrites Cond new rows (update_where p f rows)
update_where-Rewrites Cond new p f to from same [] = end
update_where-Rewrites Cond new p f to from same (r ∷ rows) =
    let rest = update_where-Rewrites Cond new p f to from same rows in
    elim (Bool-cases (p r)) [
      | inl e ↦ rw (e, same r) (changed (to r e) rest)
      | inr e ↦ rw e (kept (λ c. let t = from r c in absurd (cc)) rest)
    ]

-- Nobody but `w` holds the job.
pub free_or_own :
    (h : Option ℕ) (w : ℕ) → (holds h w || is_none h) ≡ true → (h ≡ none) ⊎ (h ≡ some w)
free_or_own none w e = inl refl
free_or_own (some v) w e = inr (let k : v ≡ w = ground arith in ap some k)

pub free_or_own_back :
    (h : Option ℕ) (w : ℕ) → (h ≡ none) ⊎ (h ≡ some w) → (holds h w || is_none h) ≡ true
free_or_own_back h w (inl e) = rw e refl
free_or_own_back h w (inr e) = rw e (ground arith)

pub held_by : (h : Option ℕ) (w : ℕ) → holds h w ≡ true → h ≡ some w
held_by none w e = absurd (cc)
held_by (some v) w e = let k : v ≡ w = ground arith in ap some k

pub pending-eq : (st : Status) → is_pending st ≡ true → st ≡ pending
pending-eq pending e = refl
pending-eq queued e = absurd (cc)
pending-eq running e = absurd (cc)
pending-eq done e = absurd (cc)
pending-eq failed e = absurd (cc)
pending-eq killed e = absurd (cc)

pub failed-eq : (st : Status) → is_failed st ≡ true → st ≡ failed
failed-eq failed e = refl
failed-eq pending e = absurd (cc)
failed-eq queued e = absurd (cc)
failed-eq running e = absurd (cc)
failed-eq done e = absurd (cc)
failed-eq killed e = absurd (cc)

pub queued-eq : (st : Status) → is_queued st ≡ true → st ≡ queued
queued-eq queued e = refl
queued-eq pending e = absurd (cc)
queued-eq running e = absurd (cc)
queued-eq done e = absurd (cc)
queued-eq failed e = absurd (cc)
queued-eq killed e = absurd (cc)

pub running-eq : (st : Status) → is_running st ≡ true → st ≡ running
running-eq running e = refl
running-eq pending e = absurd (cc)
running-eq queued e = absurd (cc)
running-eq done e = absurd (cc)
running-eq failed e = absurd (cc)
running-eq killed e = absurd (cc)

pub is_none-eq : {A : Type 0} → (o : Option A) → is_none o ≡ true → o ≡ none
is_none-eq none e = refl
is_none-eq (some a) e = absurd (cc)

-- What a claim may take by its status, its lock and its attempts.
pub either : (a b : Bool) → (a || b) ≡ true → (a ≡ true) ⊎ (b ≡ true)
either true b e = inl refl
either false b e = inr e
