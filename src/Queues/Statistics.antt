-- ===== src/Queues/Statistics.antt =====
-- The statistics of one queue: from the grouped replies, and from `fetch_by_queue`.
use apalis_surrealdb.Prelude.{
  ℕ, ◌/◌, is_empty, some, ◌≡◌, refl, sym, ap, ◌∙◌, Bool, true, false, ◌||◌, Option, List, [], ◌∷◌,
  map, filter, arith, Bool-cases, inl, inr, ◌==◌, none, any, if◌then◌else◌,
}
use apalis_surrealdb.Prelude.Int.{ℤ}
use apalis_surrealdb.Database.{JobRow}
use apalis_surrealdb.Metrics.{
  Grouping, default_row, overview, overview_query, oldest_unix, sum_durations, Floats,
  build_statistics, statistics, least, in_backlog, first_oldest, first_counts,
}
use apalis_surrealdb.Queues.{group_names, of_queue, lookup_oldest}
use apalis_surrealdb.Queues.Names.{group_names-any}

-- No row of the queue.
filter-none :
    (p : JobRow → Bool) (q : ℕ) (jobs : List JobRow)
    → any (λ r. r.queue == q) (filter p jobs) ≡ false
    → filter p (of_queue q jobs) ≡ []
filter-none p q [] h = refl
filter-none p q (r ∷ rs) h =
    let rest : any (λ r. r.queue == q) (filter p rs) ≡ false → filter p (of_queue q rs) ≡ [] =
      filter-none p q rs in
    ground (arith, rest)

pub no_jobs :
    (q : ℕ) (jobs : List JobRow) → any (λ r. r.queue == q) jobs ≡ false → of_queue q jobs ≡ []
no_jobs q [] h = refl
no_jobs q (r ∷ rs) h =
    let rest : any (λ r. r.queue == q) rs ≡ false → of_queue q rs ≡ [] = no_jobs q rs in
    ground (arith, rest)

module _ (g : Grouping) (now : ℕ) (nothing : g.nothing_to_int ≡ none) where
  abbrev pub to_int : Option ℕ → Option ℤ
  to_int o = elim o [ none ↦ g.nothing_to_int | some n ↦ g.min_to_int n ]

  last_wins :
      (h : ℕ → Option ℕ) (q k : ℕ) (found : Option ℤ) (b : Bool)
      → (if b then to_int (h q) else if k == q then to_int (h k) else found)
        ≡ (if k == q || b then to_int (h q) else found)
  last_wins h q k found true = ground arith
  last_wins h q k found false = elim (Bool-cases (k == q)) [
    | inl e ↦ let here : k ≡ q = ground arith in rw here (ground arith)
    | inr e ↦ rw e refl
  ]

  lookup_oldest-map :
      (h : ℕ → Option ℕ) (q : ℕ) (found : Option ℤ) (names : List ℕ)
      → lookup_oldest g q found (map (λ k. (k, h k)) names)
        ≡ (if any (λ k. k == q) names then to_int (h q) else found)
  lookup_oldest-map h q found [] = refl
  lookup_oldest-map h q found (k ∷ names) =
      lookup_oldest-map h q (if k == q then to_int (h k) else found) names
      ∙ last_wins h q k found (any (λ j. j == q) names)

  pub lookup_oldest-oldest_unix :
      (q : ℕ) (jobs : List JobRow)
      → lookup_oldest g q none (
          map {B = ℕ × Option ℕ}
            (λ k. (k, oldest_unix now (of_queue k jobs)))
            (group_names (filter (in_backlog now) jobs)))
        ≡ to_int (oldest_unix now (of_queue q jobs))
  unfolding oldest_unix
  lookup_oldest-oldest_unix q jobs =
      lookup_oldest-map (λ k. oldest_unix now (of_queue k jobs)) q none
        (group_names (filter (in_backlog now) jobs))
      ∙ rw (group_names-any q (filter (in_backlog now) jobs))
          (elim (Bool-cases (any (λ r. r.queue == q) (filter (in_backlog now) jobs))) [
            | inl e ↦ rw e refl
            | inr e ↦ rw (e, filter-none (in_backlog now) q jobs e) (sym nothing)
          ])

  pub overview-nil : overview g now [] ≡ default_row
  unfolding overview sum_durations
  overview-nil = refl

  first_counts-overview :
      (f : Floats) (jobs : List JobRow)
      → first_counts f (overview_query g now jobs).counts ≡ overview g now jobs
  unfolding overview_query
  first_counts-overview f [] = elim (Bool-cases g.row_for_none) [
    | inl e ↦ rw e (sym overview-nil)
    | inr e ↦ rw e (sym overview-nil)
  ]
  first_counts-overview f (r ∷ rs) = refl

  first_oldest-to_int : (f : Floats) (o : Option ℕ) → first_oldest f g (o ∷ []) ≡ to_int o
  first_oldest-to_int f none = refl
  first_oldest-to_int f (some n) = refl

  selected_oldest :
      (f : Floats) (selected : List JobRow)
      → let o = least (map (λ r. r.run_at / 1000) selected) in
        first_oldest f g
          (if is_empty selected then if g.row_for_none then none ∷ [] else [] else o ∷ [])
        ≡ to_int o
  selected_oldest f [] = elim (Bool-cases g.row_for_none) [
    | inl e ↦ rw e refl
    | inr e ↦ rw e (sym nothing)
  ]
  selected_oldest f (r ∷ rs) = first_oldest-to_int f (least (map (λ j. j.run_at / 1000) (r ∷ rs)))

  -- The statistics that `fetch_by_queue` makes for a queue.
  pub statistics-cases :
      (f : Floats) (jobs : List JobRow)
      → statistics f g (overview_query g now jobs ∷ [])
        ≡ build_statistics f (overview g now jobs) (to_int (oldest_unix now jobs))
  unfolding overview_query oldest_unix
  statistics-cases f jobs =
      ap (λ c. build_statistics f c (first_oldest f g (overview_query g now jobs).oldest))
        (first_counts-overview f jobs)
      ∙ ap (λ o. build_statistics f (overview g now jobs) o)
          (selected_oldest f (filter (in_backlog now) jobs))
