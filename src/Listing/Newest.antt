-- ===== src/Listing/Newest.antt =====
-- The WHERE and the ORDER BY of list_jobs.surql and list_all_jobs.surql, described apart from them.
use mathlib.Core.List.{Permᴰ}
use apalis_surrealdb.Prelude.{
  ℕ, ◌<◌, ◌≡◌, refl, sym, ap, ◌∙◌, ◌⊎◌, Bool, true, false, not, Option, none, some, List, [], ◌∷◌,
  ◌++◌, filter, All, All-imp, All_filtered, All-perm, perm_refl, ltb, arith, Bool-cases, inl, inr,
}
use apalis_surrealdb.Database.{
  Status, pending, queued, running, done, failed, killed, id_leb, JobRow,
}
use apalis_surrealdb.Jobs.Claim.Order.{id_leb_trans, id_leb_total}
use apalis_surrealdb.Listing.{matches, same_status, newer, insert_newer, newest_first}

-- A job of the status, and of the queue if one is asked for.
abbrev pub Wanted : Option ℕ → Status → JobRow → Type 0
Wanted none status r = r.status ≡ status
Wanted (some queue) status r = (r.queue ≡ queue) × (r.status ≡ status)

-- `a` is the newer job: it runs later, or at the same time and has the later id.
abbrev pub Newer : JobRow → JobRow → Type 0
Newer a b = (b.run_at < a.run_at) ⊎ ((a.run_at ≡ b.run_at) × (id_leb b.id a.id ≡ true))

abbrev pub Ordered : List JobRow → Type 0
Ordered [] = Unit
Ordered (r ∷ rs) = All (Newer r) rs × Ordered rs

-- `all` is the jobs that are wanted, each as often as it stands in the table, the newest first.
pub record Listed (queue : Option ℕ) (status : Status) (jobs all : List JobRow) : Type 0 where
  pub others : List JobRow
  pub split : Permᴰ (all ++ others) jobs
  pub wanted : All (Wanted queue status) all
  pub unwanted : All (λ r. ¬ Wanted queue status r) others
  pub ordered : Ordered all

same_status-eq : (s t : Status) → same_status s t ≡ true → s ≡ t
same_status-eq pending pending h = refl
same_status-eq pending queued h = absurd (cc)
same_status-eq pending running h = absurd (cc)
same_status-eq pending done h = absurd (cc)
same_status-eq pending failed h = absurd (cc)
same_status-eq pending killed h = absurd (cc)
same_status-eq queued pending h = absurd (cc)
same_status-eq queued queued h = refl
same_status-eq queued running h = absurd (cc)
same_status-eq queued done h = absurd (cc)
same_status-eq queued failed h = absurd (cc)
same_status-eq queued killed h = absurd (cc)
same_status-eq running pending h = absurd (cc)
same_status-eq running queued h = absurd (cc)
same_status-eq running running h = refl
same_status-eq running done h = absurd (cc)
same_status-eq running failed h = absurd (cc)
same_status-eq running killed h = absurd (cc)
same_status-eq done pending h = absurd (cc)
same_status-eq done queued h = absurd (cc)
same_status-eq done running h = absurd (cc)
same_status-eq done done h = refl
same_status-eq done failed h = absurd (cc)
same_status-eq done killed h = absurd (cc)
same_status-eq failed pending h = absurd (cc)
same_status-eq failed queued h = absurd (cc)
same_status-eq failed running h = absurd (cc)
same_status-eq failed done h = absurd (cc)
same_status-eq failed failed h = refl
same_status-eq failed killed h = absurd (cc)
same_status-eq killed pending h = absurd (cc)
same_status-eq killed queued h = absurd (cc)
same_status-eq killed running h = absurd (cc)
same_status-eq killed done h = absurd (cc)
same_status-eq killed failed h = absurd (cc)
same_status-eq killed killed h = refl

same_status_refl : (s : Status) → same_status s s ≡ true
same_status_refl pending = refl
same_status_refl queued = refl
same_status_refl running = refl
same_status_refl done = refl
same_status_refl failed = refl
same_status_refl killed = refl

matches-Wanted :
    (queue : Option ℕ) (status : Status) (r : JobRow)
    → matches queue status r ≡ true
    → Wanted queue status r
matches-Wanted none status r h = same_status-eq r.status status h
matches-Wanted (some q) status r h = (ground arith, same_status-eq r.status status (ground arith))

Wanted-matches :
    (queue : Option ℕ) (status : Status) (r : JobRow)
    → Wanted queue status r
    → matches queue status r ≡ true
Wanted-matches none status r h = ap (λ s. same_status s status) h ∙ same_status_refl status
Wanted-matches (some q) status r (e, h) =
    let s = ap (λ x. same_status x status) h ∙ same_status_refl status in ground arith

newer-Newer : (a b : JobRow) → newer a b ≡ true → Newer a b
unfolding newer
newer-Newer a b h = elim (Bool-cases (ltb b.run_at a.run_at)) [
  | inl e ↦ inl (ground arith)
  | inr e ↦ inr (ground arith, ground arith)
]

newer_trans : (a b c : JobRow) → newer a b ≡ true → newer b c ≡ true → newer a c ≡ true
unfolding newer
newer_trans a b c h k = ground (arith, id_leb_trans c.id b.id a.id)

newer_total : (a b : JobRow) → newer a b ≡ false → newer b a ≡ true
unfolding newer
newer_total a b h = ground (arith, id_leb_total b.id a.id)

insert_newer-perm : (a : JobRow) (rs : List JobRow) → Permᴰ (insert_newer a rs) (a ∷ rs)
unfolding insert_newer
insert_newer-perm a [] = perm_refl (a ∷ [])
insert_newer-perm a (b ∷ bs) = elim (Bool-cases (newer a b)) [
  | inl e ↦ rw e (perm_refl (a ∷ b ∷ bs))
  | inr e ↦ rw e (Permᴰ.trans (Permᴰ.cons refl (insert_newer-perm a bs)) (Permᴰ.swap refl refl))
]

newest_first-perm : (rs : List JobRow) → Permᴰ (newest_first rs) rs
unfolding newest_first
newest_first-perm [] = Permᴰ.nil
newest_first-perm (r ∷ rs) =
    Permᴰ.trans (insert_newer-perm r (newest_first rs)) (Permᴰ.cons refl (newest_first-perm rs))

perm_sym : {xs ys : List JobRow} → Permᴰ xs ys → Permᴰ ys xs
perm_sym Permᴰ.nil = Permᴰ.nil
perm_sym (Permᴰ.cons e p) = Permᴰ.cons (sym e) (perm_sym p)
perm_sym (Permᴰ.swap e d) = Permᴰ.swap (sym d) (sym e)
perm_sym (Permᴰ.trans p q) = Permᴰ.trans (perm_sym q) (perm_sym p)

-- Sorted by the test.
abbrev Sorted : List JobRow → Type 0
Sorted [] = Unit
Sorted (r ∷ rs) = All (λ s. newer r s ≡ true) rs × Sorted rs

insert_newer-Sorted : (a : JobRow) (rs : List JobRow) → Sorted rs → Sorted (insert_newer a rs)
unfolding insert_newer
insert_newer-Sorted a [] h = (tt, tt)
insert_newer-Sorted a (b ∷ bs) (h, hs) = elim (Bool-cases (newer a b)) [
  | inl e ↦ rw e (
    (
      e,
      All-imp (λ c. newer b c ≡ true) (λ c. newer a c ≡ true) bs (λ c k. newer_trans a b c e k) h,
    ),
    (h, hs),
  )
  | inr e ↦ rw e (
    All-perm (λ c. newer b c ≡ true) (perm_sym (insert_newer-perm a bs)) (newer_total a b e, h),
    insert_newer-Sorted a bs hs,
  )
]

newest_first-Sorted : (rs : List JobRow) → Sorted (newest_first rs)
unfolding newest_first
newest_first-Sorted [] = tt
newest_first-Sorted (r ∷ rs) = insert_newer-Sorted r (newest_first rs) (newest_first-Sorted rs)

Sorted-Ordered : (rs : List JobRow) → Sorted rs → Ordered rs
Sorted-Ordered [] h = tt
Sorted-Ordered (r ∷ rs) (h, hs) =
    (All-imp (λ s. newer r s ≡ true) (Newer r) rs (newer-Newer r) h, Sorted-Ordered rs hs)

front-perm : (zs : List JobRow) {xs ys : List JobRow} → Permᴰ xs ys → Permᴰ (xs ++ zs) (ys ++ zs)
front-perm zs Permᴰ.nil = perm_refl zs
front-perm zs (Permᴰ.cons e p) = Permᴰ.cons e (front-perm zs p)
front-perm zs (Permᴰ.swap e d) = Permᴰ.swap e d
front-perm zs (Permᴰ.trans p q) = Permᴰ.trans (front-perm zs p) (front-perm zs q)

middle-perm : (r : JobRow) (xs ys : List JobRow) → Permᴰ (xs ++ r ∷ ys) (r ∷ xs ++ ys)
middle-perm r [] ys = perm_refl (r ∷ ys)
middle-perm r (x ∷ xs) ys =
    Permᴰ.trans (Permᴰ.cons refl (middle-perm r xs ys)) (Permᴰ.swap refl refl)

split-perm :
    (p : JobRow → Bool) (rs : List JobRow) → Permᴰ (filter p rs ++ filter (λ r. not (p r)) rs) rs
split-perm p [] = Permᴰ.nil
split-perm p (r ∷ rs) = elim (Bool-cases (p r)) [
  | inl e ↦ rw e (Permᴰ.cons refl (split-perm p rs))
  | inr e ↦ rw e (
      Permᴰ.trans (middle-perm r (filter p rs) (filter (λ s. not (p s)) rs))
        (Permᴰ.cons refl (split-perm p rs)))
]

pub newest_first-Listed :
    (queue : Option ℕ) (status : Status) (jobs : List JobRow)
    → Listed queue status jobs (newest_first (filter (matches queue status) jobs))
newest_first-Listed queue status jobs =
    let p = matches queue status in
    let found = filter p jobs in
    record {
      others = filter (λ r. not (p r)) jobs;
      split =
          Permᴰ.trans (front-perm (filter (λ r. not (p r)) jobs) (newest_first-perm found))
            (split-perm p jobs);
      wanted = All-perm (Wanted queue status) (perm_sym (newest_first-perm found)) (
          All-imp (λ r. p r ≡ true) (Wanted queue status) found (matches-Wanted queue status)
            (All_filtered p jobs));
      unwanted =
          All-imp (λ r. not (p r) ≡ true) (λ r. ¬ Wanted queue status r)
            (filter (λ r. not (p r)) jobs)
            (λ r n w. let t = Wanted-matches queue status r w in absurd (ground arith))
            (All_filtered (λ r. not (p r)) jobs);
      ordered = Sorted-Ordered (newest_first found) (newest_first-Sorted found);
    }
