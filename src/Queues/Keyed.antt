-- ===== src/Queues/Keyed.antt =====
-- The map from names to queues that the listing builds.
use apalis_surrealdb.Prelude.{
  ℕ, suc, ◌≤◌, ◌<◌, ◌≡◌, refl, sym, subst, Bool, false, ◌||◌, Option, List, [], ◌∷◌, any, All,
  arith, Bool-cases, inl, inr, ◌==◌, ltb,
}
use apalis_surrealdb.Tx.{insert}
use apalis_surrealdb.Tx.Slots.{Ascends, insert-Ascends}
use apalis_surrealdb.Metrics.{Grouping, OverviewRow, Floats}
use apalis_surrealdb.Queues.{
  QueueInfo, queue_info, from_counts, without, new_queue, push_worker, add_worker, add_workers,
}

-- A queue of that name is in the map.
abbrev pub keyed : {V : Type 0} → ℕ → List (ℕ × V) → Bool
keyed n m = any (λ e. e.0 == n) m

keyed-insert :
    {V : Type 0} (n k : ℕ) (v : V) (m : List (ℕ × V))
    → keyed n (insert k v m) ≡ (k == n || keyed n m)
unfolding insert
keyed-insert n k v [] = refl
keyed-insert n k v ((j, w) ∷ m) = ground (arith, keyed-insert n k v m)

module _ (f : Floats) (g : Grouping) where
  pub from_counts-keyed :
      (n : ℕ) (oldest : List (ℕ × Option ℕ)) (daily : List (ℕ × List ℕ))
      (counts : List (ℕ × OverviewRow)) (m : List (ℕ × QueueInfo f.F))
      → keyed n (from_counts f g oldest daily counts m) ≡ (keyed n counts || keyed n m)
  unfolding from_counts
  from_counts-keyed n oldest daily [] m = refl
  from_counts-keyed n oldest daily ((q, c) ∷ counts) m =
      rw (from_counts-keyed n oldest (without q daily) counts, keyed-insert) (ground arith)

  pub from_counts-Ascends :
      (oldest : List (ℕ × Option ℕ)) (daily : List (ℕ × List ℕ)) (counts : List (ℕ × OverviewRow))
      (m : List (ℕ × QueueInfo f.F))
      → Ascends 0 m
      → Ascends 0 (from_counts f g oldest daily counts m)
  unfolding from_counts
  from_counts-Ascends oldest daily [] m a = a
  from_counts-Ascends oldest daily ((q, c) ∷ counts) m a =
      from_counts-Ascends oldest (without q daily) counts
        (insert q (queue_info f g oldest daily (q, c)) m) (insert-Ascends 0 q _ m (omega arith) a)

  pub add_worker-keyed :
      (n q w : ℕ) (m : List (ℕ × QueueInfo f.F))
      → keyed n (add_worker f g q w m) ≡ (q == n || keyed n m)
  unfolding add_worker
  add_worker-keyed n q w [] = refl
  add_worker-keyed n q w ((k, i) ∷ m) = ground (arith, add_worker-keyed n q w m)

  pub add_worker-Ascends :
      (lo q w : ℕ) (m : List (ℕ × QueueInfo f.F))
      → lo ≤ q
      → Ascends lo m
      → Ascends lo (add_worker f g q w m)
  unfolding add_worker
  add_worker-Ascends lo q w [] l a = (l, tt)
  add_worker-Ascends lo q w ((k, i) ∷ m) l a =
      ground (arith, λ (p : suc k ≤ q). add_worker-Ascends (suc k) q w m p a.1)

  pub add_workers-keyed :
      (n : ℕ) (rows : List (ℕ × ℕ)) (m : List (ℕ × QueueInfo f.F))
      → keyed n (add_workers f g rows m) ≡ (any (λ p. p.1 == n) rows || keyed n m)
  unfolding add_workers
  add_workers-keyed n [] m = refl
  add_workers-keyed n ((w, q) ∷ rows) m =
      rw (add_workers-keyed n rows, add_worker-keyed) (ground arith)

  pub add_workers-Ascends :
      (rows : List (ℕ × ℕ)) (m : List (ℕ × QueueInfo f.F))
      → Ascends 0 m
      → Ascends 0 (add_workers f g rows m)
  unfolding add_workers
  add_workers-Ascends [] m a = a
  add_workers-Ascends ((w, q) ∷ rows) m a =
      add_workers-Ascends rows (add_worker f g q w m) (add_worker-Ascends 0 q w m (omega arith) a)

  All-insert :
      (P : ℕ × QueueInfo f.F → Type 0) (q : ℕ) (i : QueueInfo f.F) (m : List (ℕ × QueueInfo f.F))
      → P (q, i)
      → All P m
      → All P (insert q i m)
  unfolding insert
  All-insert P q i [] e h = (e, tt)
  All-insert P q i ((k, j) ∷ m) e h = elim (Bool-cases (ltb q k)) [
    | inl l ↦ rw l (e, h)
    | inr l ↦ elim (Bool-cases (q == k)) [
      | inl s ↦ rw (l, s) (e, h.1)
      | inr s ↦ rw (l, s) (h.0, All-insert P q i m e h.1)
    ]
  ]

  -- The entries that the counts make.
  pub from_counts-All :
      (P : ℕ × QueueInfo f.F → Type 0) (oldest : List (ℕ × Option ℕ)) (daily : List (ℕ × List ℕ))
      (counts : List (ℕ × OverviewRow)) (m : List (ℕ × QueueInfo f.F))
      → All
          (λ c. (days : List (ℕ × List ℕ)) → P (c.0, queue_info f g oldest days (c.0, c.1)))
          counts
      → All P m
      → All P (from_counts f g oldest daily counts m)
  unfolding from_counts
  from_counts-All P oldest daily [] m made h = h
  from_counts-All P oldest daily ((q, c) ∷ counts) m made h =
      from_counts-All P oldest (without q daily) counts _ made.1
        (All-insert P q (queue_info f g oldest daily (q, c)) m (made.0 daily) h)

  -- A name below all those in the map.
  below-keyed :
      (lo q : ℕ) (m : List (ℕ × QueueInfo f.F)) → q < lo → Ascends lo m → keyed q m ≡ false
  below-keyed lo q [] l a = refl
  below-keyed lo q ((k, i) ∷ m) l a =
      let rest = below-keyed (suc k) q m (omega arith) a.1 in ground (arith, rest)

  module _ (P Q : ℕ × QueueInfo f.F → Type 0) (q w : ℕ)
      (same : (i : QueueInfo f.F) → P (q, i) → Q (q, push_worker f g w i))
      (other : (k : ℕ) (i : QueueInfo f.F) → (k == q) ≡ false → P (k, i) → Q (k, i)) where
    others : (lo : ℕ) (m : List (ℕ × QueueInfo f.F)) → q < lo → Ascends lo m → All P m → All Q m
    others lo [] l a h = tt
    others lo ((k, i) ∷ m) l a h =
        (other k i (ground arith) h.0, others (suc k) m (omega arith) a.1 h.1)

    -- What becomes of each entry when a worker is added.
    pub add_worker-All :
        (lo : ℕ) (m : List (ℕ × QueueInfo f.F))
        → (keyed q m ≡ false → Q (q, push_worker f g w (new_queue f g q)))
        → Ascends lo m
        → All P m
        → All Q (add_worker f g q w m)
    unfolding add_worker
    add_worker-All lo [] fresh a h = (fresh refl, tt)
    add_worker-All lo ((k, i) ∷ m) fresh a h = elim (Bool-cases (ltb q k)) [
      | inl l ↦
          let far = below-keyed (suc k) q m (ground arith) a.1 in
          rw l (
            fresh (ground (arith, far)),
            (other k i (ground arith) h.0, others (suc k) m (ground arith) a.1 h.1),
          )
      | inr l ↦ elim (Bool-cases (q == k)) [
        | inl s ↦
            let e : q ≡ k = ground arith in
            rw (l, s)
              (
                subst (λ x. Q (x, push_worker f g w i)) e
                    (same i (subst (λ x. P (x, i)) (sym e) h.0)),
                others (suc k) m (ground arith) a.1 h.1,
              )
        | inr s ↦
            let ne : (k == q) ≡ false = ground arith in
            rw (l, s)
              (
                other k i ne h.0,
                add_worker-All (suc k) m (λ none_left. fresh (rw (ne, none_left) refl)) a.1 h.1,
              )
      ]
    ]
