-- ===== src/Tx/Slots.antt =====
-- The ordered map of slots: what building it from an unordered set of errors gives.
use apalis_surrealdb.Prelude.{ℕ, suc, ◌≤◌, ◌≡◌, refl, ap, ◌∙◌, ◌≢◌, List, [], ◌∷◌, arith, All}
use apalis_surrealdb.Tx.{insert, collect}

module _ {A : Type 0} where
  -- No error stands at slot `k`; no two errors share a slot, as in a `HashMap`.
  abbrev pub Fresh : ℕ → List (ℕ × A) → Type 0
  Fresh k = All (λ x. x.0 ≢ k)

  abbrev pub Distinct : List (ℕ × A) → Type 0
  Distinct [] = Unit
  Distinct ((k, v) ∷ xs) = Fresh k xs × Distinct xs

  -- The slots increase, from `lo` on.
  abbrev pub Ascends : ℕ → List (ℕ × A) → Type 0
  Ascends lo [] = Unit
  Ascends lo ((k, v) ∷ m) = (lo ≤ k) × Ascends (suc k) m

  -- Insertions at two slots commute.
  pub insert_comm :
      (j k : ℕ) (v w : A) (m : List (ℕ × A))
      → j ≢ k
      → insert j v (insert k w m) ≡ insert k w (insert j v m)
  unfolding insert
  insert_comm j k v w [] h = ground arith
  insert_comm j k v w ((i, u) ∷ m) h = ground (arith, insert_comm j k v w m h)

  pub collect-insert :
      (k : ℕ) (v : A) (acc xs : List (ℕ × A))
      → Fresh k xs
      → collect (insert k v acc) xs ≡ insert k v (collect acc xs)
  unfolding collect
  collect-insert k v acc [] h = refl
  collect-insert k v acc ((j, w) ∷ xs) h =
      ap (λ m. collect m xs) (insert_comm j k w v acc h.0)
      ∙ collect-insert k v (insert j w acc) xs h.1

  pub insert-Fresh :
      (k j : ℕ) (v : A) (m : List (ℕ × A)) → j ≢ k → Fresh k m → Fresh k (insert j v m)
  unfolding insert
  insert-Fresh k j v [] n h = (n, tt)
  insert-Fresh k j v ((i, w) ∷ m) n h = ground (arith, insert-Fresh k j v m n h.1)

  pub collect-Fresh :
      (k : ℕ) (acc xs : List (ℕ × A)) → Fresh k acc → Fresh k xs → Fresh k (collect acc xs)
  unfolding collect
  collect-Fresh k acc [] a h = a
  collect-Fresh k acc ((j, w) ∷ xs) a h =
      collect-Fresh k (insert j w acc) xs (insert-Fresh k j w acc h.0 a) h.1

  pub insert-Ascends :
      (lo k : ℕ) (v : A) (m : List (ℕ × A)) → lo ≤ k → Ascends lo m → Ascends lo (insert k v m)
  unfolding insert
  insert-Ascends lo k v [] l h = (l, tt)
  insert-Ascends lo k v ((j, w) ∷ m) l h =
      ground (arith, λ (p : suc j ≤ k). insert-Ascends (suc j) k v m p h.1)

  pub collect-Ascends : (acc xs : List (ℕ × A)) → Ascends 0 acc → Ascends 0 (collect acc xs)
  unfolding collect
  collect-Ascends acc [] a = a
  collect-Ascends acc ((j, w) ∷ xs) a =
      collect-Ascends (insert j w acc) xs (insert-Ascends 0 j w acc (omega arith) a)
