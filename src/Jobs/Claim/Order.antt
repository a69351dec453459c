-- ===== src/Jobs/Claim/Order.antt =====
-- The `ORDER BY` and `LIMIT` of a claim.
use mathlib.Core.List.{Memᴰ}
use apalis_surrealdb.Prelude.{
  ℕ, zero, suc, ◌≡◌, Bool, true, false, List, [], ◌∷◌, All, All-mem, All-imp, Bool-cases, inl, inr,
  arith, filter, take, length, min, length-take, refl, sym, ap, ◌∙◌,
}
use apalis_surrealdb.Prelude.Int.{ℤ, ltb_ℤ}
use apalis_surrealdb.Database.{JobRow, RecordIdKey, id_leb, same_id_iff}
use apalis_surrealdb.Jobs.Claim.Due.{All-insert_row}
use apalis_surrealdb.Jobs.Claim.{ahead, insert_row, order_rows, due_rows, among}

ltb_ℤ_trans : (a b c : ℤ) → ltb_ℤ a b ≡ false → ltb_ℤ b c ≡ false → ltb_ℤ a c ≡ false
ltb_ℤ_trans a b c h k = ground arith

pub id_leb_trans : (a b c : RecordIdKey) → id_leb a b ≡ true → id_leb b c ≡ true → id_leb a c ≡ true
id_leb_trans a b c h k = ground arith

pub id_leb_total : (a b : RecordIdKey) → id_leb a b ≡ false → id_leb b a ≡ true
id_leb_total a b h = ground arith

pub ahead_total : (a b : JobRow) → ahead a b ≡ false → ahead b a ≡ true
unfolding ahead
ahead_total a b h = ground (arith, id_leb_total a.id b.id)

pub ahead_trans : (a b c : JobRow) → ahead a b ≡ true → ahead b c ≡ true → ahead a c ≡ true
unfolding ahead
ahead_trans a b c h k = ground (arith, id_leb_trans a.id b.id c.id)

abbrev IsSorted : List JobRow → Type 0
IsSorted [] = Unit
IsSorted (r ∷ rs) = All (λ s. ahead r s ≡ true) rs × IsSorted rs

insert_row-IsSorted :
    (a : JobRow) (rows : List JobRow) → IsSorted rows → IsSorted (insert_row a rows)
unfolding insert_row
insert_row-IsSorted a [] h = (tt, tt)
insert_row-IsSorted a (b ∷ bs) h = elim (Bool-cases (ahead a b)) [
  | inl e ↦ rw e ((e, All-imp _ _ bs (λ c k. ahead_trans a b c e k) h.0), h)
  | inr e ↦ rw e (
    All-insert_row (λ c. ahead b c ≡ true) a bs (ahead_total a b e) h.0,
    insert_row-IsSorted a bs h.1,
  )
]

order_rows-IsSorted : (rows : List JobRow) → IsSorted (order_rows rows)
unfolding order_rows
order_rows-IsSorted [] = tt
order_rows-IsSorted (r ∷ rs) = insert_row-IsSorted r (order_rows rs) (order_rows-IsSorted rs)

mem-insert_row :
    (a : JobRow) (rows : List JobRow) {b : JobRow} → Memᴰ b (a ∷ rows) → Memᴰ b (insert_row a rows)
unfolding insert_row
mem-insert_row a [] m = m
mem-insert_row a (c ∷ cs) (Memᴰ.head e) = elim (Bool-cases (ahead a c)) [
  | inl y ↦ rw y (Memᴰ.head e)
  | inr y ↦ rw y (Memᴰ.tail (mem-insert_row a cs (Memᴰ.head e)))
]
mem-insert_row a (c ∷ cs) (Memᴰ.tail (Memᴰ.head e)) = elim (Bool-cases (ahead a c)) [
  | inl y ↦ rw y (Memᴰ.tail (Memᴰ.head e))
  | inr y ↦ rw y (Memᴰ.head e)
]
mem-insert_row a (c ∷ cs) (Memᴰ.tail (Memᴰ.tail m)) = elim (Bool-cases (ahead a c)) [
  | inl y ↦ rw y (Memᴰ.tail (Memᴰ.tail m))
  | inr y ↦ rw y (Memᴰ.tail (mem-insert_row a cs (Memᴰ.tail m)))
]

mem-order_rows : (rows : List JobRow) {b : JobRow} → Memᴰ b rows → Memᴰ b (order_rows rows)
unfolding order_rows
mem-order_rows [] m = m
mem-order_rows (r ∷ rs) (Memᴰ.head e) = mem-insert_row r (order_rows rs) (Memᴰ.head e)
mem-order_rows (r ∷ rs) (Memᴰ.tail m) =
    mem-insert_row r (order_rows rs) (Memᴰ.tail (mem-order_rows rs m))

mem-filter :
    (p : JobRow → Bool) (rows : List JobRow) {b : JobRow}
    → Memᴰ b rows
    → p b ≡ true
    → Memᴰ b (filter p rows)
mem-filter p [] m e = m
mem-filter p (r ∷ rs) (Memᴰ.head q) e =
    let here : p r ≡ true = ap p (sym q) ∙ e in rw here (Memᴰ.head q)
mem-filter p (r ∷ rs) (Memᴰ.tail m) e = elim (Bool-cases (p r)) [
  | inl y ↦ rw y (Memᴰ.tail (mem-filter p rs m e))
  | inr y ↦ rw y (mem-filter p rs m e)
]

-- Behind a prefix of a sorted list nothing stands ahead of it.
take-ahead :
    (n : ℕ) (rows : List JobRow) {a b : JobRow}
    → IsSorted rows
    → Memᴰ a (take n rows)
    → Memᴰ b rows
    → among (take n rows) b ≡ false
    → ahead a b ≡ true
take-ahead zero rows s m k o = elim m [ ]
take-ahead (suc n) [] s m k o = elim m [ ]
take-ahead (suc n) (r ∷ rs) {a} {b} s m (Memᴰ.head q) o =
    absurd (ground (arith, same_id_iff r.id b.id, ap (λ (z : JobRow). z.id) q))
take-ahead (suc n) (r ∷ rs) {a} {b} s (Memᴰ.head p) (Memᴰ.tail k) o =
    ap (λ z. ahead z b) p ∙ All-mem _ rs s.0 k
take-ahead (suc n) (r ∷ rs) s (Memᴰ.tail m) (Memᴰ.tail k) o = take-ahead n rs s.1 m k (ground arith)

-- A prefix that leaves out an element is as long as it may be.
take-full :
    (n : ℕ) (rows : List JobRow) {b : JobRow}
    → Memᴰ b rows
    → among (take n rows) b ≡ false
    → length (take n rows) ≡ n
take-full zero rows m o = refl
take-full (suc n) [] m o = elim m [ ]
take-full (suc n) (r ∷ rs) {b} (Memᴰ.head q) o =
    absurd (ground (arith, same_id_iff r.id b.id, ap (λ (z : JobRow). z.id) q))
take-full (suc n) (r ∷ rs) (Memᴰ.tail m) o = ap suc (take-full n rs m (ground arith))

module _ (p : JobRow → Bool) (limit : ℕ) (jobs : List JobRow) where
  -- If a row that passes the test is left out, as many as the limit are chosen.
  pub due_rows-full :
      (b : JobRow)
      → Memᴰ b jobs
      → p b ≡ true
      → among (due_rows p limit jobs) b ≡ false
      → length (due_rows p limit jobs) ≡ limit
  unfolding due_rows
  due_rows-full b k e o =
      take-full limit (order_rows (filter p jobs))
        (mem-order_rows (filter p jobs) (mem-filter p jobs k e)) o

  -- No row that passes the test and is left out stands ahead of a chosen one.
  pub due_rows-ahead :
      (a b : JobRow)
      → Memᴰ a (due_rows p limit jobs)
      → Memᴰ b jobs
      → p b ≡ true
      → among (due_rows p limit jobs) b ≡ false
      → ahead a b ≡ true
  unfolding due_rows
  due_rows-ahead a b m k e o =
      take-ahead limit (order_rows (filter p jobs)) (order_rows-IsSorted (filter p jobs)) m
        (mem-order_rows (filter p jobs) (mem-filter p jobs k e)) o

  length-insert_row :
      (a : JobRow) (rows : List JobRow) → length (insert_row a rows) ≡ suc (length rows)
  unfolding insert_row
  length-insert_row a [] = refl
  length-insert_row a (b ∷ bs) = ground (arith, length-insert_row a bs)

  length-order_rows : (rows : List JobRow) → length (order_rows rows) ≡ length rows
  unfolding order_rows
  length-order_rows [] = refl
  length-order_rows (r ∷ rs) =
      omega (arith, length-insert_row r (order_rows rs), length-order_rows rs)

  -- As many rows are chosen as pass the test, up to the limit.
  pub length-due_rows : length (due_rows p limit jobs) ≡ min limit (length (filter p jobs))
  unfolding due_rows
  length-due_rows =
      length-take limit (order_rows (filter p jobs))
      ∙ ap (min limit) (length-order_rows (filter p jobs))
