-- ===== src/Jobs/Claim/Reordered.antt =====
-- The `ORDER BY` of a claim does not depend on the order of the table.
use mathlib.Core.List.{Permᴰ}
use apalis_surrealdb.Prelude.{
  ℕ, ◌≡◌, refl, ap, ◌∙◌, Bool, true, false, List, [], ◌∷◌, take, filter-perm, Apart, Apart-perm,
  Apart-filter, Bool-cases, inl, inr, arith,
}
use apalis_surrealdb.Database.{JobRow, RecordIdKey, id_leb, same_id}
use apalis_surrealdb.Jobs.Claim.{ahead, insert_row, order_rows, due_rows}
use apalis_surrealdb.Jobs.Claim.Order.{ahead_total, ahead_trans}

id_leb_antisym : (a b : RecordIdKey) → id_leb a b ≡ true → id_leb b a ≡ true → same_id a b ≡ true
id_leb_antisym a b h k = ground arith

-- Two rows with different ids do not both stand ahead of each other.
ahead_antisym : (a b : JobRow) → same_id a.id b.id ≡ false → ahead a b ≡ true → ahead b a ≡ false
unfolding ahead
ahead_antisym a b n h = ground (arith, id_leb_antisym a.id b.id)

abbrev pub same_row : JobRow → JobRow → Bool
same_row a b = same_id a.id b.id

same_row_sym : (a b : JobRow) → same_row a b ≡ same_row b a
same_row_sym a b = ground arith

-- What does not stand ahead of `c` does not stand ahead of what does.
not_behind : (a b c : JobRow) → ahead a c ≡ false → ahead b c ≡ true → ahead a b ≡ false
not_behind a b c n h = elim (Bool-cases (ahead a b)) [
  | inl t ↦ let u = ahead_trans a b c t h in absurd (cc)
  | inr f ↦ f
]

-- A row that is inserted where `a` stands ahead of its first row, or not.
insert_row-insert_row :
    (a b : JobRow) (rows : List JobRow)
    → same_row a b ≡ false
    → insert_row a (insert_row b rows) ≡ insert_row b (insert_row a rows)
unfolding insert_row
insert_row-insert_row a b [] n = elim (Bool-cases (ahead a b)) [
  | inl h ↦ let k = ahead_antisym a b n h in rw (h, k) refl
  | inr h ↦ let k = ahead_total a b h in rw (h, k) refl
]
insert_row-insert_row a b (c ∷ cs) n =
    let rest = insert_row-insert_row a b cs n in
    elim (Bool-cases (ahead a c)) [
      | inl ac ↦ elim (Bool-cases (ahead b c)) [
        | inl bc ↦ elim (Bool-cases (ahead a b)) [
          | inl h ↦ let k = ahead_antisym a b n h in rw (ac, bc, h, k) refl
          | inr h ↦ let k = ahead_total a b h in rw (ac, bc, h, k, ac) refl
        ]
        | inr bc ↦ let k = not_behind b a c bc ac in rw (ac, bc, k, ac) refl
      ]
      | inr ac ↦ elim (Bool-cases (ahead b c)) [
        | inl bc ↦ let k = not_behind a b c ac bc in rw (ac, bc, k, ac) refl
        | inr bc ↦ rw (ac, bc, ac) (ap (λ l. c ∷ l) rest)
      ]
    ]

order_rows-perm :
    {xs ys : List JobRow} → Permᴰ xs ys → Apart same_row xs → order_rows xs ≡ order_rows ys
unfolding order_rows
order_rows-perm Permᴰ.nil h = refl
order_rows-perm (Permᴰ.cons {a = x} {b = y} {l₂ = ys} e p) h =
    ap (insert_row x) (order_rows-perm p h.1) ∙ ap (λ z. insert_row z (order_rows ys)) e
order_rows-perm (Permᴰ.swap {a = x} {b = y} {a' = u} {b' = v} {l = l} e d) h =
    insert_row-insert_row x y (order_rows l) h.0.0
    ∙ ap (λ z. insert_row z (insert_row x (order_rows l))) d
    ∙ ap (λ z. insert_row u (insert_row z (order_rows l))) e
order_rows-perm (Permᴰ.trans p q) h =
    order_rows-perm p h ∙ order_rows-perm q (Apart-perm same_row same_row_sym p h)

-- Nor does the choice of the rows.
pub due_rows-perm :
    (p : JobRow → Bool) (limit : ℕ) {xs ys : List JobRow}
    → Permᴰ xs ys
    → Apart same_row xs
    → due_rows p limit xs ≡ due_rows p limit ys
unfolding due_rows
due_rows-perm p limit q h =
    ap (take limit) (order_rows-perm (filter-perm p q) (Apart-filter same_row p _ h))
