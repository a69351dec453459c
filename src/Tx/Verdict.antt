-- ===== src/Tx/Verdict.antt =====
-- What `classify_tx_errors` decides, against a description over the unordered error set.
use apalis_surrealdb.Prelude.{
  ℕ, suc, ◌≤◌, ◌≡◌, refl, ◌≢◌, Bool, true, not, ◌&&◌, Option, none, some, List, [], ◌∷◌, ◌||◌,
  is_some, arith, ltb, if◌then◌else◌, inl, inr, Option-cases,
}
use apalis_surrealdb.Database.{DbError}
use apalis_surrealdb.Tx.{
  TxOutcome, retry, fail, is_conflict, is_not_executed, insert, collect, Firsts, note, scan, decide,
  classify_tx_errors,
}
use apalis_surrealdb.Tx.Slots.{
  Fresh, Distinct, Ascends, collect-insert, collect-Fresh, collect-Ascends,
}

-- The description: of the errors that pass a test, the one at the lowest slot.
abbrev nearer : ℕ → DbError → Option (ℕ × DbError) → Option (ℕ × DbError)
nearer k e none = some (k, e)
nearer k e (some (j, d)) = if ltb j k then some (j, d) else some (k, e)

pub lowest : (DbError → Bool) → List (ℕ × DbError) → Option (ℕ × DbError)
lowest p [] = none
lowest p ((k, e) ∷ es) = let rest = lowest p es in if p e then nearer k e rest else rest

abbrev pub error_of : Option (ℕ × DbError) → Option DbError
error_of none = none
error_of (some (k, e)) = some e

-- Neither a conflict nor the noise of a sibling statement.
abbrev pub is_real : DbError → Bool
is_real e = not (is_conflict e) && not (is_not_executed e)

abbrev pub is_noise : DbError → Bool
is_noise e = not (is_conflict e) && is_not_executed e

-- A real error fails; a conflict without one retries; a not-executed error without either fails.
abbrev pub preferred : Option DbError → Option DbError → Option DbError → Option TxOutcome
preferred real conflict noise = elim real [
  | some e ↦ some (fail e)
  | none ↦ elim conflict [
    | some e ↦ some (retry e)
    | none ↦ elim noise [ some e ↦ some (fail e) | none ↦ none ]
  ]
]

unfoldable pub verdict : List (ℕ × DbError) → Option TxOutcome
verdict errors =
    preferred (error_of (lowest is_real errors)) (error_of (lowest is_conflict errors))
      (error_of (lowest is_noise errors))

decide-preferred :
    (real conflict noise : Option DbError)
    → decide real conflict noise ≡ preferred real conflict noise
decide-preferred (some e) conflict noise = refl
decide-preferred none (some e) noise = refl
decide-preferred none none (some e) = refl
decide-preferred none none none = refl

-- The first error of an ordered map that passes a test.
first : (DbError → Bool) → List (ℕ × DbError) → Option (ℕ × DbError)
first p [] = none
first p ((k, e) ∷ es) = let rest = first p es in if p e then some (k, e) else rest

first-ge :
    (p : DbError → Bool) (lo : ℕ) (m : List (ℕ × DbError)) (j : ℕ) (d : DbError)
    → Ascends lo m
    → first p m ≡ some (j, d)
    → lo ≤ j
unfolding first
first-ge p lo [] j d a e = absurd (ground arith)
first-ge p lo ((k, e) ∷ m) j d a h = ground (arith, first-ge p (suc k) m j d a.1)

first-insert :
    (p : DbError → Bool) (lo k : ℕ) (e : DbError) (m : List (ℕ × DbError))
    → Ascends lo m
    → Fresh k m
    → first p (insert k e m) ≡ (if p e then nearer k e (first p m) else first p m)
unfolding first insert
first-insert p lo k e [] a f = refl
first-insert p lo k e ((j, d) ∷ m) a f =
    let ih = first-insert p (suc j) k e m a.1 f.1 in
    elim (Option-cases (first p m)) [
      | inl none_left ↦ ground arith
      | inr (x, found) ↦ ground (arith, first-ge p (suc j) m x.0 x.1 a.1)
    ]

first-collect :
    (p : DbError → Bool) (xs : List (ℕ × DbError))
    → Distinct xs
    → first p (collect [] xs) ≡ lowest p xs
unfolding lowest first collect
first-collect p [] d = refl
first-collect p ((k, e) ∷ xs) d = rw (collect-insert k e [] xs d.0) (
    rw
      (first-insert p 0 k e (collect [] xs) (collect-Ascends [] xs tt)
        (collect-Fresh k [] xs tt d.0))
      (rw (first-collect p xs d.1)))

abbrev or_else : Option DbError → Option DbError → Option DbError
or_else none o = o
or_else (some e) o = some e

record Scanned (s : Firsts) (m : List (ℕ × DbError)) : Type 0 where
  conflict : (scan s m).conflict ≡ or_else s.conflict (error_of (first is_conflict m))
  real : (scan s m).real ≡ or_else s.real (error_of (first is_real m))
  not_executed : (scan s m).not_executed ≡ or_else s.not_executed (error_of (first is_noise m))

scan-Scanned : (s : Firsts) (m : List (ℕ × DbError)) → Scanned s m
unfolding scan first note
scan-Scanned s [] = ground arith
scan-Scanned s ((k, e) ∷ m) = let ih = scan-Scanned (note s e) m in ground arith

-- For errors at distinct slots, whatever the order in which the map yields them, the outcome is the
-- described one: the real error at the lowest slot fails the operation; with no real error, the
-- conflict at the lowest slot retries it; with neither, the lowest not-executed error fails it; and
-- no error is no outcome.
pub classify_tx_errors-eq-verdict :
    (errors : List (ℕ × DbError)) → Distinct errors → classify_tx_errors errors ≡ verdict errors
unfolding classify_tx_errors verdict
classify_tx_errors-eq-verdict [] d = unfold lowest in refl
classify_tx_errors-eq-verdict (x ∷ xs) d =
    let start : Firsts = record { conflict = none; real = none; not_executed = none } in
    let seen = scan-Scanned start (collect [] (x ∷ xs)) in
    rw
      (
        seen.conflict,
        seen.real,
        seen.not_executed,
        first-collect is_real (x ∷ xs) d,
        first-collect is_conflict (x ∷ xs) d,
        first-collect is_noise (x ∷ xs) d,
      )
      (decide-preferred (error_of (lowest is_real (x ∷ xs)))
        (error_of (lowest is_conflict (x ∷ xs))) (error_of (lowest is_noise (x ∷ xs))))

abbrev noted : Firsts → Bool
noted s = is_some s.conflict || is_some s.real || is_some s.not_executed

scan-noted : (s : Firsts) (m : List (ℕ × DbError)) → noted s ≡ true → noted (scan s m) ≡ true
unfolding scan note
scan-noted s [] h = h
scan-noted s ((k, e) ∷ m) h = ground (arith, scan-noted (note s e) m)

note-noted : (s : Firsts) (e : DbError) → noted (note s e) ≡ true
unfolding note
note-noted s e = ground arith

collect-ne-nil :
    (acc : List (ℕ × DbError)) (xs : List (ℕ × DbError)) → acc ≢ [] → collect acc xs ≢ []
unfolding collect
collect-ne-nil acc [] h = h
collect-ne-nil acc ((k, e) ∷ xs) h =
    collect-ne-nil (insert k e acc) xs (unfold insert in ground arith)

scan_marks : (s : Firsts) (m : List (ℕ × DbError)) → m ≢ [] → noted (scan s m) ≡ true
unfolding scan
scan_marks s [] h = absurd (h refl)
scan_marks s ((k, e) ∷ m) h = scan-noted (note s e) m (note-noted s e)

-- An error set with no outcome is empty, so an attempt that the loops take for a success had none.
pub classify_tx_errors-none :
    (errors : List (ℕ × DbError)) → classify_tx_errors errors ≡ none → errors ≡ []
unfolding classify_tx_errors collect
classify_tx_errors-none [] h = refl
classify_tx_errors-none ((k, e) ∷ xs) h =
    let start : Firsts = record { conflict = none; real = none; not_executed = none } in
    let found =
      scan_marks start (collect (insert k e []) xs)
        (collect-ne-nil (insert k e []) xs (unfold insert in ground arith)) in
    ground arith

pub classify_tx_errors-nil : classify_tx_errors [] ≡ none
unfolding classify_tx_errors
classify_tx_errors-nil = refl
