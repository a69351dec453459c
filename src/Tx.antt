-- ===== src/Tx.antt =====
-- src/queries/mod.rs: how the error set of one transaction attempt is classified.
pub mod Slots
pub mod Verdict
pub mod Order
mod Tests
use Prim.Native.String.{String}
use text.Mathlib.Text.{find?}
use apalis_surrealdb.Prelude.{
  ℕ, Bool, true, false, ◌||◌, Option, none, some, List, [], ◌∷◌, ltb, ◌==◌, if◌then◌else◌, is_empty,
  is_some,
}
use apalis_surrealdb.Database.{QueryError, transaction_conflict, not_executed, DbError}

-- `pub(crate) const MAX_TX_RETRIES: usize = 5`
abbrev pub max_tx_retries : ℕ
max_tx_retries = 5

pub data TxOutcome : Type 0 where
  retry : DbError → TxOutcome
  fail : DbError → TxOutcome

abbrev is_transaction_conflict : Option QueryError → Bool
is_transaction_conflict (some transaction_conflict) = true
is_transaction_conflict _ = false

abbrev is_not_executed_details : Option QueryError → Bool
is_not_executed_details (some not_executed) = true
is_not_executed_details _ = false

abbrev contains : String → String → Bool
contains s t = is_some (find? s t)

unfoldable pub is_conflict : DbError → Bool
is_conflict e = is_transaction_conflict e.query_details || contains e.message "Transaction conflict"

unfoldable pub is_not_executed : DbError → Bool
is_not_executed e = is_not_executed_details e.query_details

-- `BTreeMap::insert`, and `collect` from the pairs of the `HashMap` in its iteration order.
module _ {A : Type 0} where
  unfoldable pub insert : ℕ → A → List (ℕ × A) → List (ℕ × A)
  insert k v [] = (k, v) ∷ []
  insert k v ((j, w) ∷ m) =
      let rest = insert k v m in
      if ltb k j then (k, v) ∷ (j, w) ∷ m else if k == j then (k, v) ∷ m else (j, w) ∷ rest

  unfoldable pub collect : List (ℕ × A) → List (ℕ × A) → List (ℕ × A)
  collect acc [] = acc
  collect acc ((k, v) ∷ xs) = collect (insert k v acc) xs

-- The three variables of the loop.
pub record Firsts : Type 0 where
  pub conflict : Option DbError
  pub real : Option DbError
  pub not_executed : Option DbError

abbrev pub get_or_insert : Option DbError → DbError → Option DbError
get_or_insert none e = some e
get_or_insert (some d) e = some d

-- The body of the `for` loop, and the loop.
unfoldable pub note : Firsts → DbError → Firsts
note s e =
    if is_conflict e
    then record s { conflict = get_or_insert s.conflict e }
    else if is_not_executed e
    then record s { not_executed = get_or_insert s.not_executed e }
    else record s { real = get_or_insert s.real e }

unfoldable pub scan : Firsts → List (ℕ × DbError) → Firsts
scan s [] = s
scan s ((_, e) ∷ es) = scan (note s e) es

-- The `if let` ladder after the loop.
abbrev pub decide : Option DbError → Option DbError → Option DbError → Option TxOutcome
decide (some e) _ _ = some (fail e)
decide none (some e) _ = some (retry e)
decide none none (some e) = some (fail e)
decide none none none = none

unfoldable pub classify_tx_errors : List (ℕ × DbError) → Option TxOutcome
classify_tx_errors errors =
    if is_empty errors
    then none
    else let s =
        scan (record { conflict = none; real = none; not_executed = none }) (collect [] errors) in
      decide s.real s.conflict s.not_executed
