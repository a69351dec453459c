-- ===== src/Setup/Tests.antt =====
-- A setup that fails in the middle, and one after it.
use apalis_surrealdb.Prelude.{◌≡◌, refl, none, some, [], ◌∷◌, ◌⊎◌, true}
use apalis_surrealdb.Database.{database}
use apalis_surrealdb.Session.{ok, err, answered}
use apalis_surrealdb.Samples.{refusal}
use apalis_surrealdb.Setup.{Catalog, schema, broken, each, setup}
use apalis_surrealdb.Setup.Defined.{SetUp, failed, setup-SetUp}

abbrev fresh : Catalog
fresh = record { definitions = []; version = none }

abbrev full : Catalog
full = record { definitions = schema; version = some 1 }

-- The connection breaks after two statements.
half :
    setup (broken 2 (λ s. none) refusal) (answered []) fresh
    ≡ (err (database refusal), record { definitions = 0 ∷ 1 ∷ []; version = none })
unfolding setup
half = refl

whole :
    setup (each (λ s. none)) (answered []) (record { definitions = 0 ∷ 1 ∷ []; version = none })
    ≡ (ok tt, full)
unfolding setup
whole = refl

setup-SetUp_example :
    SetUp fresh (ok tt) full
    × ((failed (ok tt) ≡ true)
        ⊎ ((setup (broken 2 (λ s. none) refusal) (answered []) full).1 ≡ full))
unfolding setup
setup-SetUp_example =
    setup-SetUp (each (λ s. none)) (broken 2 (λ s. none) refusal) (answered []) (answered []) fresh
