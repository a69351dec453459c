-- ===== src/Jobs/Lifecycle/Composed.antt =====
-- Histories one after the other, for the relation of Jobs/Lifecycle between tables.
use apalis_surrealdb.Prelude.{refl, sym, subst, ◌∙◌, List, [], ◌∷◌, ◌++◌}
use apalis_surrealdb.Database.{RecordIdKey, JobRow}
use apalis_surrealdb.Jobs.Commands.{Command}
use apalis_surrealdb.Jobs.Lifecycle.{
  Phase, phase, Trace, stay, idle, move, Leaves, vacuumed, rests, moves, Comes, pushed, later,
  Evolves, empty, keeps, leaves, comes,
}

Trace-idle : (id : RecordIdKey) (cs : List Command) (p : Phase) → Trace id cs p p
Trace-idle id [] p = stay
Trace-idle id (c ∷ cs) p = idle (Trace-idle id cs p)

pub Evolves-idle : (cs : List Command) (rs : List JobRow) → Evolves cs rs rs
Evolves-idle cs [] = empty
Evolves-idle cs (r ∷ rs) = keeps refl (Trace-idle r.id cs (phase r)) (Evolves-idle cs rs)

module _ (ds : List Command) where
  Trace-append :
      {id : RecordIdKey} {cs : List Command} {p q r : Phase}
      → Trace id cs p q
      → Trace id ds q r
      → Trace id (cs ++ ds) p r
  Trace-append stay t = t
  Trace-append (idle s) t = idle (Trace-append s t)
  Trace-append (move m s) t = move m (Trace-append s t)

  Trace-Leaves :
      {id : RecordIdKey} {cs : List Command} {p q : Phase}
      → Trace id cs p q
      → Leaves id ds q
      → Leaves id (cs ++ ds) p
  Trace-Leaves stay l = l
  Trace-Leaves (idle s) l = rests (Trace-Leaves s l)
  Trace-Leaves (move m s) l = moves m (Trace-Leaves s l)

  Leaves-append :
      {id : RecordIdKey} {cs : List Command} {p : Phase} → Leaves id cs p → Leaves id (cs ++ ds) p
  Leaves-append (vacuumed e) = vacuumed e
  Leaves-append (rests l) = rests (Leaves-append l)
  Leaves-append (moves m l) = moves m (Leaves-append l)

  Comes-Trace :
      {id : RecordIdKey} {cs : List Command} {p q : Phase}
      → Comes id cs p
      → Trace id ds p q
      → Comes id (cs ++ ds) q
  Comes-Trace (pushed x rows e s) t = pushed x rows e (Trace-append s t)
  Comes-Trace (later c) t = later (Comes-Trace c t)

  Comes-later :
      {id : RecordIdKey} (cs : List Command) {q : Phase} → Comes id ds q → Comes id (cs ++ ds) q
  Comes-later [] c = c
  Comes-later (_ ∷ cs) c = later (Comes-later cs c)

  Evolves-later :
      (cs : List Command) {ts : List JobRow} → Evolves ds [] ts → Evolves (cs ++ ds) [] ts
  Evolves-later cs empty = empty
  Evolves-later cs (comes c g) = comes (Comes-later cs c) (Evolves-later cs g)

  pub Evolves-trans :
      {cs : List Command} {rs ss ts : List JobRow}
      → Evolves cs rs ss
      → Evolves ds ss ts
      → Evolves (cs ++ ds) rs ts
  Evolves-trans {cs = cs} empty g = Evolves-later cs g
  Evolves-trans (leaves l f) g = leaves (Leaves-append l) (Evolves-trans f g)
  Evolves-trans (keeps i s f) (keeps {r = r} {r' = r'} j t g) =
      keeps (j ∙ i) (Trace-append s (subst (λ id. Trace id ds (phase r) (phase r')) i t))
        (Evolves-trans f g)
  Evolves-trans (keeps i s f) (leaves {r = r} l g) =
      leaves (Trace-Leaves s (subst (λ id. Leaves id ds (phase r)) i l)) (Evolves-trans f g)
  Evolves-trans {cs = cs} (comes {r' = r} c f) (keeps {r' = r'} j t g) =
      comes (subst (λ id. Comes id (cs ++ ds) (phase r')) (sym j) (Comes-Trace c t))
        (Evolves-trans f g)
  Evolves-trans (comes c f) (leaves l g) = Evolves-trans f g
