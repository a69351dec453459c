-- ===== src/Session/Bind.antt =====
-- A chain of queries, after its first step succeeded or failed.
use apalis_surrealdb.Prelude.{◌≡◌, refl, sym, ap, ◌∙◌}
use apalis_surrealdb.Database.{SurrealError}
use apalis_surrealdb.Session.{Result, ok, err, World, Session, ◌>>=◌}

-- What a step leads to.
abbrev continue : {A B : Type 0} → (A → Session B) → Result A × World → Result B × World
continue f (ok a, w) = f a w
continue f (err e, w) = (err e, w)

continue-eq :
    {A B : Type 0} (f : A → Session B) (r : Result A) (w : World)
    → continue f (r, w) ≡ (elim r [ ok a ↦ f a w | err e ↦ (err e, w) ])
continue-eq f (ok a) w = refl
continue-eq f (err e) w = refl

module _ {A B : Type 0} (m : Session A) (f : A → Session B) (w : World) where
  >>=-continue : (m >>= f) w ≡ continue f (m w)
  >>=-continue = sym (continue-eq f (m w).0 (m w).1)

  pub >>=-ok : {a : A} {w' : World} → m w ≡ (ok a, w') → (m >>= f) w ≡ f a w'
  >>=-ok h = >>=-continue ∙ ap (continue f) h

  pub >>=-err : {e : SurrealError} {w' : World} → m w ≡ (err e, w') → (m >>= f) w ≡ (err e, w')
  >>=-err h = >>=-continue ∙ ap (continue f) h
