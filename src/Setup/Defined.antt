-- ===== src/Setup/Defined.antt =====
-- What `setup` of src/lib.rs leaves defined.
use apalis_surrealdb.Prelude.{
  ℕ, ◌≡◌, refl, sym, ap, ◌∙◌, subst, ◌⊎◌, Bool, true, false, Option, none, some, List, [], ◌∷◌, any,
  any-append, take, All, All-take, ◌==◌, Bool-cases, inl, inr, arith,
}
use apalis_surrealdb.Database.{DbError}
use apalis_surrealdb.Session.{Result, ok, err, Reply, lost, answered}
use apalis_surrealdb.Setup.{
  Catalog, schema, schema_version, ScriptReply, broken, each, define, define_unless, define_all,
  check_each, send_schema, send_version, then_version, setup,
}

abbrev pub has : List ℕ → ℕ → Bool
has ds d = any (λ x. x == d) ds

define-has : (d x : ℕ) (ds : List ℕ) → has ds x ≡ true → has (define d ds) x ≡ true
define-has d x ds h = elim (Bool-cases (any (λ y. y == d) ds)) [
  | inl t ↦ rw t h
  | inr f ↦ rw (f, any-append (λ y. y == x), h) refl
]

define-own : (d : ℕ) (ds : List ℕ) → has (define d ds) d ≡ true
define-own d ds = elim (Bool-cases (any (λ y. y == d) ds)) [
  | inl t ↦ rw (t, t) refl
  | inr f ↦
      let own : (d == d) ≡ true = ground arith in
      rw (f, any-append (λ y. y == d), own) (ground arith)
]

define_unless-has :
    (e : Option DbError) (d x : ℕ) (ds : List ℕ)
    → has ds x ≡ true
    → has (define_unless e d ds) x ≡ true
define_unless-has none d x ds h = define-has d x ds h
define_unless-has (some e) d x ds h = h

define_all-has :
    (errors : ℕ → Option DbError) (ss ds : List ℕ) (x : ℕ)
    → has ds x ≡ true
    → has (define_all errors ss ds) x ≡ true
define_all-has errors [] ds x h = h
define_all-has errors (s ∷ ss) ds x h =
    define_all-has errors ss (define_unless (errors s) s ds) x
      (define_unless-has (errors s) s x ds h)

-- `ds` after the statements `ss`.
abbrev Defines : (ℕ → Option DbError) → List ℕ → List ℕ → Type 0
Defines errors ss ds = All (λ d. has (define_all errors ss ds) d ≡ true) ss

checked_first :
    (errors : ℕ → Option DbError) (s : ℕ) (ss ds : List ℕ) (o : Option DbError)
    → errors s ≡ o
    → check_each errors (s ∷ ss) ≡ ok tt
    → ((ds : List ℕ) → check_each errors ss ≡ ok tt → Defines errors ss ds)
    → Defines errors (s ∷ ss) ds
checked_first errors s ss ds none e h rest =
    let h' = rw (check_each, e) at h in
    let same = ap (λ o. define_all errors ss (define_unless o s ds)) e in
    subst (λ l. All (λ d. has l d ≡ true) (s ∷ ss)) (sym same)
      (define_all-has errors ss (define s ds) s (define-own s ds), rest (define s ds) h')
checked_first errors s ss ds (some x) e h rest = let h' = rw (check_each, e) at h in absurd (cc)

-- A script without an error defines all.
checked-Defines :
    (errors : ℕ → Option DbError) (ss ds : List ℕ)
    → check_each errors ss ≡ ok tt
    → Defines errors ss ds
checked-Defines errors [] ds h = tt
checked-Defines errors (s ∷ ss) ds h =
    checked_first errors s ss ds (errors s) refl h (λ ds k. checked-Defines errors ss ds k)

-- Where all is defined, a script does nothing.
defined_stays :
    (errors : ℕ → Option DbError) (ss ds : List ℕ)
    → All (λ d. has ds d ≡ true) ss
    → define_all errors ss ds ≡ ds
defined_stays errors [] ds h = refl
defined_stays errors (s ∷ ss) ds (h, hs) = stays (errors s) refl (defined_stays errors ss ds hs)
  where
    stays :
        (o : Option DbError)
        → errors s ≡ o
        → define_all errors ss ds ≡ ds
        → define_all errors (s ∷ ss) ds ≡ ds
    stays none e k = rw (e, h) k
    stays (some x) e k = rw e k

-- All of the schema is defined.
abbrev pub Complete : Catalog → Type 0
Complete c = All (λ d. has c.definitions d ≡ true) schema

send_schema-has :
    (script : ScriptReply) (c : Catalog) (d : ℕ)
    → has c.definitions d ≡ true
    → has (send_schema script c).1.definitions d ≡ true
send_schema-has (broken n errors e) c d h = define_all-has errors (take n schema) c.definitions d h
send_schema-has (each errors) c d h = define_all-has errors schema c.definitions d h

send_schema-Complete :
    (script : ScriptReply) (c : Catalog)
    → (send_schema script c).0 ≡ ok tt
    → Complete (send_schema script c).1
send_schema-Complete (broken n errors e) c h = absurd (cc)
send_schema-Complete (each errors) c h = checked-Defines errors schema c.definitions h

send_schema-version :
    (script : ScriptReply) (c : Catalog) → (send_schema script c).1.version ≡ c.version
send_schema-version (broken n errors e) c = refl
send_schema-version (each errors) c = refl

send_schema_again : (script : ScriptReply) (c : Catalog) → Complete c → (send_schema script c).1 ≡ c
send_schema_again (broken n errors e) c h =
    ap (λ l. record c { definitions = l })
      (defined_stays errors (take n schema) c.definitions
        (All-take (λ d. has c.definitions d ≡ true) n schema h))
send_schema_again (each errors) c h =
    ap (λ l. record c { definitions = l }) (defined_stays errors schema c.definitions h)

send_version-definitions :
    (reply : Reply) (c : Catalog) → (send_version reply c).1.definitions ≡ c.definitions
send_version-definitions (lost true e) c = refl
send_version-definitions (lost false e) c = refl
send_version-definitions (answered []) c = refl
send_version-definitions (answered ((slot, e) ∷ es)) c = refl

send_version-version :
    (reply : Reply) (c : Catalog)
    → (send_version reply c).0 ≡ ok tt
    → (send_version reply c).1.version ≡ some schema_version
send_version-version (lost applied e) c h = absurd (cc)
send_version-version (answered []) c h = refl
send_version-version (answered ((slot, e) ∷ es)) c h = absurd (cc)

send_version_again :
    (reply : Reply) (c : Catalog) → c.version ≡ some schema_version → (send_version reply c).1 ≡ c
send_version_again (lost true e) c h = ap (λ v. record c { version = v }) (sym h)
send_version_again (lost false e) c h = refl
send_version_again (answered []) c h = ap (λ v. record c { version = v }) (sym h)
send_version_again (answered ((slot, e) ∷ es)) c h = refl

abbrev pub failed : Result (Unit {0}) → Bool
failed (ok u) = false
failed (err e) = true

or_failed : (P : Type 0) (r : Result (Unit {0})) → (r ≡ ok tt → P) → (failed r ≡ true) ⊎ P
or_failed P (ok tt) h = inr (h refl)
or_failed P (err e) h = inl refl

-- What a call of `setup` does to a catalog.
pub record SetUp (before : Catalog) (r : Result (Unit {0})) (after : Catalog) : Type 0 where
  pub kept : (d : ℕ) → has before.definitions d ≡ true → has after.definitions d ≡ true
  pub complete : (failed r ≡ true) ⊎ (Complete after × (after.version ≡ some schema_version))
  pub in_order : (after.version ≡ before.version) ⊎ Complete after

SetUp-version :
    (reply : Reply) (c : Catalog) (o : Result (Unit {0}) × Catalog)
    → ((d : ℕ) → has c.definitions d ≡ true → has o.1.definitions d ≡ true)
    → (o.0 ≡ ok tt → Complete o.1)
    → o.1.version ≡ c.version
    → SetUp c (then_version reply o).0 (then_version reply o).1
SetUp-version reply c (err e, c') k f v = record { kept = k; complete = inl refl; in_order = inl v }
SetUp-version reply c (ok tt, c') k f v =
    let same = send_version-definitions reply c' in
    let all : Complete (send_version reply c').1 =
      subst (λ ds. All (λ d. has ds d ≡ true) schema) (sym same) (f refl) in
    record {
      kept = λ d h. subst (λ ds. has ds d ≡ true) (sym same) (k d h);
      complete =
          or_failed
            (Complete (send_version reply c').1
              × ((send_version reply c').1.version ≡ some schema_version))
            (send_version reply c').0 (λ h. (all, send_version-version reply c' h));
      in_order = inr all;
    }

again-version :
    (reply : Reply) (c : Catalog) (o : Result (Unit {0}) × Catalog)
    → o.1 ≡ c
    → c.version ≡ some schema_version
    → (then_version reply o).1 ≡ c
again-version reply c (err e, c') h v = h
again-version reply c (ok tt, c') h v = send_version_again reply c' (ap (λ x. x.version) h ∙ v) ∙ h

-- However the server answers, `setup` keeps what is defined, and it writes the version only if all of the
-- schema is defined; if it succeeds, all of the schema is defined and the version is the schema's, and a
-- second call then changes nothing, even if the second one fails.
pub setup-SetUp :
    (script script' : ScriptReply) (reply reply' : Reply) (c : Catalog)
    → let (r, c') = setup script reply c in
      SetUp c r c' × ((failed r ≡ true) ⊎ ((setup script' reply' c').1 ≡ c'))
unfolding setup
setup-SetUp script script' reply reply' c =
    let o = send_schema script c in
    let s =
      SetUp-version reply c o (send_schema-has script c) (send_schema-Complete script c)
        (send_schema-version script c) in
    let c' = (then_version reply o).1 in
    (
      s,
      elim s.complete [
        | inl f ↦ inl f
        | inr (all, v) ↦
            inr (
              again-version reply' c' (send_schema script' c') (send_schema_again script' c' all) v)
      ],
    )
