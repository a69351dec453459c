-- ===== src/Workers/Freshest.antt =====
-- Which workers the listings show.
use mathlib.Core.List.{Permᴰ}
use apalis_surrealdb.Prelude.{
  perm_refl, ℕ, zero, suc, ◌≤◌, min, ◌≡◌, refl, ap, ◌∙◌, Option, none, some, List, [], ◌∷◌, ◌++◌,
  map, filter, take, drop, length, length-take, All, All-imp, arith, Bool-cases, inl, inr, leb,
}
use apalis_surrealdb.Database.{WorkerRow, Db}
use apalis_surrealdb.Session.{ok, answered, Server, World, transact, lift, take_rows, pure, ◌>>=◌}
use apalis_surrealdb.Session.Bind.{>>=-ok}
use apalis_surrealdb.Session.Retry.{transact-answered}
use apalis_surrealdb.Workers.{
  RunningWorker, from, insert_fresher, freshest_first, of_queue, list_workers_query, listed,
  list_workers, list_all_workers,
}

-- Each worker was seen no earlier than those behind it.
abbrev pub Freshest : List WorkerRow → Type 0
Freshest [] = Unit
Freshest (w ∷ ws) = All (λ v. v.last_seen ≤ w.last_seen) ws × Freshest ws

All-insert_fresher :
    (P : WorkerRow → Type 0) (a : WorkerRow) (ws : List WorkerRow)
    → P a
    → All P ws
    → All P (insert_fresher a ws)
unfolding insert_fresher
All-insert_fresher P a [] p h = (p, tt)
All-insert_fresher P a (b ∷ bs) p h = elim (Bool-cases (leb b.last_seen a.last_seen)) [
  | inl e ↦ rw e (p, h)
  | inr e ↦ rw e (h.0, All-insert_fresher P a bs p h.1)
]

insert_fresher-Freshest :
    (a : WorkerRow) (ws : List WorkerRow) → Freshest ws → Freshest (insert_fresher a ws)
unfolding insert_fresher
insert_fresher-Freshest a [] h = (tt, tt)
insert_fresher-Freshest a (b ∷ bs) h = elim (Bool-cases (leb b.last_seen a.last_seen)) [
  | inl e ↦
      let fresher : b.last_seen ≤ a.last_seen = ground arith in
      rw e ((fresher, All-imp _ _ bs (λ v (l : v.last_seen ≤ b.last_seen). omega arith) h.0), h)
  | inr e ↦
      let older : a.last_seen ≤ b.last_seen = ground arith in
      rw e (
        All-insert_fresher (λ v. v.last_seen ≤ b.last_seen) a bs older h.0,
        insert_fresher-Freshest a bs h.1,
      )
]

freshest_first-Freshest : (ws : List WorkerRow) → Freshest (freshest_first ws)
unfolding freshest_first
freshest_first-Freshest [] = tt
freshest_first-Freshest (w ∷ ws) =
    insert_fresher-Freshest w (freshest_first ws) (freshest_first-Freshest ws)

insert_fresher-perm : (a : WorkerRow) (ws : List WorkerRow) → Permᴰ (insert_fresher a ws) (a ∷ ws)
unfolding insert_fresher
insert_fresher-perm a [] = perm_refl (a ∷ [])
insert_fresher-perm a (b ∷ bs) = elim (Bool-cases (leb b.last_seen a.last_seen)) [
  | inl e ↦ rw e (perm_refl (a ∷ b ∷ bs))
  | inr e ↦ rw e (Permᴰ.trans (Permᴰ.cons refl (insert_fresher-perm a bs)) (Permᴰ.swap refl refl))
]

freshest_first-perm : (ws : List WorkerRow) → Permᴰ (freshest_first ws) ws
unfolding freshest_first
freshest_first-perm [] = Permᴰ.nil
freshest_first-perm (w ∷ ws) =
    Permᴰ.trans (insert_fresher-perm w (freshest_first ws))
      (Permᴰ.cons refl (freshest_first-perm ws))

length-perm : {xs ys : List WorkerRow} → Permᴰ xs ys → length xs ≡ length ys
length-perm Permᴰ.nil = refl
length-perm (Permᴰ.cons e p) = ap suc (length-perm p)
length-perm (Permᴰ.swap e d) = refl
length-perm (Permᴰ.trans p q) = length-perm p ∙ length-perm q

take-drop : (n : ℕ) (ws : List WorkerRow) → take n ws ++ drop n ws ≡ ws
take-drop zero ws = refl
take-drop (suc n) [] = refl
take-drop (suc n) (w ∷ ws) = ap (λ l. w ∷ l) (take-drop n ws)

-- The workers shown are a hundred of those asked for, or all of them, and the freshest.
pub record Shows (queue : Option ℕ) (empty : ℕ) (db : Db) (out : List RunningWorker) : Type 0 where
  pub shown : List WorkerRow
  pub hidden : List WorkerRow
  pub out_shown : out ≡ map (from empty) shown
  pub asked : Permᴰ (shown ++ hidden) (filter (of_queue queue) db.workers)
  pub freshest : Freshest (shown ++ hidden)
  pub full : length shown ≡ min 100 (length (filter (of_queue queue) db.workers))

module _ (server : Server) (empty : ℕ) (w : World)
    (reply : server.reply w.queries ≡ answered []) where
  abbrev before : Db
  before = server.elsewhere w.queries w.db

  listed-Shows :
      (queue : Option ℕ)
      → (out : List RunningWorker) × (listed server empty queue w
          ≡ (ok out, record { db = before; queries = suc w.queries }))
        × Shows queue empty before out
  unfolding listed
  listed-Shows queue =
      let found = filter (of_queue queue) before.workers in
      let sorted = freshest_first found in
      (
        map (from empty) (take 100 sorted),
        >>=-ok (transact server (list_workers_query queue 100 0))
            (λ response. lift (take_rows 0 response) >>= λ rows. pure (map (from empty) rows)) w
            (transact-answered server (list_workers_query queue 100 0) w before (take 100 sorted)
              reply (unfold list_workers_query in refl)),
        record {
          shown = take 100 sorted;
          hidden = drop 100 sorted;
          out_shown = refl;
          asked = rw (take-drop 100 sorted) (freshest_first-perm found);
          freshest = rw (take-drop 100 sorted) (freshest_first-Freshest found);
          full = length-take 100 sorted ∙ ap (min 100) (length-perm (freshest_first-perm found));
        },
      )

  -- With an error-free reply, the listing of a queue's workers and that of all workers succeed and change
  -- nothing. Each shows, in descending order of when they were seen, the hundred freshest of the workers
  -- asked for, or all of them if there are fewer.
  pub list_workers-Shows :
      (queue : ℕ)
      → ((out : List RunningWorker) × (list_workers server empty queue w
            ≡ (ok out, record { db = before; queries = suc w.queries }))
          × Shows (some queue) empty before out)
        × ((out : List RunningWorker) × (list_all_workers server empty w
              ≡ (ok out, record { db = before; queries = suc w.queries }))
            × Shows none empty before out)
  unfolding list_workers list_all_workers
  list_workers-Shows queue = (listed-Shows (some queue), listed-Shows none)
