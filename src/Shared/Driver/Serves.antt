-- ===== src/Shared/Driver/Serves.antt =====
-- A wake-up of the driver of src/shared.rs whose sends all find room.
use apalis_surrealdb.Prelude.{
  ℕ, max, ◌≡◌, refl, sym, ap, ◌∙◌, true, some, List, [], ◌∷◌, ◌++◌, append-nil, map, filter, length,
}
use apalis_surrealdb.Prelude.Int.{as_i64}
use apalis_surrealdb.Session.{Server, World}
use apalis_surrealdb.Tasks.{Task, Apalis}
use apalis_surrealdb.Fetch.{fetch_next_shared}
use apalis_surrealdb.Shared.Mpsc.{Mpsc, MpscLaws}
use apalis_surrealdb.Shared.Routes.{is_for, tasks_of}
use apalis_surrealdb.Shared.Driver.{Entry, idle, System, woken, answered, lookup, poll_driver}
use apalis_surrealdb.Shared.Driver.Line.{owed}
use apalis_surrealdb.Shared.Driver.Signals.{InLine, InLine-poll_driver}

module _ (m : Mpsc) (laws : MpscLaws m) where
  -- At a wake-up the driver claims once for all the queues of the registry, at least ten tasks and one for
  -- each queue. If it is idle again once the claim is answered, so that no send has had to wait, then it has
  -- added to the channel of each queue whose receiver is there the tasks of that queue among those claimed,
  -- in the order of the claim, and nothing else; if the claim fails, nothing.
  pub poll_driver-serves :
      (server : Server) (apalis : Apalis) (q : ℕ) (c : m.Chan) (registry : List (Entry m.Chan))
      → (w : World)
      → let names = map (λ e. e.queue) registry in
        let (r, w') = fetch_next_shared server apalis names (as_i64 (max 10 (length names))) w in
        let s =
          poll_driver m apalis
            (woken ∷ answered server ∷ [])
            (record { registry = registry; drive = idle; world = w }) in
        lookup q registry ≡ some c
        → laws.connected c ≡ true
        → s.drive ≡ idle
        → (s.world ≡ w')
          × ((c' : m.Chan) × (lookup q s.registry ≡ some c')
              × (laws.contents c' ≡ laws.contents c ++ filter (is_for q) (tasks_of r)))
  unfolding poll_driver
  poll_driver-serves server apalis q c [] w f o d = absurd (cc)
  poll_driver-serves server apalis q c (e ∷ es) w f o d =
      let s₀ : System m.Chan = record { registry = e ∷ es; drive = idle; world = w } in
      let xs = woken ∷ answered server ∷ [] in
      let start : InLine m laws q (laws.contents c) s₀ = record {
        chan = c;
        found = f;
        open_end = o;
        in_order = append-nil (laws.contents c);
      } in
      let l = InLine-poll_driver m laws apalis q (laws.contents c) xs s₀ start in
      let idle_owes = ap (owed q) d in
      (
        refl,
        (
          l.chan,
          l.found,
          sym (append-nil (laws.contents l.chan))
              ∙ ap (λ x. laws.contents l.chan ++ x) (sym idle_owes)
              ∙ l.in_order
              ∙ ap (λ x. laws.contents c ++ filter (is_for q) x) (append-nil (claimed_now s₀)),
        ),
      )
    where
      claimed_now : System m.Chan → List Task
      claimed_now s =
          tasks_of
            (fetch_next_shared server apalis (map (λ x. x.queue) s.registry)
              (as_i64 (max 10 (length (map (λ x. x.queue) s.registry)))) s.world).0
