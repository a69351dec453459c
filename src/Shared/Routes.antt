-- ===== src/Shared/Routes.antt =====
-- What the specification of Shared sends to each queue.
use apalis_surrealdb.Prelude.{
  ℕ, ◌≡◌, refl, sym, ap, ◌∙◌, Bool, true, false, Option, none, some, List, [], ◌∷◌, ◌++◌, map,
  filter, append-nil, append_assoc, holds, if◌then◌else◌, ◌==◌, Bool-cases, inl, inr, arith,
}
use apalis_surrealdb.Session.{Result, ok, err}
use apalis_surrealdb.Tasks.{Task}
use apalis_surrealdb.Shared.{Channel, send, route, route_all, delivered}

-- `queue` is the task's.
abbrev pub is_for : ℕ → Task → Bool
is_for queue task = holds task.queue queue

-- A channel after all the tasks.
abbrev pub served : List Task → Channel → Channel
served tasks c =
    if c.connected then record c { sent = c.sent ++ filter (is_for c.queue) tasks } else c

-- What one task does to a channel.
abbrev one : Task → Option ℕ → Channel → Channel
one t none c = c
one t (some queue) c = if c.queue == queue then send t c else c

served-nil : (c : Channel) → served [] c ≡ c
served-nil c = elim (Bool-cases c.connected) [
  | inl o ↦ rw (o, append-nil) (rw (← o) refl)
  | inr o ↦ rw o refl
]

served-one :
    (t : Task) (ts : List Task) (o : Option ℕ) (c : Channel)
    → t.queue ≡ o
    → served ts (one t o c) ≡ served (t ∷ ts) c
served-one t ts none c e = rw e refl
served-one t ts (some q) c e = elim (Bool-cases c.connected) [
  | inr o ↦ elim (Bool-cases (c.queue == q)) [ inl n ↦ rw (o, n) refl | inr n ↦ rw (o, n) refl ]
  | inl o ↦ elim (Bool-cases (c.queue == q)) [
    | inl n ↦
        let m : holds t.queue c.queue ≡ true = rw e (ground arith) in
        rw (n, o, m)
          (ap (λ l. record c { sent = l; connected = true })
            (append_assoc c.sent (t ∷ []) (filter (is_for c.queue) ts)))
    | inr n ↦ let m : holds t.queue c.queue ≡ false = rw e (ground arith) in rw (n, o, m) refl
  ]
]

map_self : (f : Channel → Channel) (cs : List Channel) → ((c : Channel) → f c ≡ c) → map f cs ≡ cs
map_self f [] h = refl
map_self f (c ∷ cs) h = rw (h c, map_self f cs h) refl

route-one :
    (t : Task) (o : Option ℕ) (cs : List Channel) → t.queue ≡ o → route t cs ≡ map (one t o) cs
unfolding route
route-one t none cs e = rw e (sym (map_self (one t none) cs (λ c. refl)))
route-one t (some q) cs e = rw e refl

served_routed :
    (t : Task) (ts : List Task) (o : Option ℕ) (cs : List Channel)
    → t.queue ≡ o
    → map (served ts) (map (one t o) cs) ≡ map (served (t ∷ ts)) cs
served_routed t ts o [] e = refl
served_routed t ts o (c ∷ cs) e = rw (served-one t ts o c e, served_routed t ts o cs e) refl

-- The loop over the claimed tasks.
route_all_serves :
    (tasks : List Task) (registry : List Channel)
    → route_all tasks registry ≡ map (served tasks) registry
unfolding route_all
route_all_serves [] registry = sym (map_self (served []) registry served-nil)
route_all_serves (t ∷ ts) registry =
    route_all_serves ts (route t registry)
    ∙ ap (map (served ts)) (route-one t t.queue registry refl)
    ∙ served_routed t ts t.queue registry refl

-- What a claim gives out; an error gives nothing.
abbrev pub tasks_of : Result (List Task) → List Task
tasks_of (ok tasks) = tasks
tasks_of (err e) = []

delivered_serves :
    (registry : List Channel) (r : Result (List Task))
    → delivered registry r ≡ map (served (tasks_of r)) registry
delivered_serves registry (ok tasks) = route_all_serves tasks registry
delivered_serves registry (err e) = sym (map_self (served []) registry served-nil)

abbrev pub same_queue : Channel → Channel → Bool
same_queue c d = c.queue == d.queue
