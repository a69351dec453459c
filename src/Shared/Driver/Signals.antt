-- ===== src/Shared/Driver/Signals.antt =====
-- A queue's line while the driver of src/shared.rs is polled.
use apalis_surrealdb.Prelude.{
  ℕ, ◌≡◌, refl, sym, ap, ◌∙◌, subst, Bool, List, [], ◌∷◌, ◌++◌, append-nil, append_assoc, map,
  filter, is_empty, Bool-cases, inl, inr,
}
use apalis_surrealdb.Tasks.{Task, Apalis}
use apalis_surrealdb.Shared.Mpsc.{Mpsc, MpscLaws}
use apalis_surrealdb.Shared.Routes.{is_for}
use apalis_surrealdb.Shared.Driver.{
  Entry, Drive, idle, claiming, sending, System, Signal, woken, answered, resumed, lookup, claim,
  deliver, advance_at, poll_driver,
}
use apalis_surrealdb.Shared.Driver.History.{claimed_at, claimed_signals}
use apalis_surrealdb.Shared.Driver.Line.{owed, Line, MovedLine, Line-deliver, Line-send_on}

pub filter-append :
    (f : Task → Bool) (xs ys : List Task) → filter f (xs ++ ys) ≡ filter f xs ++ filter f ys
filter-append f [] ys = refl
filter-append f (x ∷ xs) ys = elim (Bool-cases (f x)) [
  | inl t ↦ rw (t, filter-append f xs ys) refl
  | inr n ↦ rw (n, filter-append f xs ys) refl
]

module _ (m : Mpsc) (laws : MpscLaws m) where
  -- The line of `q` in a system.
  abbrev pub InLine : ℕ → List Task → System m.Chan → Type 0
  InLine q line s = MovedLine m laws q line (s.registry, s.drive)

  same_line :
      (q : ℕ) (line : List Task) (s : System m.Chan) → InLine q line s → InLine q (line ++ []) s
  same_line q line s l = rw (append-nil) l

  redriven :
      (q : ℕ) (line : List Task) (d : Drive) (s : System m.Chan)
      → s.drive ≡ d
      → InLine q line s
      → Line m laws q s.registry (owed q d) line
  redriven q line d s e l = subst (λ due. Line m laws q s.registry due line) (ap (owed q) e) l

  extended :
      (q : ℕ) (line more : List Task) (registry : List (Entry m.Chan))
      → Line m laws q registry [] line
      → Line m laws q registry more (line ++ more)
  extended q line more registry l = record {
    chan = l.chan;
    found = l.found;
    open_end = l.open_end;
    in_order = ap (λ x. x ++ more) (sym (append-nil (laws.contents l.chan)) ∙ l.in_order);
  }

  InLine-advance_at :
      (apalis : Apalis) (q : ℕ) (line : List Task) (d : Drive) (x : Signal) (s : System m.Chan)
      → s.drive ≡ d
      → InLine q line s
      → InLine q (line ++ filter (is_for q) (claimed_at m apalis d x s)) (advance_at m apalis d x s)
  InLine-advance_at apalis q line idle woken s e l =
      let queues = map (λ e. e.queue) s.registry in
      let l' = redriven q line idle s e l in
      rw append-nil (elim (Bool-cases (is_empty queues)) [ inl t ↦ rw t l | inr f ↦ rw f l' ])
  InLine-advance_at apalis q line idle (answered server) s e l = same_line q line s l
  InLine-advance_at apalis q line idle resumed s e l = same_line q line s l
  InLine-advance_at apalis q line (claiming queues) woken s e l = same_line q line s l
  InLine-advance_at apalis q line (claiming queues) resumed s e l = same_line q line s l
  InLine-advance_at apalis q line (claiming queues) (answered server) s e l =
      let tasks = (claim server apalis queues s.world).0 in
      Line-deliver m laws q tasks (line ++ filter (is_for q) tasks) s.registry (
        extended q line (filter (is_for q) tasks) s.registry
          (redriven q line (claiming queues) s e l))
  InLine-advance_at apalis q line (sending r item rest) woken s e l = same_line q line s l
  InLine-advance_at apalis q line (sending r item rest) (answered server) s e l =
      same_line q line s l
  InLine-advance_at apalis q line (sending r item rest) resumed s e l = rw append-nil (
      Line-send_on m laws q r item rest (λ x. deliver m rest x) line
        (λ x k. Line-deliver m laws q rest line x k) s.registry (lookup r s.registry) refl
        (redriven q line (sending r item rest) s e l))

  pub InLine-poll_driver :
      (apalis : Apalis) (q : ℕ) (line : List Task) (xs : List Signal) (s : System m.Chan)
      → InLine q line s
      → InLine q
          (line ++ filter (is_for q) (claimed_signals m apalis xs s))
          (poll_driver m apalis xs s)
  unfolding poll_driver
  InLine-poll_driver apalis q line [] s l = same_line q line s l
  InLine-poll_driver apalis q line (x ∷ xs) s l =
      let now = claimed_at m apalis s.drive x s in
      let s' = advance_at m apalis s.drive x s in
      let later = claimed_signals m apalis xs s' in
      let l' =
        InLine-poll_driver apalis q (line ++ filter (is_for q) now) xs s'
          (InLine-advance_at apalis q line s.drive x s refl l) in
      rw (filter-append (is_for q) now later, ← append_assoc) l'
