-- ===== src/Jobs/Abandoned.antt =====
-- The jobs that reenqueue_orphaned.surql takes back, described apart from its WHERE.
use apalis_surrealdb.Prelude.{
  ℕ, ◌+◌, ◌≤◌, ◌≡◌, refl, ap, ◌⊎◌, true, false, not, ◌&&◌, ◌||◌, Option, none, some, List, any,
  arith, ◌==◌, is_none, is_some, inl, inr,
}
use apalis_surrealdb.Database.{queued, running, JobRow}
use apalis_surrealdb.Jobs.{is_queued, is_running}
use apalis_surrealdb.Jobs.Orphans.{is_orphan, inside, locked_before}
use apalis_surrealdb.Jobs.Rewrites.{queued-eq, running-eq, is_none-eq, either}

-- A job of the queue that has been locked for longer than the window and whose holder is not among the live
-- workers: it is queued or running under such a holder, or queued without any.
abbrev pub Abandoned : ℕ → ℕ → ℕ → List ℕ → JobRow → Type 0
Abandoned queue dur now live r =
    (r.queue ≡ queue)
    × ((t : ℕ) × (r.lock_at ≡ some t) × (t + dur ≤ now))
    × (((r.status ≡ queued) × (r.lock_by ≡ none))
        ⊎ ((worker : ℕ) × (r.lock_by ≡ some worker)
            × ((r.status ≡ queued) ⊎ (r.status ≡ running))
            × (any (λ l. l == worker) live ≡ false)))

locked_long :
    (now dur : ℕ) (o : Option ℕ)
    → locked_before now dur o ≡ true
    → (t : ℕ) × (o ≡ some t) × (t + dur ≤ now)
locked_long now dur none h = absurd (cc)
locked_long now dur (some t) h = (t, refl, ground arith)

holder_dead :
    (o : Option ℕ) (live : List ℕ)
    → is_some o ≡ true
    → inside o live ≡ false
    → (worker : ℕ) × (o ≡ some worker) × (any (λ l. l == worker) live ≡ false)
holder_dead none live s h = absurd (cc)
holder_dead (some v) live s h = (v, refl, h)

pub is_orphan-Abandoned :
    (queue dur now : ℕ) (live : List ℕ) (r : JobRow)
    → is_orphan queue dur now live r ≡ true
    → Abandoned queue dur now live r
unfolding is_orphan
is_orphan-Abandoned queue dur now live r h = (
  ground arith,
  locked_long now dur r.lock_at (ground arith),
  elim (either (is_queued r.status && is_none r.lock_by)
      ((is_queued r.status || is_running r.status)
        && is_some r.lock_by
        && not (inside r.lock_by live))
      (ground arith)) [
        | inl e ↦ inl (queued-eq r.status (ground arith), is_none-eq r.lock_by (ground arith))
        | inr e ↦
            let (v, held, dead) = holder_dead r.lock_by live (ground arith) (ground arith) in
            inr (
              v,
              held,
              elim (either (is_queued r.status) (is_running r.status) (ground arith)) [
                | inl f ↦ inl (queued-eq r.status f)
                | inr f ↦ inr (running-eq r.status f)
              ],
              dead,
            )
      ],
)

pub Abandoned-is_orphan :
    (queue dur now : ℕ) (live : List ℕ) (r : JobRow)
    → Abandoned queue dur now live r
    → is_orphan queue dur now live r ≡ true
unfolding is_orphan
Abandoned-is_orphan queue dur now live r (q, (t, at, long), inl (s, h)) =
    let l : locked_before now dur r.lock_at ≡ true = rw at (ground arith) in
    let st : is_queued r.status ≡ true = ap is_queued s in
    let n : is_none r.lock_by ≡ true = ap is_none h in ground arith
Abandoned-is_orphan queue dur now live r (q, (t, at, long), inr (v, held, s, dead)) =
    let l : locked_before now dur r.lock_at ≡ true = rw at (ground arith) in
    let n : is_some r.lock_by ≡ true = ap is_some held in
    let d : inside r.lock_by live ≡ false = rw held dead in
    let st : (is_queued r.status || is_running r.status) ≡ true = elim s [
      | inl e ↦ rw e refl
      | inr e ↦ rw e refl
    ] in
    ground arith
