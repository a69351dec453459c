-- ===== src/Jobs/Lifecycle/Statements.antt =====
-- Each statement on `job` as a step of the rows that it changes.
use apalis_surrealdb.Prelude.{
  ℕ, ◌≡◌, refl, sym, ◌∙◌, Bool, true, false, ◌&&◌, ◌||◌, not, Option, none, some, List, [], ◌∷◌,
  ◌++◌, All, arith, Bool-cases, inl, inr, holds, is_none, is_some, filter,
}
use apalis_surrealdb.Prelude.Int.{ℤ}
use apalis_surrealdb.Database.{
  Status, pending, queued, running, done, failed, killed, RecordIdKey, same_id, Json, JobRow,
}
use apalis_surrealdb.Jobs.{
  is_pending, is_queued, is_running, is_failed, is_done, is_killed, update_where,
}
use apalis_surrealdb.Jobs.Orphans.{inside}
use apalis_surrealdb.Jobs.Commands.{
  Command, fetch_next, fetch_next_shared, lock_task, ack_task, reenqueue, vacuum, is_outcome,
}
use apalis_surrealdb.Jobs.Lifecycle.{
  Phase, waiting, claimed, in_work, Move, claim, claim_again, share, share_again, lock_waiting,
  lock_free, lock_own, lock_again, acknowledge, give_back, lose_claim, lose_work, stay, idle, move,
  may_leave, phase_of, phase, vacuumed, Comes, Evolves, empty, keeps, leaves, comes, holder,
}

-- The statements by the status and the holder of a row.
pub claim_step :
    (id : RecordIdKey) (q w k now : ℕ) (st : Status) (h : Option ℕ)
    → (is_pending st || is_failed st) ≡ true
    → Move id (fetch_next q w k now) (phase_of st h) (claimed (some w))
claim_step id q w k now pending h e = claim q w k now
claim_step id q w k now failed h e = claim_again q w k now h
claim_step id q w k now queued h e = absurd (cc)
claim_step id q w k now running h e = absurd (cc)
claim_step id q w k now done h e = absurd (cc)
claim_step id q w k now killed h e = absurd (cc)

pub share_step :
    (id : RecordIdKey) (qs : List ℕ) (k now : ℕ) (st : Status) (h : Option ℕ)
    → (is_pending st || is_failed st) ≡ true
    → (st ≡ pending → h ≡ none)
    → Move id (fetch_next_shared qs k now) (phase_of st h) (claimed h)
share_step id qs k now pending h e free = rw (free refl) (share qs k now)
share_step id qs k now failed h e free = share_again qs k now h
share_step id qs k now queued h e free = absurd (cc)
share_step id qs k now running h e free = absurd (cc)
share_step id qs k now done h e free = absurd (cc)
share_step id qs k now killed h e free = absurd (cc)

own : (h : Option ℕ) (w : ℕ) → (holds h w || is_none h) ≡ true → is_some h ≡ true → h ≡ some w
own none w e s = absurd (cc)
own (some v) w e s = ground arith

pub lock_step :
    (id j : RecordIdKey) (w now : ℕ) (st : Status) (h : Option ℕ)
    → same_id id j ≡ true
    → ((holds h w || is_none h) && (is_queued st || is_pending st || is_failed st)) ≡ true
    → (st ≡ failed → is_some h ≡ true)
    → Move id (lock_task j w now) (phase_of st h) (in_work (some w))
lock_step id j w now pending h i e held = lock_waiting j w now i
lock_step id j w now failed h i e held =
    rw (own h w (ground arith) (held refl)) (lock_again j w now i)
lock_step id j w now queued none i e held = lock_free j w now i
lock_step id j w now queued (some v) i e held =
    let s : v ≡ w = ground arith in rw s (lock_own j w now i)
lock_step id j w now running h i e held = absurd (ground arith)
lock_step id j w now done h i e held = absurd (ground arith)
lock_step id j w now killed h i e held = absurd (ground arith)

holder-phase_of :
    (st : Status) (h : Option ℕ) → (st ≡ pending → h ≡ none) → holder (phase_of st h) ≡ h
holder-phase_of pending h free = sym (free refl)
holder-phase_of failed h free = refl
holder-phase_of queued h free = refl
holder-phase_of running h free = refl
holder-phase_of done h free = refl
holder-phase_of killed h free = refl

module _ (id j : RecordIdKey) (w : ℕ) (a : ℤ) (v : Json) (now : ℕ) (i : same_id id j ≡ true) where
  acked_step :
      (p : Phase) (o : Status) (h : Option ℕ)
      → is_outcome o ≡ true
      → holder p ≡ some w
      → h ≡ some w
      → Move id (ack_task j w o a v now) p (phase_of o h)
  acked_step p done h b e k = rw k (acknowledge j w a v now done i e refl)
  acked_step p killed h b e k = rw k (acknowledge j w a v now killed i e refl)
  acked_step p failed h b e k = rw k (give_back j w a v now i e)
  acked_step p pending h b e k = absurd (cc)
  acked_step p queued h b e k = absurd (cc)
  acked_step p running h b e k = absurd (cc)

  pub ack_step :
      (st o : Status) (h : Option ℕ)
      → is_outcome o ≡ true
      → holds h w ≡ true
      → (st ≡ pending → h ≡ none)
      → Move id (ack_task j w o a v now) (phase_of st h) (phase_of o h)
  ack_step st o h b e free =
      let k = own h w (rw e refl) (some_of h e) in
      acked_step (phase_of st h) o h b (holder-phase_of st h free ∙ k) k
    where
      some_of : (h : Option ℕ) → holds h w ≡ true → is_some h ≡ true
      some_of none e = absurd (cc)
      some_of (some v) e = refl

pub sweep_step :
    (id : RecordIdKey) (q dur now : ℕ) (live : List ℕ) (st : Status) (h : Option ℕ)
    → (is_queued st || is_running st) ≡ true
    → inside h live ≡ false
    → (st ≡ running → is_some h ≡ true)
    → Move id (reenqueue q dur now live) (phase_of st h) waiting
sweep_step id q dur now live queued h e gone held = lose_claim q dur now live h gone
sweep_step id q dur now live running (some w) e gone held = lose_work q dur now live w gone
sweep_step id q dur now live running none e gone held = absurd (cc (held refl))
sweep_step id q dur now live pending h e gone held = absurd (cc)
sweep_step id q dur now live failed h e gone held = absurd (cc)
sweep_step id q dur now live done h e gone held = absurd (cc)
sweep_step id q dur now live killed h e gone held = absurd (cc)

pub leave_step :
    (st : Status) (h : Option ℕ)
    → (is_done st || is_killed st || is_failed st) ≡ true
    → may_leave (phase_of st h) ≡ true
leave_step done h e = refl
leave_step killed h e = refl
leave_step failed h e = refl
leave_step pending h e = absurd (cc)
leave_step queued h e = absurd (cc)
leave_step running h e = absurd (cc)

-- An UPDATE whose selected rows make a step.
pub update_where-Evolves :
    (c : Command) (p : JobRow → Bool) (f : JobRow → JobRow) (rows : List JobRow)
    → ((r : JobRow) → (f r).id ≡ r.id)
    → All (λ r. p r ≡ true → Move r.id c (phase r) (phase (f r))) rows
    → Evolves (c ∷ []) rows (update_where p f rows)
update_where-Evolves c p f [] i h = empty
update_where-Evolves c p f (r ∷ rows) i h =
    let rest = update_where-Evolves c p f rows i h.1 in
    elim (Bool-cases (p r)) [
      | inl e ↦ rw e (keeps (i r) (move (h.0 e) stay) rest)
      | inr e ↦ rw e (keeps refl (idle stay) rest)
    ]

-- A DELETE of rows that may leave.
pub filter-Evolves :
    (p : JobRow → Bool) (rows : List JobRow)
    → ((r : JobRow) → p r ≡ true → may_leave (phase r) ≡ true)
    → Evolves (vacuum ∷ []) rows (filter (λ r. not (p r)) rows)
filter-Evolves p [] h = empty
filter-Evolves p (r ∷ rows) h =
    let rest = filter-Evolves p rows h in
    elim (Bool-cases (p r)) [
      | inl e ↦ rw e (leaves (vacuumed (h r e)) rest)
      | inr e ↦ rw e (keeps refl (idle stay) rest)
    ]

-- A CREATE.
pub snoc-Evolves :
    (cs : List Command) (rs ss : List JobRow) (r : JobRow)
    → Comes r.id cs (phase r)
    → Evolves cs rs ss
    → Evolves cs rs (ss ++ r ∷ [])
snoc-Evolves cs _ _ r n empty = comes n empty
snoc-Evolves cs _ _ r n (keeps i t f) = keeps i t (snoc-Evolves cs _ _ r n f)
snoc-Evolves cs _ _ r n (leaves l f) = leaves l (snoc-Evolves cs _ _ r n f)
snoc-Evolves cs _ _ r n (comes c f) = comes c (snoc-Evolves cs _ _ r n f)
