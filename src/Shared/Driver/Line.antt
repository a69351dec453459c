-- ===== src/Shared/Driver/Line.antt =====
-- What stands between a claim and a queue's fetcher, in src/shared.rs: what is in the queue's channel, and
-- what the driver has still to send to it.
use apalis_surrealdb.Prelude.{
  ℕ, ◌≡◌, refl, sym, ap, ◌∙◌, true, false, Option, none, some, List, [], ◌∷◌, ◌++◌, append_assoc,
  filter, holds, if◌then◌else◌, ◌==◌, Bool-cases, inl, inr, arith,
}
use apalis_surrealdb.Tasks.{Task}
use apalis_surrealdb.Shared.Mpsc.{Mpsc, MpscLaws, items}
use apalis_surrealdb.Shared.Routes.{is_for}
use apalis_surrealdb.Shared.Driver.{
  Entry, Drive, idle, claiming, sending, lookup, put, Moved, send_on, send_task, deliver,
}

pub lookup-put :
    {C : Type 0}
    → (q : ℕ) (c d : C) (es : List (Entry C)) → lookup q es ≡ some c
    → lookup q (put q d es) ≡ some d
lookup-put q c d [] h = absurd (cc)
lookup-put q c d (e ∷ es) h = elim (Bool-cases (e.queue == q)) [
  | inl t ↦ rw (t, t) refl
  | inr f ↦ let h' = rw f at h in rw (f, f) (lookup-put q c d es h')
]

pub lookup-put_other :
    {C : Type 0}
    → (q r : ℕ) (d : C) (es : List (Entry C)) → (r == q) ≡ false
    → lookup q (put r d es) ≡ lookup q es
lookup-put_other q r d [] n = refl
lookup-put_other q r d (e ∷ es) n = elim (Bool-cases (e.queue == r)) [
  | inl t ↦ let f : (e.queue == q) ≡ false = ground arith in rw (t, f) refl
  | inr f ↦ elim (Bool-cases (e.queue == q)) [
    | inl u ↦ rw (f, u) refl
    | inr u ↦ rw (f, u) (lookup-put_other q r d es n)
  ]
]

pub lookup-snoc :
    {C : Type 0}
    → (q : ℕ) (c : C) (es : List (Entry C)) (e : Entry C) → lookup q es ≡ some c
    → lookup q (es ++ e ∷ []) ≡ some c
lookup-snoc q c [] e h = absurd (cc)
lookup-snoc q c (d ∷ es) e h = elim (Bool-cases (d.queue == q)) [
  | inl t ↦ let h' = rw t at h in rw t h'
  | inr f ↦ let h' = rw f at h in rw f (lookup-snoc q c es e h')
]

-- The tasks that the driver has still to send to `q`.
abbrev pub owed : ℕ → Drive → List Task
owed q idle = []
owed q (claiming queues) = []
owed q (sending r item rest) = (if r == q then items item else []) ++ filter (is_for q) rest

owed-next :
    (q : ℕ) (o : Option ℕ) (t : Task) (rest : List Task)
    → t.queue ≡ o
    → filter (is_for q) (t ∷ rest) ≡ (if holds o q then t ∷ [] else []) ++ filter (is_for q) rest
owed-next q none t rest e = let n : holds t.queue q ≡ false = rw e refl in rw n refl
owed-next q (some r) t rest e = elim (Bool-cases (r == q)) [
  | inl u ↦ let n : holds t.queue q ≡ true = rw e (ground arith) in rw (n, u) refl
  | inr f ↦ let n : holds t.queue q ≡ false = rw e (ground arith) in rw (n, f) refl
]

module _ (m : Mpsc) (laws : MpscLaws m) where
  -- The channel of `q` is registered and its receiver is there; it holds, and `due` adds to it, `line`.
  pub record Line (q : ℕ) (registry : List (Entry m.Chan)) (due line : List Task) : Type 0 where
    pub chan : m.Chan
    pub found : lookup q registry ≡ some chan
    pub open_end : laws.connected chan ≡ true
    pub in_order : laws.contents chan ++ due ≡ line

  abbrev pub MovedLine : ℕ → List Task → Moved m → Type 0
  MovedLine q line (registry, drive) = Line q registry (owed q drive) line

  -- A poll of the send to `r`.
  Line-put :
      (q r : ℕ) (item : Option Task) (c : m.Chan) (registry : List (Entry m.Chan))
      → (due line : List Task) → lookup r registry ≡ some c
      → Line q registry ((if r == q then items item else []) ++ due) line
      → Line q
          (put r (m.poll_send item c).chan registry)
          ((if r == q then items (m.poll_send item c).left else []) ++ due)
          line
  Line-put q r item c registry due line at l = elim (Bool-cases (r == q)) [
    | inl t ↦
        let e : r ≡ q = ground arith in
        let f : lookup q registry ≡ some l.chan = l.found in
        let at' : lookup q registry ≡ some c = rw (← e) at in
        let same : c ≡ l.chan = cc in
        let o : laws.connected c ≡ true = rw same l.open_end in
        let i = l.in_order in
        let h : laws.contents c ++ (items item ++ due) ≡ line = let i' = rw t at i in rw same i' in
        record {
          chan = (m.poll_send item c).chan;
          found = rw e (lookup-put q c (m.poll_send item c).chan registry at');
          open_end = laws.send_connected item c ∙ o;
          in_order = rw t (
              sym (
                append_assoc (laws.contents (m.poll_send item c).chan)
                  (items (m.poll_send item c).left) due)
              ∙ ap (λ x. x ++ due) (laws.send_fifo item c o)
              ∙ append_assoc (laws.contents c) (items item) due
              ∙ h);
        }
    | inr f ↦
        let i = l.in_order in
        record {
          chan = l.chan;
          found = lookup-put_other q r (m.poll_send item c).chan registry f ∙ l.found;
          open_end = l.open_end;
          in_order = let i' = rw f at i in rw f i';
        }
  ]

  -- A send that is over has nothing left for a queue whose receiver is there.
  nothing_left :
      (q r : ℕ) (item : Option Task) (c : m.Chan) (registry : List (Entry m.Chan))
      → (due line : List Task) → lookup r registry ≡ some c
      → Line q registry due line
      → (m.poll_send item c).finished ≡ true
      → (if r == q then items (m.poll_send item c).left else []) ≡ []
  nothing_left q r item c registry due line at l over = elim (Bool-cases (r == q)) [
    | inr f ↦ rw f refl
    | inl t ↦
        let e : r ≡ q = ground arith in
        let f : lookup q registry ≡ some l.chan = l.found in
        let at' : lookup q registry ≡ some c = rw (← e) at in
        let same : c ≡ l.chan = cc in
        let o : laws.connected c ≡ true = rw same l.open_end in
        let n : (m.poll_send item c).left ≡ none = laws.send_accepted item c o over in
        rw (t, n) refl
  ]

  -- The send to `r`, and the tasks after it.
  pub Line-send_on :
      (q r : ℕ) (item : Option Task) (rest : List Task)
      → (go_on : List (Entry m.Chan) → Moved m) → (line : List Task)
      → ((registry : List (Entry m.Chan))
          → Line q registry (filter (is_for q) rest) line
          → MovedLine q line (go_on registry))
      → (registry : List (Entry m.Chan)) (o : Option m.Chan) → lookup r registry ≡ o
      → MovedLine q line (registry, sending r item rest)
      → MovedLine q line (send_on m r item rest go_on registry o)
  Line-send_on q r item rest go_on line h registry none at l = elim (Bool-cases (r == q)) [
    | inl t ↦
        let e : r ≡ q = ground arith in
        let f : lookup q registry ≡ some l.chan = l.found in
        let at' : lookup q registry ≡ none = rw (← e) at in absurd (cc)
    | inr f ↦
        let i = l.in_order in
        h registry (record {
          chan = l.chan;
          found = l.found;
          open_end = l.open_end;
          in_order = let i' = rw f at i in i';
        })
  ]
  Line-send_on q r item rest go_on line h registry (some c) at l =
      let s = m.poll_send item c in
      let l' = Line-put q r item c registry (filter (is_for q) rest) line at l in
      elim (Bool-cases s.finished) [
        | inl t ↦
            let n =
              nothing_left q r item c registry
                ((if r == q then items item else []) ++ filter (is_for q) rest) line at l t in
            let l'' = rw n at l' in rw t (h (put r s.chan registry) l'')
        | inr f ↦ rw f l'
      ]

  -- The loop over the claimed tasks, with a task of the queue `o` in front.
  Line-send_task :
      (q : ℕ) (o : Option ℕ) (t : Task) (rest : List Task)
      → (go_on : List (Entry m.Chan) → Moved m) → (line : List Task)
      → ((registry : List (Entry m.Chan))
          → Line q registry (filter (is_for q) rest) line
          → MovedLine q line (go_on registry))
      → (registry : List (Entry m.Chan)) → t.queue ≡ o
      → Line q registry (filter (is_for q) (t ∷ rest)) line
      → MovedLine q line (send_task m o t rest go_on registry)
  Line-send_task q none t rest go_on line h registry e l =
      let n = owed-next q none t rest e in let l' = rw n at l in h registry l'
  Line-send_task q (some r) t rest go_on line h registry e l =
      let n = owed-next q (some r) t rest e in
      let l' = rw n at l in
      Line-send_on q r (some t) rest go_on line h registry (lookup r registry) refl l'

  pub Line-deliver :
      (q : ℕ) (tasks line : List Task) (registry : List (Entry m.Chan))
      → Line q registry (filter (is_for q) tasks) line
      → MovedLine q line (deliver m tasks registry)
  unfolding deliver
  Line-deliver q [] line registry l = l
  Line-deliver q (t ∷ ts) line registry l =
      Line-send_task q t.queue t ts (λ r. deliver m ts r) line (λ r k. Line-deliver q ts line r k)
        registry refl l
