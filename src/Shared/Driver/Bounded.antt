-- ===== src/Shared/Driver/Bounded.antt =====
-- A bounded channel as a list, which has what src/shared.rs relies on of the crate `futures`.
mod Tests
use apalis_surrealdb.Prelude.{
  ℕ, suc, ◌+◌, ◌≡◌, ◌≢◌, refl, Bool, true, false, Option, none, some, List, [], ◌∷◌, ◌++◌,
  append-nil, append_assoc, length, leb, if◌then◌else◌, Bool-cases, inl, inr, arith,
}
use apalis_surrealdb.Tasks.{Task}
use apalis_surrealdb.Shared.Mpsc.{Sent, Polled, waits, ready, Mpsc, MpscLaws, items, given}

-- The sender has to wait while more than `buffer` tasks are in the channel.
record Bounded : Type 0 where
  pub buffer : ℕ
  pub tasks : List Task
  pub open_end : Bool

abbrev room : Bounded → Bool
room c = leb (length c.tasks) c.buffer

abbrev accepted : Task → Bounded → Sent Bounded
accepted t c =
    let c' : Bounded = record c { tasks = c.tasks ++ t ∷ [] } in
    record { left = none; finished = room c'; chan = c' }

abbrev refused : Option Task → Bounded → Bool → Sent Bounded
refused item c finished = record { left = item; finished = finished; chan = c }

-- A poll of a send, where the receiver is there or not.
abbrev poll_at : Bool → Option Task → Bounded → Sent Bounded
poll_at false item c = refused item c true
poll_at true none c = refused none c (room c)
poll_at true (some t) c = if room c then accepted t c else refused (some t) c false

abbrev receive_at : List Task → Bounded → Polled × Bounded
receive_at [] c = (waits, c)
receive_at (t ∷ ts) c = (ready (some t), record c { tasks = ts })

abbrev bounded : Mpsc
bounded = record {
  Chan = Bounded;
  channel = λ buffer. record { buffer = buffer; tasks = []; open_end = true };
  poll_send = λ item c. poll_at c.open_end item c;
  poll_receive = λ c. receive_at c.tasks c;
  drop_receiver = λ c. record c { tasks = []; open_end = false };
}

poll_at-fifo :
    (b : Bool) (item : Option Task) (c : Bounded)
    → b ≡ true
    → (poll_at b item c).chan.tasks ++ items (poll_at b item c).left ≡ c.tasks ++ items item
poll_at-fifo false item c e = absurd (cc)
poll_at-fifo true none c e = refl
poll_at-fifo true (some t) c e = elim (Bool-cases (room c)) [
  | inl r ↦ rw (r, append-nil) refl
  | inr r ↦ rw r refl
]

poll_at-open :
    (b : Bool) (item : Option Task) (c : Bounded) → (poll_at b item c).chan.open_end ≡ c.open_end
poll_at-open false item c = refl
poll_at-open true none c = refl
poll_at-open true (some t) c = elim (Bool-cases (room c)) [ inl r ↦ rw r refl | inr r ↦ rw r refl ]

poll_at-accepted :
    (b : Bool) (item : Option Task) (c : Bounded)
    → b ≡ true
    → (poll_at b item c).finished ≡ true
    → (poll_at b item c).left ≡ none
poll_at-accepted false item c e f = absurd (cc)
poll_at-accepted true none c e f = refl
poll_at-accepted true (some t) c e f = elim (Bool-cases (room c)) [
  | inl r ↦ rw r refl
  | inr r ↦ let f' = rw r at f in absurd (cc)
]

no_room : (c : Bounded) → room c ≡ false → c.tasks ≢ []
no_room c r e = let r' = rw e at r in absurd (ground arith)

poll_at-room :
    (b : Bool) (item : Option Task) (c : Bounded)
    → (poll_at b item c).finished ≡ false
    → (poll_at b item c).chan.tasks ≢ []
poll_at-room false item c f = absurd (cc)
poll_at-room true none c f = no_room c f
poll_at-room true (some t) c f = elim (Bool-cases (room c)) [
  | inl r ↦ rw r (no_room (record c { tasks = c.tasks ++ t ∷ [] }) (let f' = rw r at f in f'))
  | inr r ↦ rw r (no_room c r)
]

receive_at-fifo :
    (ts : List Task) (c : Bounded)
    → c.tasks ≡ ts
    → given (receive_at ts c).0 ++ (receive_at ts c).1.tasks ≡ c.tasks
receive_at-fifo [] c e = refl
receive_at-fifo (t ∷ ts) c e = rw e refl

receive_at-waits :
    (ts : List Task) (c : Bounded) → c.tasks ≡ ts → given (receive_at ts c).0 ≡ [] → c.tasks ≡ []
receive_at-waits [] c e g = e
receive_at-waits (t ∷ ts) c e g = absurd (cc)

receive_at-open : (ts : List Task) (c : Bounded) → (receive_at ts c).1.open_end ≡ c.open_end
receive_at-open [] c = refl
receive_at-open (t ∷ ts) c = refl

gone :
    (b : Bool) (item : Option Task) (c : Bounded) → b ≡ false → (poll_at b item c).finished ≡ true
gone false item c e = refl
gone true item c e = absurd (cc)

unfoldable bounded_laws : MpscLaws bounded
bounded_laws = record {
  contents = λ c. c.tasks;
  connected = λ c. c.open_end;
  channel_empty = λ b. refl;
  channel_connected = λ b. refl;
  send_fifo = λ item c o. poll_at-fifo c.open_end item c o;
  send_connected = λ item c. poll_at-open c.open_end item c;
  send_accepted = λ item c o f. poll_at-accepted c.open_end item c o f;
  send_room = λ item c f. poll_at-room c.open_end item c f;
  send_gone = λ item c o. gone c.open_end item c o;
  receive_fifo = λ c. receive_at-fifo c.tasks c refl;
  receive_waits = λ c. receive_at-waits c.tasks c refl;
  receive_connected = λ c. receive_at-open c.tasks c;
  drop_disconnects = λ c. refl;
}
