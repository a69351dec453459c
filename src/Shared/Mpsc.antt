-- ===== src/Shared/Mpsc.antt =====
-- The bounded channel of the crate `futures` that src/shared.rs gives each queue: its operations, and
-- what the crate documents of them.
use apalis_surrealdb.Prelude.{
  ℕ, ◌≡◌, ◌≢◌, Bool, true, false, Option, none, some, List, [], ◌∷◌, ◌++◌,
}
use apalis_surrealdb.Tasks.{Task}

-- What a poll of the future of `tx.send(task)` leaves: the task if it has not been accepted, whether the
-- future is ready, and the channel.
pub record Sent (Chan : Type 0) : Type 0 where
  pub left : Option Task
  pub finished : Bool
  pub chan : Chan

-- `Poll<Option<Task>>`.
pub data Polled : Type 0 where
  waits : Polled
  ready : Option Task → Polled

-- `Chan` is a sender with its receiver. A poll of the send is given the task that is still to be
-- accepted, and `none` once it is and the future waits for the flush.
pub record Mpsc : Type 1 where
  pub Chan : Type 0
  pub channel : (buffer : ℕ) → Chan
  pub poll_send : Option Task → Chan → Sent Chan
  pub poll_receive : Chan → Polled × Chan
  pub drop_receiver : Chan → Chan

-- The task of an option.
abbrev pub items : Option Task → List Task
items none = []
items (some t) = t ∷ []

-- The task that a poll of a receiver gives out.
abbrev pub given : Polled → List Task
given waits = []
given (ready o) = items o

-- A channel is first in, first out, accepts while there is room, and has a slot for its sender when it is
-- empty; a send to a receiver that is gone is over at once, and one that waits goes on waiting until
-- something is received.
pub record MpscLaws (m : Mpsc) : Type 0 where
  pub contents : m.Chan → List Task
  pub connected : m.Chan → Bool
  pub channel_empty : (buffer : ℕ) → contents (m.channel buffer) ≡ []
  pub channel_connected : (buffer : ℕ) → connected (m.channel buffer) ≡ true
  pub send_fifo :
      (item : Option Task) (c : m.Chan)
      → connected c ≡ true
      → contents (m.poll_send item c).chan ++ items (m.poll_send item c).left
        ≡ contents c ++ items item
  pub send_connected :
      (item : Option Task) (c : m.Chan) → connected (m.poll_send item c).chan ≡ connected c
  pub send_accepted :
      (item : Option Task) (c : m.Chan)
      → connected c ≡ true
      → (m.poll_send item c).finished ≡ true
      → (m.poll_send item c).left ≡ none
  pub send_room :
      (item : Option Task) (c : m.Chan)
      → (m.poll_send item c).finished ≡ false
      → contents (m.poll_send item c).chan ≢ []
  pub send_gone :
      (item : Option Task) (c : m.Chan) → connected c ≡ false → (m.poll_send item c).finished ≡ true
  pub receive_fifo :
      (c : m.Chan) → given (m.poll_receive c).0 ++ contents (m.poll_receive c).1 ≡ contents c
  pub receive_waits : (c : m.Chan) → given (m.poll_receive c).0 ≡ [] → contents c ≡ []
  pub receive_connected : (c : m.Chan) → connected (m.poll_receive c).1 ≡ connected c
  pub drop_disconnects : (c : m.Chan) → connected (m.drop_receiver c) ≡ false
