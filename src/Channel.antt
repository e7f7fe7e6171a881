-- ===== src/Channel.antt =====
-- The bounded channels of `tokio::sync::mpsc`, which the server and the client create with a capacity and
-- whose code is not part of the repository.
pub mod Tests
use terminald.Base.{ℕ, ◌≤◌, List, [], ◌∷◌, ◌++◌, Option, none, some, ◌≡◌, length}

-- `send` gives `none` while it has to wait, and `recv` while there is nothing to receive.
pub record Channel (A Queue : Type 0) : Type 0 where
  pub empty : Queue
  pub send : A → Queue → Option Queue
  pub recv : Queue → Option (A × Queue)
  pub contents : Queue → List A

-- What `tokio::sync::mpsc` documents of a bounded channel.
pub record IsChannel {A Queue : Type 0} (capacity : ℕ) (chan : Channel A Queue) : Type 0 where
  pub starts_empty : chan.contents chan.empty ≡ []
  pub sends_behind :
      (m : A) (q r : Queue) → chan.send m q ≡ some r → chan.contents r ≡ chan.contents q ++ m ∷ []
  pub waits_when_full :
      (m : A) (q : Queue) → chan.send m q ≡ none → capacity ≤ length (chan.contents q)
  pub stays_bounded :
      (m : A) (q r : Queue) → chan.send m q ≡ some r → length (chan.contents r) ≤ capacity
  pub receives_first :
      (m : A) (q r : Queue) → chan.recv q ≡ some (m, r) → chan.contents q ≡ m ∷ chan.contents r
  pub waits_when_empty : (q : Queue) → chan.recv q ≡ none → chan.contents q ≡ []
