-- ===== src/Session/System/Drain.antt =====
-- The two tasks bring to the client what was read, when the sends to the socket succeed.
use terminald.Base.{ℕ, ◌<◌, none, ◌≡◌, Bytes, Error}
use terminald.Channel.{Channel, IsChannel}
use terminald.Protocol.{ServerMessage, SerdeJson}
use terminald.Session.{drive_socket}
use terminald.Session.Screen.{screen}
use terminald.Session.System.{channel_capacity, System, GoesOn, Reach}
use terminald.Session.System.Progress.{Inner, load}

module _ {Queue : Type 0} (json : SerdeJson) (alternate : Error → Bytes)
    (chan : Channel ServerMessage Queue) (lawful : IsChannel channel_capacity chan) where
  -- Inner steps from `s` show all that was read until `s`.
  abbrev Drains : System Queue → Type 0
  Drains s =
      (n : ℕ) × (t : System Queue) × Inner json alternate chan n s t
      × (screen (drive_socket json alternate t.turns).actions ≡ s.taken)

  -- The loop stands at its `select!`.
  pub record IsFree (s : System Queue) : Type 0 where
    pub reached : Reach json alternate chan s
    pub on : GoesOn json alternate s.turns
    pub free : s.handling ≡ none

  -- How a state with less to do drains.
  abbrev Onward : System Queue → Type 0
  Onward s =
      (t : System Queue)
      → IsFree t
      → load json alternate chan t < load json alternate chan s
      → Drains t
