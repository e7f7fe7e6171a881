-- ===== src/Cli/Client/Tasks.antt =====
-- The tasks that send for a client, interleaved in any order: the writer task of
-- crates/terminald-cli/src/client.rs, and the task of crates/terminald-cli/src/terminal.rs that watches the
-- size of the window, with the channel of 8 sizes between them.
pub mod Delivery
pub mod Calls
pub mod Terminal
pub mod Tests
use terminald.Base.{
  ℕ, List, [], ◌∷◌, ◌++◌, Option, none, some, Bool, true, false, ◌≡◌, Bytes, All, Result, ok, err,
}
use terminald.Channel.{Channel, IsChannel}
use terminald.Protocol.{Resize, IsResize, IsByte, SerdeJson}
use terminald.Cli.Client.{Event, stdin, resized, writer_task}

abbrev pub resize_capacity : ℕ
resize_capacity = 8

-- `current_size`: the size of the terminal, if it can be read.
abbrev pub current_size : Result (ℕ × ℕ) → Option Resize
current_size (ok (cols, rows)) = some (record { cols = cols; rows = rows })
current_size (err e) = none

-- The watching task: before the next signal, or before the `send` of a size.
pub data Watcher : Type 0 where
  watching : Watcher
  sending : Resize → Watcher

abbrev pub after_signal : Option Resize → Watcher
after_signal none = watching
after_signal (some size) = sending size

abbrev pub sizes_in : Option Resize → List Resize
sizes_in none = []
sizes_in (some size) = size ∷ []

-- The values of the Rust types: bytes are read, and the fields of a size are 16 bits wide.
abbrev pub IsRead : Result Bytes → Type 0
IsRead (ok b) = All IsByte b
IsRead (err e) = Unit {0}

abbrev pub IsSize : Option Resize → Type 0
IsSize none = Unit {0}
IsSize (some size) = IsResize size

-- `seen` are the sizes that the watching task has read, `events` those of the writer task with the answers
-- of its sends, and `aborted` says whether it was aborted.
pub record Tasks (Queue : Type 0) : Type 0 where
  pub watcher : Watcher
  pub seen : List Resize
  pub queue : Queue
  pub events : List (Event × Result (Unit {0}))
  pub aborted : Bool

abbrev pub init : {Queue : Type 0} → Channel Resize Queue → Tasks Queue
init chan = record {
  watcher = watching;
  seen = [];
  queue = chan.empty;
  events = [];
  aborted = false;
}

-- The writer task is in its loop.
abbrev pub Goes : {Queue : Type 0} → SerdeJson → Tasks Queue → Type 0
Goes json s = ((writer_task json s.events).result ≡ none) × (s.aborted ≡ false)

-- A step of the task that watches the window.
pub data WatchStep {Queue : Type 0} (json : SerdeJson) (chan : Channel Resize Queue)
    : Tasks Queue → Tasks Queue → Type 0 where
  -- SIGWINCH.
  signalled :
      (s : Tasks Queue) (size : Result (ℕ × ℕ))
      → s.watcher ≡ watching
      → IsSize (current_size size)
      → WatchStep json chan s (record s {
        watcher = after_signal (current_size size);
        seen = s.seen ++ sizes_in (current_size size);
      })
  sends :
      (s : Tasks Queue) (size : Resize) (q : Queue)
      → s.watcher ≡ sending size
      → Goes json s
      → chan.send size s.queue ≡ some q
      → WatchStep json chan s (record s { watcher = watching; queue = q })
  -- The result of a send to a receiver that is gone is dropped.
  send_fails :
      (s : Tasks Queue) (size : Resize)
      → s.watcher ≡ sending size
      → ¬ Goes json s
      → WatchStep json chan s (record s { watcher = watching })

-- A turn of the writer task.
pub data WriteStep {Queue : Type 0} (json : SerdeJson) (chan : Channel Resize Queue)
    : Tasks Queue → Tasks Queue → Type 0 where
  reads :
      (s : Tasks Queue) (read : Result Bytes) (answer : Result (Unit {0}))
      → Goes json s
      → IsRead read
      → WriteStep json chan s (record s { events = s.events ++ (stdin read, answer) ∷ [] })
  takes_size :
      (s : Tasks Queue) (size : Resize) (q : Queue) (answer : Result (Unit {0}))
      → Goes json s
      → chan.recv s.queue ≡ some (size, q)
      → WriteStep json chan s
          (record s { queue = q; events = s.events ++ (resized (some size), answer) ∷ [] })

pub data Step {Queue : Type 0} (json : SerdeJson) (chan : Channel Resize Queue)
    : Tasks Queue → Tasks Queue → Type 0 where
  watches : {s t : Tasks Queue} → WatchStep json chan s t → Step json chan s t
  writes : {s t : Tasks Queue} → WriteStep json chan s t → Step json chan s t
  -- The end of `run`.
  aborts : (s : Tasks Queue) → Step json chan s (record s { aborted = true })

pub data Reach {Queue : Type 0} (json : SerdeJson) (chan : Channel Resize Queue)
    : Tasks Queue → Type 0 where
  start : Reach json chan (init chan)
  later : {s t : Tasks Queue} → Reach json chan s → Step json chan s t → Reach json chan t
