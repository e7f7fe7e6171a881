-- ===== src/Pty/Spawn.antt =====
-- The start of a child: `PtyProcess::spawn`, `spawn_blocking`, `child_setup` and `set_nonblocking` of
-- crates/terminald-pty/src/process.rs. The calls of the system and of `std::process::Command` are
-- parameters.
pub mod Setup
pub mod Tests
use Prim.Native.Nat.{bit_or}
use terminald.Base.{
  ℕ, List, [], ◌∷◌, Option, none, some, Bool, false, Bytes, codes, Error, message, os, text,
  context, Result, ok, err, ◌>>=◌, with_context, with_shown_context,
}
use terminald.Pty.{PtySize, Winsize}

-- The calls of `child_setup` on the slave.
pub data ChildCall : Type 0 where
  setsid : ChildCall
  set_controlling_terminal : ChildCall
  dup2 : ℕ → ChildCall
  setenv : Bytes → Bytes → ChildCall

-- The calls made, and the errno of the one that failed.
pub record ChildSetup : Type 0 where
  pub calls : List ChildCall
  pub failed : Option ℕ

abbrev finished : ChildSetup
finished = record { calls = []; failed = none }

abbrev pub checked : ChildCall → Option ℕ → ChildSetup → ChildSetup
checked c none rest = record rest { calls = c ∷ rest.calls }
checked c (some e) rest = record { calls = c ∷ []; failed = some e }

module _ (answer : ChildCall → Option ℕ) where
  abbrev pub make : ChildCall → ChildSetup → ChildSetup
  make c rest = checked c (answer c) rest

  abbrev pub dup_all : List ℕ → ChildSetup → ChildSetup
  dup_all [] rest = rest
  dup_all (fd ∷ fds) rest = make (dup2 fd) (dup_all fds rest)

  -- `child_setup`: standard input, output and error are 0, 1 and 2.
  unfoldable pub child_setup : ChildSetup
  child_setup = make setsid (
      make set_controlling_terminal
        (dup_all (0 ∷ 1 ∷ 2 ∷ []) (make (setenv (codes "TERM") (codes "xterm-256color")) finished)))

-- The size that `openpty` is given.
abbrev pub first_winsize : PtySize → Winsize
first_winsize size = record { ws_row = size.rows; ws_col = size.cols; ws_xpixel = 0; ws_ypixel = 0 }

-- Linux's `O_NONBLOCK`.
abbrev pub o_nonblock : ℕ
o_nonblock = 2048

abbrev answered : Option ℕ → Result (Unit {0})
answered none = ok tt
answered (some e) = err (os e)

-- The calls of `spawn_blocking`: `getfl` and `setfl` are `fcntl`, `register` is `AsyncFd::new`, and
-- `spawn_command` is `Command::spawn`, which runs `child_setup` in the child.
pub record System : Type 0 where
  pub openpty : Winsize → Result ℕ
  pub getfl : ℕ → Result ℕ
  pub setfl : ℕ → ℕ → Option ℕ
  pub register : ℕ → Result (Unit {0})
  pub child_call : ChildCall → Option ℕ
  pub spawn_command : Bytes → List Bytes → ChildSetup → Result ℕ

-- The handle of a new process: the master's file and the child.
pub record Handle : Type 0 where
  pub io : ℕ
  pub child : ℕ
  pub cleanup_started : Bool

module _ (sys : System) where
  unfoldable pub set_nonblocking : ℕ → Result (Unit {0})
  set_nonblocking fd = do
    flags ← with_context (sys.getfl fd) "get PTY master flags"
    with_context (answered (sys.setfl fd (bit_or flags o_nonblock))) "set PTY master nonblocking"

  unfoldable pub spawn_blocking : Bytes → List Bytes → PtySize → Result Handle
  unfolding set_nonblocking
  spawn_blocking program args size = do
    master ← with_context (sys.openpty (first_winsize size)) "open PTY"
    _ ← set_nonblocking master
    _ ← with_context (sys.register master) "register PTY master"
    child ←
        with_shown_context (sys.spawn_command program args (child_setup sys.child_call))
          "spawn PTY command " (text program)
    ok (record { io = master; child = child; cleanup_started = false })

  -- `PtyProcess::spawn`
  unfoldable pub spawn : List Bytes → PtySize → Result Handle
  unfolding spawn_blocking
  spawn [] size = err (message "pty command is empty")
  spawn (program ∷ args) size = spawn_blocking program args size
