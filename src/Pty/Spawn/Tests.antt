-- ===== src/Pty/Spawn/Tests.antt =====
-- A shell started at a system in which each call succeeds but the ones named.
use terminald.Base.{
  ℕ, List, [], ◌∷◌, Option, none, some, ◌≡◌, refl, ◌==◌, if◌then◌else◌, false, Bytes, codes,
  message, os, Result, ok, err,
}
use terminald.Pty.{default_size}
use terminald.Pty.Spawn.{
  ChildCall, setsid, set_controlling_terminal, dup2, child_setup, System, Handle, set_nonblocking,
  spawn_blocking, spawn,
}
use terminald.Pty.Spawn.Setup.{
  whole_setup, Follows, IsCommand, child_setup-Follows, IsStarted, spawn-IsStarted,
}

abbrev second_dup_fails : ChildCall → Option ℕ
second_dup_fails (dup2 fd) = if fd == 1 then some 9 else none
second_dup_fails _ = none

fails_at_dup :
    child_setup second_dup_fails
    ≡ record { calls = setsid ∷ set_controlling_terminal ∷ dup2 0 ∷ dup2 1 ∷ []; failed = some 9 }
unfolding child_setup
fails_at_dup = refl

abbrev start_of : Option ℕ → Result ℕ
start_of none = ok 42
start_of (some e) = err (os e)

abbrev good : System
good = record {
  openpty = λ size. ok 5;
  getfl = λ fd. ok 2;
  setfl = λ fd flags. none;
  register = λ fd. ok tt;
  child_call = λ c. none;
  spawn_command = λ program args setup. start_of setup.failed;
}

good-IsCommand : IsCommand good
good-IsCommand = record { reports = λ program args setup e h. rw h }

abbrev shell : List Bytes
shell = codes "bash" ∷ codes "-l" ∷ []

abbrev shell_handle : Handle
shell_handle = record { io = 5; child = 42; cleanup_started = false }

shell_starts : spawn good shell default_size ≡ ok shell_handle
unfolding spawn spawn_blocking set_nonblocking child_setup
shell_starts = refl

empty_command : spawn good [] default_size ≡ err (message "pty command is empty")
unfolding spawn
empty_command = refl

child_setup-Follows_example : Follows second_dup_fails whole_setup (child_setup second_dup_fails)
child_setup-Follows_example = child_setup-Follows second_dup_fails

spawn-IsStarted_example : IsStarted good good-IsCommand shell default_size shell_handle
spawn-IsStarted_example =
    spawn-IsStarted good good-IsCommand shell default_size shell_handle shell_starts
