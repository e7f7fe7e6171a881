-- ===== src/Pty.antt =====
-- crates/terminald-pty/src/process.rs: a child process behind a pseudoterminal. `Io` has the reads and
-- writes of a handle, `Termination` the end of the child, `Spawn` its start. The operating system
-- answers the calls; an error is its errno.
pub mod Io
pub mod Termination
pub mod Spawn
pub mod Locking
pub mod Threads
use terminald.Base.{ℕ, Bool, true, false, ◌||◌, Bytes, List, ◌==◌, if◌then◌else◌}

pub record PtySize : Type 0 where
  pub cols : ℕ
  pub rows : ℕ

-- `PtySize::default`
abbrev pub default_size : PtySize
default_size = record { cols = 80; rows = 24 }

pub record Winsize : Type 0 where
  pub ws_row : ℕ
  pub ws_col : ℕ
  pub ws_xpixel : ℕ
  pub ws_ypixel : ℕ

abbrev pub winsize_of : PtySize → Winsize
winsize_of size = record { ws_row = size.rows; ws_col = size.cols; ws_xpixel = 0; ws_ypixel = 0 }

-- Linux's numbers of the errors that the code tells apart.
abbrev pub eintr : ℕ
eintr = 4

abbrev pub eio : ℕ
eio = 5

abbrev pub eagain : ℕ
eagain = 11

abbrev pub esrch : ℕ
esrch = 3

pub data ErrorKind : Type 0 where
  interrupted would_block unexpected_eof other_kind : ErrorKind

-- `io::Error::kind` of an error with this errno.
abbrev pub kind : ℕ → ErrorKind
kind e = if e == eintr then interrupted else if e == eagain then would_block else other_kind

abbrev pub is_interrupted : ErrorKind → Bool
is_interrupted interrupted = true
is_interrupted _ = false

abbrev pub is_would_block : ErrorKind → Bool
is_would_block would_block = true
is_would_block _ = false

abbrev is_unexpected_eof : ErrorKind → Bool
is_unexpected_eof unexpected_eof = true
is_unexpected_eof _ = false

abbrev pub is_pty_eof : ℕ → Bool
is_pty_eof e = is_unexpected_eof (kind e) || e == eio
