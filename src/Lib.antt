-- ===== src/Lib.antt =====
-- A verification development for terminald, a program that shares a terminal over the web: a server
-- runs a command behind a pseudoterminal for each websocket and serves a page, and a client connects
-- a local terminal to it.
--
-- The parts, by crate, and the files that model them:
-- - crates/terminald-protocol (src/message.rs, src/resize.rs): Protocol. `ClientMessage::decode` and
--   `encode` are `decode_client` and `encode_client`, those of `ServerMessage` are `decode_server` and
--   `encode_server`. Protocol/Client and Protocol/Server hold what is proved of each direction.
-- - crates/terminald-server/src/auth.rs: Auth, with Auth/Compare on `constant_time_eq`,
--   Auth/Credentials and Auth/Pairs on `Credential`, and Auth/Access on `validate_headers`. Bits has the
--   lemmas on exclusive or, and Http the requests, responses and headers.
-- - crates/terminald-server/src/assets.rs: Assets, with Assets/Paths on request paths, Assets/Loading
--   on `load`, and Assets/Index on the paths that are answered with the index page.
-- - crates/terminald-server/src/routes.rs: Routes, with Routes/Gate on who is let in and Routes/Pages
--   on redirects and pages. `dispatch` gives an `Outcome`: a response, a redirect, or an upgraded socket.
-- - crates/terminald-server/src/server.rs: Server.
-- - crates/terminald-server/src/session.rs: Session. The task that reads the terminal is `reader_task`,
--   the loop that serves the socket is `drive_socket`, a function of the turns of its `select!` in
--   whatever order they come. Session/Reader, Session/Screen, Session/Shown and Session/Typed follow a
--   byte from the terminal to the client and back, Session/Ending and Session/Success the end of the
--   loop. Session/System has both tasks of a session interleaved over the channel between them, one
--   atomic step after the other: Session/System/Places and Session/System/Flow on where the bytes are,
--   Session/System/Order on the message of the exit, Session/System/Progress on what cannot block, and
--   Session/System/Drain on how the bytes get to the client. Session/Frames says what a session sends,
--   and Session/Kernel what the system takes of a client's input.
-- - crates/terminald-pty/src/process.rs: Pty, with Pty/Spawn on the start of a child, Pty/Io on
--   reads and writes (Pty/Io/Stream on one read behind the other), and Pty/Termination on its end,
--   where the system is a state that each call may change. Pty/Termination/Waiting has `wait` and
--   `child_id` of a handle. Pty/Locking has `wait` and `terminate` as two threads at the child's
--   mutex, and Pty/Threads any number of calls on the clones of a handle: Pty/Threads/Local says
--   what a thread knows at its place, Pty/Threads/Moves what a move does to that.
-- - crates/terminald-cli/src: Cli, with Cli/Args (args.rs, main.rs), Cli/Credentials
--   (args/credentials.rs, with the Debug forms of what holds a credential), Cli/Client (the parts of
--   client.rs), Cli/Run (its `run`, with the guard of terminal.rs) and Cli/Typed (a client's input
--   at the server's terminal, and at `write(2)` in Cli/Typed/Written). Cli/Client/Shown follows the
--   output of the terminal to the client's, and Cli/Client/Tasks has the writer task and the task of
--   terminal.rs that watches the window, one atomic step after the other, with
--   Cli/Client/Tasks/Delivery on the sizes between them, and Cli/Client/Tasks/Calls and
--   Cli/Client/Tasks/Terminal on what the server makes of their frames.
-- - Channel is the bounded channel of tokio that the session and the client create.
-- Base holds what they share; Text, Decimal and Utf8 are the functions of Rust's standard library that
-- the code calls, on bytes: searching and dividing text, printing and reading numbers, and
-- `String::from_utf8_lossy`.
--
-- The parts meet where the program joins them: `dispatch` calls `authorize_request` and `load`, the
-- session encodes messages of the protocol and makes the calls on the terminal, the client decodes what
-- the session encodes and makes the header that the server compares.
--
-- Conventions. Text is its UTF-8 bytes, a byte is a number, and the range of a Rust integer is a
-- predicate where it matters (`IsResize`, `IsI32`). `anyhow::Result` is `Result`, with an error as the
-- way in which it was built; the text of `{error:#}` is a parameter. Times are milliseconds. Errnos are
-- Linux's. A loop that waits for the system is a function of the answers of the system, and says so
-- where it still waits when they run out. The loop that polls for a child's exit has fuel instead: the
-- grace period of 200 milliseconds has 20 intervals of 10, so more than 20 rounds are enough. A `wait`
-- for a child may never return. The handler of an event takes two steps, so that a call that it awaits
-- may take any time, in which the loop takes no message from the channel.
--
-- Parameters. The crates serde_json, http, base64 and url, the handshake of axum, the channels of
-- tokio, the file system, the embedded files, the sockets and the operating system are parameters;
-- what is relied on of them is stated in `IsSerdeJson`, `IsHttp`, `IsBase64`, `IsUrl`, `IsCommand`,
-- `IsOutside`, `IsClock`, `IsKilling`, `IsReaping` and `IsChannel`, each of which a concrete value
-- satisfies in the files called Tests.
--
-- Not modelled. clap's parsing of the command line, the runtime, the frontend, and the Debug forms
-- of the types that hold no credential. No thread is taken to panic with the mutex of a child in
-- hand, so in Pty/Threads it is never poisoned. The bounds of the read buffers are left out: a read
-- gives any number of bytes.
pub mod Base
pub mod Text
pub mod Decimal
pub mod Utf8
pub mod Channel
pub mod Protocol
pub mod Bits
pub mod Http
pub mod Auth
pub mod Assets
pub mod Server
pub mod Routes
pub mod Pty
pub mod Session
pub mod Cli
