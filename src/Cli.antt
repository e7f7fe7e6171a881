-- ===== src/Cli.antt =====
-- crates/terminald-cli: the command line (args.rs, main.rs), the credential (args/credentials.rs) and the
-- client (client.rs), whose `run` is in Run; Typed joins client and session.
pub mod Credentials
pub mod Args
pub mod Client
pub mod Run
pub mod Typed
pub mod Tests
