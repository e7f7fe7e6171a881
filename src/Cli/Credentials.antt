-- ===== src/Cli/Credentials.antt =====
-- crates/terminald-cli/src/args/credentials.rs: the credential of `--credential` or
-- `--credential-file`. Reading a file is a parameter.
pub mod File
pub mod Redaction
use terminald.Base.{
  List, [], ◌∷◌, Option, none, some, Bool, true, false, ◌||◌, Bytes, codes, contains, Error,
  message, context_with, text, Result, ok, err, ◌>>=◌, with_shown_context, if◌then◌else◌,
}
use terminald.Text.{strip_suffix}
use terminald.Auth.{Credential, new}

pub record CredentialArgs : Type 0 where
  pub credential : Option Bytes
  pub credential_file : Option Bytes

-- The final line end of a file is left out: `\r\n` or `\n`, once.
first_of : Option Bytes → Option Bytes → Bytes → Bytes
first_of (some line) other value = line
first_of none (some line) value = line
first_of none none value = value

-- The `let line = ..` of `resolve`.
unfoldable pub line_of : Bytes → Bytes
unfolding first_of
line_of value =
    first_of (strip_suffix value (b'\r' ∷ b'\n' ∷ [])) (strip_suffix value (b'\n' ∷ [])) value

-- `line.contains(['\r', '\n', '\0'])`
unfoldable pub holds_line_end : Bytes → Bool
holds_line_end line = contains b'\r' line || (contains b'\n' line || contains 0 line)

check_line : Bytes → Result (Option Bytes)
unfolding holds_line_end
check_line line =
    if holds_line_end line
    then err (message "credential file must contain a single user:password line")
    else ok (some line)

checked_new : Option Credential → Result (Option Credential)
checked_new none = err (message "credential must be user:password")
checked_new (some c) = ok (some c)

-- `value.map(..).transpose()`
parse : Option Bytes → Result (Option Credential)
unfolding checked_new
parse none = ok none
parse (some value) = checked_new (new value)

module _ (read_to_string : Bytes → Result Bytes) where
  value_of : Option Bytes → Option Bytes → Result (Option Bytes)
  unfolding check_line line_of
  value_of given none = ok given
  value_of given (some path) =
      with_shown_context (read_to_string path) "read credential file " (text path) >>= λ value.
      check_line (line_of value)

  -- `CredentialArgs::resolve`
  unfoldable pub resolve : CredentialArgs → Result (Option Credential)
  unfolding value_of parse
  resolve args = value_of args.credential args.credential_file >>= parse
