-- ===== src/Cli/Credentials/Redaction.antt =====
-- `fmt::Debug` of crates/terminald-cli/src/args/credentials.rs and of `Credential` and `AuthConfig` of
-- crates/terminald-server/src/auth.rs: what a printed value shows. How a path is quoted is a parameter.
use terminald.Base.{◌++◌, Option, none, some, Bool, true, false, ◌≡◌, refl, Bytes, codes}
use terminald.Auth.{Credential, AuthConfig, is_enabled}
use terminald.Cli.Credentials.{CredentialArgs}

-- `Option` as `derive(Debug)` prints it.
abbrev debug_option : Option Bytes → Bytes
debug_option none = codes "None"
debug_option (some shown) = codes "Some(" ++ (shown ++ codes ")")

-- `finish_non_exhaustive`, with no field.
debug_credential : Credential → Bytes
debug_credential c = codes "Credential { .. }"

debug_auth_config : AuthConfig → Bytes
unfolding debug_credential
debug_auth_config config =
    codes "AuthConfig { credential: "
    ++ (debug_option (elim config.credential [ none ↦ none | some c ↦ some (debug_credential c) ])
        ++ codes " }")

abbrev redacted : Option Bytes → Option Bytes
redacted none = none
redacted (some secret) = some (codes "\"[REDACTED]\"")

abbrev quoted : (Bytes → Bytes) → Option Bytes → Option Bytes
quoted quote none = none
quoted quote (some path) = some (quote path)

debug_credential_args : (Bytes → Bytes) → CredentialArgs → Bytes
debug_credential_args quote args =
    codes "CredentialArgs { credential: "
    ++ (debug_option (redacted args.credential)
        ++ (codes ", credential_file: "
            ++ (debug_option (quoted quote args.credential_file) ++ codes " }")))

abbrev is_given : Option Bytes → Bool
is_given none = false
is_given (some secret) = true

redacted-is_given : (a b : Option Bytes) → is_given a ≡ is_given b → redacted a ≡ redacted b
redacted-is_given none none h = refl
redacted-is_given none (some b) h = cc
redacted-is_given (some a) none h = cc
redacted-is_given (some a) (some b) h = refl

-- What is printed of the arguments tells whether a credential was given, and nothing else of it.
debug_credential_args_redacts :
    (quote : Bytes → Bytes) (a b : CredentialArgs)
    → a.credential_file ≡ b.credential_file
    → is_given a.credential ≡ is_given b.credential
    → debug_credential_args quote a ≡ debug_credential_args quote b
unfolding debug_credential_args
debug_credential_args_redacts quote a b file given =
    let same = redacted-is_given a.credential b.credential given in rw (file, same) refl

same_shown :
    (a b : Option Credential)
    → is_enabled (record { credential = a }) ≡ is_enabled (record { credential = b })
    → debug_auth_config (record { credential = a }) ≡ debug_auth_config (record { credential = b })
unfolding debug_auth_config is_enabled
same_shown none none h = refl
same_shown none (some d) h = cc
same_shown (some c) none h = cc
same_shown (some c) (some d) h = refl

-- What is printed of a configuration tells whether authentication is on, and nothing of the credential.
debug_auth_config_redacts :
    (a b : AuthConfig) → is_enabled a ≡ is_enabled b → debug_auth_config a ≡ debug_auth_config b
debug_auth_config_redacts a b h = same_shown a.credential b.credential h
