-- ===== src/Protocol/Server.antt =====
-- What a client reads of what the server sends.
use terminald.Base.Int.{ℤ, pos, negsuc}
use terminald.Base.{ℕ, suc, ◌<◌, [], ◌∷◌, ◌≡◌, refl, arith, Bytes, All, Error, formatted, ok, err}
use terminald.Decimal.{print_ℕ, print_ℤ, parse_i32}
use terminald.Decimal.Print.{parse_i32-print_ℤ, IsDigit, print_ℕ-IsDigit}
use terminald.Decimal.Parse.{parse_i32_sound}
use terminald.Utf8.{from_utf8_lossy, IsUtf8}
use terminald.Utf8.Lossy.{from_utf8_lossy_id, from_utf8_lossy-IsUtf8, IsAscii-IsUtf8}
use terminald.Protocol.{
  SerdeJson, ServerMessage, output, error, exited, IsServerMessage, IsByte, server_output,
  server_error, server_exited, decode_server, encode_server, decode_client,
}

output_payload :
    (kind : ℕ) (payload d : Bytes) → decode_server (kind ∷ payload) ≡ ok (output d) → payload ≡ d
unfolding decode_server
output_payload kind payload d e = ground arith

error_payload :
    (kind : ℕ) (payload s : Bytes)
    → decode_server (kind ∷ payload) ≡ ok (error s)
    → from_utf8_lossy payload ≡ s
unfolding decode_server
error_payload kind payload s e = ground arith

exited_payload :
    (kind : ℕ) (payload : Bytes) (c : ℤ)
    → decode_server (kind ∷ payload) ≡ ok (exited c)
    → parse_i32 (from_utf8_lossy payload) ≡ ok c
unfolding decode_server
exited_payload kind payload c e = ground arith

digits_IsAscii : (s : Bytes) → All IsDigit s → All (λ b. b < 0x80) s
digits_IsAscii [] h = tt
digits_IsAscii (b ∷ s) (hb, hs) = (omega arith, digits_IsAscii s hs)

-- The text of a number is ASCII.
print_ℤ-IsUtf8 : (c : ℤ) → IsUtf8 (print_ℤ c)
unfolding print_ℤ
print_ℤ-IsUtf8 (pos n) = IsAscii-IsUtf8 _ (digits_IsAscii _ (print_ℕ-IsDigit n))
print_ℤ-IsUtf8 (negsuc n) =
    IsAscii-IsUtf8 _ (omega arith, digits_IsAscii _ (print_ℕ-IsDigit (suc n)))

-- A client decodes the frame of a server message to the message.
pub decode_server-encode_server :
    (m : ServerMessage) → IsServerMessage m → decode_server (encode_server m) ≡ ok m
unfolding decode_server encode_server
decode_server-encode_server (output d) h = refl
decode_server-encode_server (error s) h = rw (from_utf8_lossy_id s h)
decode_server-encode_server (exited c) h =
    rw (from_utf8_lossy_id _ (print_ℤ-IsUtf8 c), parse_i32-print_ℤ c h)

-- A frame of bytes that a client accepts holds a message of the Rust type: the text is UTF-8 and the
-- exit code is an `i32`, whatever the payload was.
pub decode_server-IsServerMessage :
    (m : ServerMessage) (frame : Bytes)
    → All IsByte frame
    → decode_server frame ≡ ok m
    → IsServerMessage m
unfolding decode_server
decode_server-IsServerMessage m [] h e = cc
decode_server-IsServerMessage (output d) (kind ∷ payload) h e =
    rw (output_payload kind payload d e) at h.1
decode_server-IsServerMessage (error s) (kind ∷ payload) h e =
    rw (error_payload kind payload s e) at (from_utf8_lossy-IsUtf8 payload)
decode_server-IsServerMessage (exited c) (kind ∷ payload) h e =
    (parse_i32_sound _ c (exited_payload kind payload c e)).1

-- No message of the server is taken for one of a client: a server that is sent it refuses it.
pub decode_client-encode_server :
    (json : SerdeJson) (m : ServerMessage)
    → (e : Error) × (decode_client json (encode_server m) ≡ err e)
unfolding decode_client encode_server
decode_client-encode_server json (output d) =
    (formatted "unknown client frame prefix " (print_ℕ server_output), refl)
decode_client-encode_server json (error s) =
    (formatted "unknown client frame prefix " (print_ℕ server_error), refl)
decode_client-encode_server json (exited c) =
    (formatted "unknown client frame prefix " (print_ℕ server_exited), refl)
