-- ===== src/Protocol/Tests.antt =====
-- The unit tests of the protocol crate, and the theorems at concrete inputs.
use terminald.Base.Int.{pos, negsuc}
use terminald.Base.{
  ◌^◌, [], ◌∷◌, ◌≡◌, ◌↔◌, refl, arith, Bytes, codes, message, context, Result, ok, err, ltb,
  if◌then◌else◌,
}
use terminald.Utf8.{from_utf8_lossy}
use terminald.Protocol.{
  SerdeJson, IsSerdeJson, Resize, IsResize, resize, input, output, error, exited, IsServerMessage,
  decode_client, encode_client, decode_server, encode_server,
}
use terminald.Protocol.Client.{FrameOf, decode_client-encode_client, decode_client_iff}
use terminald.Protocol.Server.{decode_server-encode_server, decode_server-IsServerMessage}

-- A stand-in for `serde_json`: a size is two numbers.
abbrev pub print_size : Resize → Result Bytes
print_size r = ok (r.cols ∷ r.rows ∷ [])

abbrev pub read_size : Bytes → Result Resize
read_size (c ∷ r ∷ []) =
    if ltb c (2 ^ 16)
    then if ltb r (2 ^ 16)
      then ok (record { cols = c; rows = r })
      else err (message "invalid value")
    else err (message "invalid value")
read_size _ = err (message "EOF while parsing an object")

abbrev pub two_numbers : SerdeJson
two_numbers = record { from_slice = read_size; to_vec = print_size }

read_size-range : (s : Bytes) (r : Resize) → read_size s ≡ ok r → IsResize r
read_size-range [] r e = cc
read_size-range (c ∷ []) r e = cc
read_size-range (c ∷ d ∷ []) r e = ground arith
read_size-range (c ∷ d ∷ x ∷ s) r e = cc

read_size-print_size : (r : Resize) → IsResize r → read_size (r.cols ∷ r.rows ∷ []) ≡ ok r
read_size-print_size r h = ground arith

pub two_numbers-IsSerdeJson : IsSerdeJson two_numbers
two_numbers-IsSerdeJson = record {
  prints = λ r h. (r.cols ∷ r.rows ∷ [], refl, read_size-print_size r h);
  reads = read_size-range;
}

abbrev standard : Resize
standard = record { cols = 80; rows = 24 }

decodes_client_input : decode_client two_numbers (1 ∷ b'a' ∷ []) ≡ ok (input (codes "a"))
unfolding decode_client
decodes_client_input = refl

invalid_resize_has_boundary_context :
    decode_client two_numbers (0 ∷ codes "{\"c")
    ≡ err (context "invalid resize payload" (message "EOF while parsing an object"))
unfolding decode_client
invalid_resize_has_boundary_context = refl

encodes_server_messages :
    (encode_server (output (codes "x")) ≡ 2 ∷ codes "x")
    × (encode_server (error (codes "no")) ≡ 3 ∷ codes "no")
    × (encode_server (exited (pos 7)) ≡ 4 ∷ codes "7")
    × (decode_server (4 ∷ codes "-1") ≡ ok (exited (negsuc 0)))
unfolding encode_server decode_server terminald.Decimal.print_ℤ terminald.Decimal.parse_i32
    from_utf8_lossy
encodes_server_messages = (refl, refl, refl, refl)

-- A stray byte becomes U+FFFD, and the text behind it is kept.
lossy_text :
    decode_server (3 ∷ 0xe2 ∷ 0x82 ∷ codes "ok") ≡ ok (error (0xef ∷ 0xbf ∷ 0xbd ∷ codes "ok"))
unfolding decode_server from_utf8_lossy
lossy_text = refl

decode_client-encode_client_example :
    (frame : Bytes) × (encode_client two_numbers (resize standard) ≡ ok frame)
    × (decode_client two_numbers frame ≡ ok (resize standard))
decode_client-encode_client_example =
    decode_client-encode_client two_numbers two_numbers-IsSerdeJson (resize standard) (omega arith)

decode_client_iff_example :
    (decode_client two_numbers (1 ∷ codes "ls") ≡ ok (input (codes "ls")))
    ↔ FrameOf two_numbers (input (codes "ls")) (1 ∷ codes "ls")
decode_client_iff_example = decode_client_iff two_numbers (input (codes "ls")) (1 ∷ codes "ls")

decode_server-encode_server_example :
    decode_server (encode_server (exited (negsuc 0))) ≡ ok (exited (negsuc 0))
decode_server-encode_server_example = decode_server-encode_server (exited (negsuc 0)) (omega arith)

decode_server-IsServerMessage_example : IsServerMessage (exited (negsuc 0))
unfolding decode_server from_utf8_lossy terminald.Decimal.parse_i32
decode_server-IsServerMessage_example =
    decode_server-IsServerMessage (exited (negsuc 0)) (4 ∷ codes "-1") (omega arith) refl
