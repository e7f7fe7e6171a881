-- ===== src/Cli/Client/Output.antt =====
-- What a client prints of what a server sends.
use terminald.Base.{List, [], ◌∷◌, ◌++◌, ◌≡◌, refl, ap, ◌∙◌, map, Bytes, formatted, ok, err}
use terminald.Decimal.{print_ℤ}
use terminald.Protocol.{
  ServerMessage, output, error, exited, IsServerMessage, decode_server, encode_server,
}
use terminald.Protocol.Server.{decode_server-encode_server}
use terminald.Cli.Client.{
  Call, write_all, flush, Did, write_server_output, exit_text, on_server_message,
  handle_server_frame, binary, Arrival, go_on, on_item, read_loop,
}

-- A message that ends the client, and what it makes of it.
abbrev pub IsFinal : ServerMessage → Type 0
IsFinal (output d) = ⊥
IsFinal (error s) = Unit {0}
IsFinal (exited c) = Unit {0}

abbrev pub printed : Bytes → List Call
printed d = write_all d ∷ flush ∷ []

abbrev pub last_words : ServerMessage → Did (Unit {0})
last_words (output d) = record { calls = printed d; result = ok tt }
last_words (error s) = record { calls = []; result = err (formatted "" s) }
last_words (exited c) = record { calls = printed (exit_text (print_ℤ c)); result = ok tt }

abbrev pub all_printed : List Bytes → List Call
all_printed [] = []
all_printed (d ∷ chunks) = write_all d ∷ flush ∷ all_printed chunks

-- The arrival of the frame of a message, with an output that takes everything.
abbrev pub arrives : ServerMessage → Arrival
arrives m = record {
  item = ok (binary (encode_server m));
  answers = record { written = ok tt; flushed = ok tt };
}

final_read :
    (last : ServerMessage) (more : List Arrival)
    → IsServerMessage last
    → IsFinal last
    → read_loop (arrives last ∷ more) ≡ last_words last
unfolding read_loop on_item go_on handle_server_frame on_server_message write_server_output
final_read (output d) more typed h = absurd h
final_read (error s) more typed h = rw (decode_server-encode_server (error s) typed)
final_read (exited c) more typed h = rw (decode_server-encode_server (exited c) typed)

output_read :
    (d : Bytes) (more : List Arrival)
    → read_loop (arrives (output d) ∷ more) ≡ record {
      calls = write_all d ∷ flush ∷ (read_loop more).calls;
      result = (read_loop more).result;
    }
unfolding read_loop on_item go_on handle_server_frame on_server_message write_server_output
    decode_server encode_server
output_read d more = refl

-- The client writes and flushes each chunk of the terminal's output, in order, up to the first message
-- that ends it; behind that it prints the exit code and returns, or prints nothing and fails with the
-- error's text, and whatever arrives after that is not looked at.
pub read_loop_prints :
    (chunks : List Bytes) (last : ServerMessage) (more : List Arrival)
    → IsServerMessage last
    → IsFinal last
    → read_loop (map (λ d. arrives (output d)) chunks ++ arrives last ∷ more) ≡ record {
      calls = all_printed chunks ++ (last_words last).calls;
      result = (last_words last).result;
    }
read_loop_prints [] last more typed h = final_read last more typed h
read_loop_prints (d ∷ chunks) last more typed h =
    output_read d (map (λ x. arrives (output x)) chunks ++ arrives last ∷ more)
    ∙ ap (λ did. record { calls = write_all d ∷ flush ∷ did.calls; result = did.result })
        (read_loop_prints chunks last more typed h)
