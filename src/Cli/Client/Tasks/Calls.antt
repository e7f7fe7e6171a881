-- ===== src/Cli/Client/Tasks/Calls.antt =====
-- The calls on the terminal that a session makes for the frames of a client.
use terminald.Base.{
  List, [], ◌∷◌, ◌++◌, append_assoc, append-nil, map, Option, none, some, ◌≡◌, refl, sym, ap, ◌∙◌,
  Bytes, All, Result, ok, err,
}
use terminald.Protocol.{Resize, ClientMessage, resize, input, SerdeJson, decode_client}
use terminald.Session.{
  WsMessage, received, next, all_ended, Turn, Action, send, write_all, resize_to, drive_socket,
}
use terminald.Session.Kernel.{written}
use terminald.Session.Typed.{effect, asked, asked_by, all_asked}
use terminald.Cli.Client.Tasks.{sizes_in}
use terminald.Cli.Client.Tasks.Delivery.{all_typed, all_sizes}

-- What the server's socket gives when a client sends: no text.
abbrev pub IsFromClient : terminald.Session.Event → Type 0
IsFromClient (next (ok (WsMessage.text d))) = ⊥
IsFromClient _ = Unit {0}

abbrev pub IsClientTurn : Turn → Type 0
IsClientTurn t = IsFromClient t.event

abbrev pub frame_of : terminald.Session.Event → List Bytes
frame_of (next (ok (WsMessage.binary f))) = f ∷ []
frame_of _ = []

abbrev pub frames_of : List Turn → List Bytes
frames_of [] = []
frames_of (t ∷ ts) = frame_of t.event ++ frames_of ts

-- The sizes that the terminal is given.
abbrev pub sizes_given : List Action → List Resize
sizes_given [] = []
sizes_given (resize_to cols rows ∷ actions) =
    record { cols = cols; rows = rows } ∷ sizes_given actions
sizes_given (send m ∷ actions) = sizes_given actions
sizes_given (write_all d ∷ actions) = sizes_given actions

pub sizes_given-append :
    (xs ys : List Action) → sizes_given (xs ++ ys) ≡ sizes_given xs ++ sizes_given ys
sizes_given-append [] ys = refl
sizes_given-append (resize_to c r ∷ xs) ys =
    ap (λ l. record { cols = c; rows = r } ∷ l) (sizes_given-append xs ys)
sizes_given-append (send m ∷ xs) ys = sizes_given-append xs ys
sizes_given-append (write_all d ∷ xs) ys = sizes_given-append xs ys

pub written-effect : (ms : List ClientMessage) → written (map effect ms) ≡ all_typed ms
written-effect [] = refl
written-effect (input d ∷ ms) = ap (λ l. d ++ l) (written-effect ms)
written-effect (resize r ∷ ms) = written-effect ms

pub sizes_given-effect : (ms : List ClientMessage) → sizes_given (map effect ms) ≡ all_sizes ms
sizes_given-effect [] = refl
sizes_given-effect (input d ∷ ms) = sizes_given-effect ms
sizes_given-effect (resize r ∷ ms) = ap (λ l. r ∷ l) (sizes_given-effect ms)

pub typed-opening :
    (first : Option Resize) (ms : List ClientMessage)
    → all_typed (map resize (sizes_in first) ++ ms) ≡ all_typed ms
typed-opening none ms = refl
typed-opening (some size) ms = refl

pub sizes-opening :
    (first : Option Resize) (ms : List ClientMessage)
    → all_sizes (map resize (sizes_in first) ++ ms) ≡ sizes_in first ++ all_sizes ms
sizes-opening none ms = refl
sizes-opening (some size) ms = refl

pub map-append :
    (xs ys : List ClientMessage) → map effect (xs ++ ys) ≡ map effect xs ++ map effect ys
map-append [] ys = refl
map-append (m ∷ xs) ys = ap (λ l. effect m ∷ l) (map-append xs ys)

-- What frames ask for, by what they decode to.
abbrev pub asked_of : List (Result ClientMessage) → List Action
asked_of [] = []
asked_of (r ∷ rs) = asked_by r ++ asked_of rs

pub asked_of-ok : (ms : List ClientMessage) → asked_of (map ok ms) ≡ map effect ms
asked_of-ok [] = refl
asked_of-ok (m ∷ ms) = ap (λ l. effect m ∷ l) (asked_of-ok ms)

module _ (json : SerdeJson) where
  pub asked_of-append :
      (fs gs : List Bytes)
      → asked_of (map (decode_client json) (fs ++ gs))
        ≡ asked_of (map (decode_client json) fs) ++ asked_of (map (decode_client json) gs)
  asked_of-append [] gs = refl
  asked_of-append (f ∷ fs) gs =
      ap (λ l. asked_by (decode_client json f) ++ l) (asked_of-append fs gs)
      ∙ sym (append_assoc (asked_by (decode_client json f)) _ _)

  pub asked_frame :
      (e : terminald.Session.Event)
      → IsFromClient e
      → asked json e ≡ asked_of (map (decode_client json) (frame_of e))
  asked_frame (received m) h = refl
  asked_frame (next (ok (WsMessage.binary f))) h =
      sym (append-nil (asked_by (decode_client json f)))
  asked_frame (next (ok (WsMessage.text d))) h = absurd h
  asked_frame (next (ok (WsMessage.ping d))) h = refl
  asked_frame (next (ok (WsMessage.pong d))) h = refl
  asked_frame (next (ok WsMessage.close)) h = refl
  asked_frame (next (err e)) h = refl
  asked_frame all_ended h = refl

  pub all_asked_frames :
      (ts : List Turn)
      → All IsClientTurn ts
      → all_asked json ts ≡ asked_of (map (decode_client json) (frames_of ts))
  all_asked_frames [] h = refl
  all_asked_frames (t ∷ ts) (h, hs) =
      rw (asked_frame t.event h, all_asked_frames ts hs)
        (sym (asked_of-append (frame_of t.event) (frames_of ts)))
