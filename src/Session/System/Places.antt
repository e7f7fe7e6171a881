-- ===== src/Session/System/Places.antt =====
-- The places where the bytes of the terminal are while both tasks run, and how a step moves them.
use terminald.Base.{
  Option, none, some, List, [], ◌∷◌, ◌++◌, ◌≡◌, refl, sym, ap, ◌∙◌, append_assoc, append-nil, Bytes,
  Error, Result, ok, err,
}
use terminald.Protocol.{ServerMessage, output, error, exited}
use terminald.Session.{Event, Turn}
use terminald.Session.Screen.{output_of, outputs_of, received_by, received_of}
use terminald.Session.Shown.{outputs_of-append}
use terminald.Session.System.{
  Phase, reading, sending, exiting, done, after_read, bytes_read, after_send, after_failure,
  take_turn,
}

-- The output that the reader task is about to send.
abbrev pub pending : Phase → Bytes
pending reading = []
pending (sending m) = output_of m
pending exiting = []
pending done = []

-- The message whose handler the loop is in.
abbrev pub in_hand : Option Event → List ServerMessage
in_hand none = []
in_hand (some event) = received_by event

-- Nothing has been lost while the task may still read.
abbrev pub Intact : Phase → Bytes → Type 0
Intact reading lost = lost ≡ []
Intact (sending (output d)) lost = lost ≡ []
Intact (sending (error s)) lost = Unit {0}
Intact (sending (exited c)) lost = Unit {0}
Intact exiting lost = Unit {0}
Intact done lost = Unit {0}

pub received_of-take_turn :
    (event : Event) (answer : Result (Unit {0})) (ts : List Turn)
    → received_of (take_turn event answer ts) ≡ received_of ts ++ received_by event
received_of-take_turn event answer [] = append-nil (received_by event)
received_of-take_turn event answer (t ∷ ts) =
    ap (λ l. received_by t.event ++ l) (received_of-take_turn event answer ts)
    ∙ sym (append_assoc (received_by t.event) (received_of ts) (received_by event))

pub outputs_of-take_turn :
    (event : Event) (answer : Result (Unit {0})) (ts : List Turn)
    → outputs_of (received_of (take_turn event answer ts))
      ≡ outputs_of (received_of ts) ++ outputs_of (received_by event)
outputs_of-take_turn event answer ts =
    ap outputs_of (received_of-take_turn event answer ts) ∙ outputs_of-append (received_of ts) _

pub pending-after_read :
    (alternate : Error → Bytes) (r : Result Bytes) → pending (after_read alternate r) ≡ bytes_read r
pending-after_read alternate (ok []) = refl
pending-after_read alternate (ok (b ∷ bs)) = refl
pending-after_read alternate (err e) = refl

pub after_read-Intact :
    (alternate : Error → Bytes) (r : Result Bytes) → Intact (after_read alternate r) []
after_read-Intact alternate (ok []) = tt
after_read-Intact alternate (ok (b ∷ bs)) = refl
after_read-Intact alternate (err e) = tt

pub pending-after_send : (m : ServerMessage) → pending (after_send m) ≡ []
pending-after_send (output d) = refl
pending-after_send (error s) = refl
pending-after_send (exited c) = refl

pub after_send-Intact :
    (m : ServerMessage) (lost : Bytes) → Intact (sending m) lost → Intact (after_send m) lost
after_send-Intact (output d) lost h = h
after_send-Intact (error s) lost h = tt
after_send-Intact (exited c) lost h = tt

pub pending-after_failure : (m : ServerMessage) → pending (after_failure m) ≡ []
pending-after_failure (output d) = refl
pending-after_failure (error s) = refl
pending-after_failure (exited c) = refl

pub after_failure-Intact : (m : ServerMessage) (lost : Bytes) → Intact (after_failure m) lost
after_failure-Intact (output d) lost = tt
after_failure-Intact (error s) lost = tt
after_failure-Intact (exited c) lost = tt

-- Bytes that move between the places of a flow.
pub move_read :
    (a c b l taken : Bytes) → a ++ (c ++ l) ≡ taken → l ≡ [] → a ++ (c ++ (b ++ [])) ≡ taken ++ b
move_read a c b l taken h e = simp (sym h, e, append_assoc, append-nil)

pub move_sent : (a c d l : Bytes) → a ++ ((c ++ (d ++ [])) ++ l) ≡ a ++ (c ++ (d ++ l))
move_sent a c d l = simp (append_assoc, append-nil)

pub move_received : (a d c l : Bytes) → (a ++ d) ++ (c ++ l) ≡ a ++ ((d ++ c) ++ l)
move_received a d c l = simp append_assoc
