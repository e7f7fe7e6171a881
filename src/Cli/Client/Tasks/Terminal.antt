-- ===== src/Cli/Client/Tasks/Terminal.antt =====
-- The frames that a client's tasks send, at the loop of the server's session.
use terminald.Base.{
  List, [], ◌∷◌, ◌++◌, map, Option, none, some, ◌≡◌, refl, sym, ap, subst, ◌∙◌, Bytes, All,
  All-front, All-back, Result, ok, err, Error,
}
use terminald.Channel.{Channel, IsChannel}
use terminald.Protocol.{
  Resize, ClientMessage, resize, input, IsClientMessage, SerdeJson, IsSerdeJson, decode_client,
  encode_client,
}
use terminald.Protocol.Client.{decode_client-encode_client}
use terminald.Session.{Turn, drive_socket}
use terminald.Session.Kernel.{
  written, written-append, Served, turns_of, kernel, kernel_takes_prefix,
}
use terminald.Session.Screen.{IsPrefix, prefix-append}
use terminald.Session.Shown.{IsPrefix-trans, additive-IsPrefix}
use terminald.Session.Typed.{effect, all_asked, on_terminal, drive_socket_only_asked}
use terminald.Cli.Client.{Event, stdin, resized, Sent, send_encoded, on_event, writer_task}
use terminald.Cli.Client.Tasks.{resize_capacity, sizes_in, IsSize, Tasks, Reach}
use terminald.Cli.Client.Tasks.Delivery.{message_of, messages_of, all_typed, Reach-IsKept}
use terminald.Cli.Client.Tasks.Calls.{
  IsClientTurn, frames_of, sizes_given, sizes_given-append, written-effect, sizes_given-effect,
  typed-opening, sizes-opening, map-append, asked_of, asked_of-ok, asked_of-append,
  all_asked_frames,
}

abbrev encoded_frame : Result Bytes → List Bytes
encoded_frame (ok f) = f ∷ []
encoded_frame (err e) = []

module _ (json : SerdeJson) where
  -- The frame of the first size, which `run` sends before it starts the tasks.
  abbrev pub opening : Option Resize → List Bytes
  opening none = []
  opening (some size) = encoded_frame (encode_client json (resize size))

  opening-encode_client :
      (size : Resize) (frame : Bytes)
      → encode_client json (resize size) ≡ ok frame
      → opening (some size) ≡ frame ∷ []
  opening-encode_client size frame e = ap encoded_frame e

  -- The frames decode to a first part of the messages.
  abbrev Decode : List Bytes → List ClientMessage → Type 0
  Decode frames all =
      (ms : List ClientMessage) × IsPrefix ms all × (map (decode_client json) frames ≡ map ok ms)

  abbrev Decodes : Sent → List ClientMessage → Type 0
  Decodes sent all = Decode sent.frames all

  module _ (lawful : IsSerdeJson json) where
    send_encoded-Decodes :
        (m : ClientMessage) (answer : Result (Unit {0})) (rest : Sent) (all : List ClientMessage)
        → IsClientMessage m
        → Decodes rest all
        → Decodes (send_encoded (encode_client json m) answer rest) (m ∷ all)
    send_encoded-Decodes m (ok u) rest all h (ms, front, same) =
        let (frame, encoded, decoded) = decode_client-encode_client json lawful m h in
        rw encoded (m ∷ ms, prefix-append (m ∷ []) ms all front, rw (decoded, same) refl)
    send_encoded-Decodes m (err e) rest all h d =
        let (frame, encoded, decoded) = decode_client-encode_client json lawful m h in
        rw encoded (m ∷ [], (all, refl), rw decoded refl)

    on_event-Decodes :
        (e : Event) (answer : Result (Unit {0})) (rest : Sent) (all : List ClientMessage)
        → All IsClientMessage (message_of e)
        → Decodes rest all
        → Decodes (on_event json e answer rest) (message_of e ++ all)
    unfolding on_event
    on_event-Decodes (stdin (err e)) answer rest all h d = ([], (all, refl), refl)
    on_event-Decodes (stdin (ok [])) answer rest all h d = ([], (_, refl), refl)
    on_event-Decodes (stdin (ok (b ∷ bs))) answer rest all (h, _) d =
        send_encoded-Decodes (input (b ∷ bs)) answer rest all h d
    on_event-Decodes (resized none) answer rest all h d = ([], (all, refl), refl)
    on_event-Decodes (resized (some size)) answer rest all (h, _) d =
        send_encoded-Decodes (resize size) answer rest all h d

    writer_task-Decodes :
        (events : List (Event × Result (Unit {0})))
        → All IsClientMessage (messages_of events)
        → Decodes (writer_task json events) (messages_of events)
    unfolding writer_task
    writer_task-Decodes [] h = ([], ([], refl), refl)
    writer_task-Decodes ((e, answer) ∷ events) h =
        on_event-Decodes e answer (writer_task json events) (messages_of events)
          (All-front IsClientMessage (message_of e) (messages_of events) h)
          (writer_task-Decodes events
            (All-back IsClientMessage (message_of e) (messages_of events) h))

    opening-Decode :
        (first : Option Resize) (frames : List Bytes) (all : List ClientMessage)
        → IsSize first
        → Decode frames all
        → Decode (opening first ++ frames) (map resize (sizes_in first) ++ all)
    opening-Decode none frames all h d = d
    opening-Decode (some size) frames all h (ms, front, same) =
        let (frame, encoded, decoded) = decode_client-encode_client json lawful (resize size) h in
        subst (λ fs. Decode (fs ++ frames) (resize size ∷ all))
          (sym (opening-encode_client size frame encoded))
          (resize size ∷ ms, prefix-append (resize size ∷ []) ms all front, rw (decoded, same) refl)

    frames_ask_in_order :
        (frames : List Bytes) (all : List ClientMessage) (ts : List Turn)
        → Decode frames all
        → All IsClientTurn ts
        → IsPrefix (frames_of ts) frames
        → IsPrefix (all_asked json ts) (map effect all)
    frames_ask_in_order frames all ts (ms, part, same) client front =
        let asked_part : IsPrefix (asked_of (map (decode_client json) (frames_of ts)))
            (asked_of (map (decode_client json) frames)) =
          additive-IsPrefix (λ fs. asked_of (map (decode_client json) fs)) (asked_of-append json)
            (frames_of ts) front in
        let decoded : asked_of (map (decode_client json) frames) ≡ map effect ms =
          ap asked_of same ∙ asked_of-ok ms in
        rw (all_asked_frames json ts client) (
          IsPrefix-trans (asked_of (map (decode_client json) (frames_of ts)))
            (rw decoded at asked_part) (additive-IsPrefix (map effect) map-append ms part))

    -- Whatever calls fail, the session makes a first part of the calls that the messages ask for.
    asked_in_order :
        (alternate : Error → Bytes) (frames : List Bytes) (all : List ClientMessage)
        (ts : List Turn)
        → Decode frames all
        → All IsClientTurn ts
        → IsPrefix (frames_of ts) frames
        → IsPrefix (on_terminal (drive_socket json alternate ts).actions) (map effect all)
    asked_in_order alternate frames all ts d client front =
        IsPrefix-trans (on_terminal (drive_socket json alternate ts).actions)
          (drive_socket_only_asked json alternate ts)
          (frames_ask_in_order frames all ts d client front)

    module _ {Queue : Type 0} (chan : Channel Resize Queue)
        (orderly : IsChannel resize_capacity chan) where
      -- From the keyboard and the window of a client to the terminal of the server: however the client's
      -- tasks are interleaved, whichever calls fail on both sides, and however many frames have arrived,
      -- what the session has written to the terminal is a first part of what was typed, and the sizes
      -- that it has given the terminal are a first part of those that the window had.
      pub client_reaches_terminal :
          {s : Tasks Queue} (alternate : Error → Bytes) (first : Option Resize) (ts : List Turn)
          → Reach json chan s
          → IsSize first
          → All IsClientTurn ts
          → IsPrefix (frames_of ts) (opening first ++ (writer_task json s.events).frames)
          → IsPrefix
              (written (on_terminal (drive_socket json alternate ts).actions))
              (all_typed (messages_of s.events))
            × IsPrefix
                (sizes_given (on_terminal (drive_socket json alternate ts).actions))
                (sizes_in first ++ s.seen)
      client_reaches_terminal {s = s} alternate first ts reached h client front =
          let v = Reach-IsKept json chan orderly reached in
          let calls =
            asked_in_order alternate _ _ ts
              (opening-Decode first _ _ h (writer_task-Decodes s.events v.typed)) client front in
          let actions = on_terminal (drive_socket json alternate ts).actions in
          let all = map resize (sizes_in first) ++ messages_of s.events in
          (
            rw (written-effect all, typed-opening first (messages_of s.events)) at
                (additive-IsPrefix written written-append actions calls),
            IsPrefix-trans (sizes_given actions)
                (rw (sizes_given-effect all, sizes-opening first (messages_of s.events)) at
                  (additive-IsPrefix sizes_given sizes_given-append actions calls))
                (prefix-append (sizes_in first) _ _ (_, v.kept)),
          )

      -- Down to the system call: however the client's tasks are interleaved, and whatever `write(2)` does
      -- with each write of the session (a part of the bytes, an interruption, a full buffer or an error),
      -- the bytes that it takes are a first part of what was typed, in order and each of them once.
      pub typing_reaches_write :
          {s : Tasks Queue} (alternate : Error → Bytes) (first : Option Resize) (ss : List Served)
          → Reach json chan s
          → IsSize first
          → All IsClientTurn (turns_of ss)
          → IsPrefix (frames_of (turns_of ss)) (opening first ++ (writer_task json s.events).frames)
          → IsPrefix (kernel json alternate ss) (all_typed (messages_of s.events))
      typing_reaches_write {s = s} alternate first ss reached h client front =
          let v = Reach-IsKept json chan orderly reached in
          let asked =
            frames_ask_in_order _ _ (turns_of ss)
              (opening-Decode first _ _ h (writer_task-Decodes s.events v.typed)) client front in
          let all = map resize (sizes_in first) ++ messages_of s.events in
          IsPrefix-trans (kernel json alternate ss) (kernel_takes_prefix json alternate ss) (
            rw (written-effect all, typed-opening first (messages_of s.events)) at
              (additive-IsPrefix written written-append (all_asked json (turns_of ss)) asked))
