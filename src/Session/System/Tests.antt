-- ===== src/Session/System/Tests.antt =====
-- A session over a list as the channel: the prompt on its way, and the exit that is received.
use terminald.Base.Int.{pos}
use terminald.Base.{
  List, [], ◌∷◌, ◌++◌, none, some, true, false, ◌⊎◌, ◌≡◌, refl, codes, Bytes, Error, ok,
}
use terminald.Channel.{Channel, IsChannel}
use terminald.Channel.Tests.{bounded_list, bounded_list-IsChannel}
use terminald.Protocol.{ServerMessage, output, exited, encode_server}
use terminald.Protocol.Tests.{two_numbers}
use terminald.Session.{Event, send, binary, received, Turn, drive_socket, turn, forward, exit_code}
use terminald.Session.Screen.{outputs_of, screen}
use terminald.Session.System.{
  channel_capacity, reading, sending, exiting, done, System, init, GoesOn, take_turn, Step, reads,
  exits, waits, wait_fails, sends, send_fails, serves, finishes, ends, drops, receives, Reach,
  start, later,
}
use terminald.Session.System.Flow.{system_loses_nothing}
use terminald.Session.System.Order.{exit_shows_all}
use terminald.Session.System.Progress.{IsOwn, WaitsOutside, settled_shows_all}

abbrev Queue : Type 0
Queue = List ServerMessage

abbrev pub bounded : Channel ServerMessage (List ServerMessage)
bounded = bounded_list channel_capacity

pub bounded-IsChannel : IsChannel channel_capacity bounded
bounded-IsChannel = bounded_list-IsChannel channel_capacity

abbrev pub plain : Error → Bytes
plain e = codes "error"

abbrev pub prompt : ServerMessage
prompt = output (codes "$ ")

abbrev pub shown : List Turn
shown = take_turn (received prompt) (ok tt) []

abbrev pub about_to_send : System Queue
about_to_send = record {
  phase = sending prompt;
  taken = codes "$ ";
  queue = [];
  turns = [];
  handling = none;
  child_ended = false;
  gone = false;
}

abbrev pub prompt_queued : System Queue
prompt_queued = record about_to_send { phase = reading; queue = prompt ∷ [] }

abbrev pub prompt_in_hand : System Queue
prompt_in_hand = record prompt_queued { queue = []; handling = some (received prompt) }

abbrev pub prompt_shown : System Queue
prompt_shown = record prompt_in_hand { turns = shown; handling = none }

abbrev shell_gone : System Queue
shell_gone = record prompt_shown { phase = exiting; child_ended = true }

abbrev ended : System Queue
ended = record shell_gone { phase = done; queue = exited (pos 0) ∷ [] }

no_turns-GoesOn : GoesOn two_numbers plain []
unfolding drive_socket
no_turns-GoesOn = refl

shown-GoesOn : GoesOn two_numbers plain shown
unfolding drive_socket turn forward
shown-GoesOn = refl

pub shown_actions :
    (drive_socket two_numbers plain shown).actions ≡ send (binary (2 ∷ codes "$ ")) ∷ []
unfolding drive_socket turn forward encode_server
shown_actions = refl

about_to_send_reached : Reach two_numbers plain bounded about_to_send
about_to_send_reached = later start (reads (init bounded) (ok (codes "$ ")) refl)

abbrev send_prompt : Step two_numbers plain bounded about_to_send prompt_queued
send_prompt = sends about_to_send prompt (prompt ∷ []) refl refl refl

abbrev receive_prompt : Step two_numbers plain bounded prompt_queued prompt_in_hand
receive_prompt = receives prompt_queued prompt [] no_turns-GoesOn refl refl

abbrev show_prompt : Step two_numbers plain bounded prompt_in_hand prompt_shown
show_prompt = finishes prompt_in_hand (received prompt) (ok tt) no_turns-GoesOn refl

pub prompt_shown_reached : Reach two_numbers plain bounded prompt_shown
prompt_shown_reached =
    later (later (later about_to_send_reached send_prompt) receive_prompt) show_prompt

ended_reached : Reach two_numbers plain bounded ended
unfolding exit_code
ended_reached =
    later
      (later
        (later (later prompt_shown_reached (reads prompt_shown (ok []) refl))
          (exits (record prompt_shown { phase = exiting })))
        (waits shell_gone (some (pos 0)) refl refl))
      (sends (record shell_gone { phase = sending (exited (pos 0)) }) (exited (pos 0))
        (exited (pos 0) ∷ []) refl refl refl)

-- The prompt is in the channel.
system_loses_nothing_example :
    screen (drive_socket two_numbers plain []).actions ++ (outputs_of (prompt ∷ []) ++ [])
    ≡ codes "$ "
system_loses_nothing_example =
    system_loses_nothing two_numbers plain bounded bounded-IsChannel
      (later about_to_send_reached send_prompt) no_turns-GoesOn

exit_shows_all_example :
    (done ≡ done)
    × (bounded.contents [] ≡ [])
    × (screen (drive_socket two_numbers plain shown).actions ≡ codes "$ ")
exit_shows_all_example =
    exit_shows_all two_numbers plain bounded bounded-IsChannel (pos 0) [] ended_reached shown-GoesOn
      refl refl

-- The reader task waits for the terminal and the channel is empty.
idle :
    {s : System Queue}
    → s.phase ≡ reading
    → s.queue ≡ []
    → (t : System Queue) (step : Step two_numbers plain bounded s t)
    → ¬ IsOwn two_numbers plain bounded step
idle reads_next empty _ (reads s r p) h = h
idle reads_next empty _ (exits s) h = h
idle reads_next empty _ (waits s status p over) h = cc
idle reads_next empty _ (wait_fails s e p) h = h
idle reads_next empty _ (sends s m q p alive sent) h = cc
idle reads_next empty _ (send_fails s m p g) h = h
idle reads_next empty _ (receives s m q on free got) h = let taken = (rw empty at got) in cc
idle reads_next empty _ (serves s item on free) h = h
idle reads_next empty _ (finishes s event answer on held) h = h
idle reads_next empty _ (ends s answer on free p got) h = h
idle reads_next empty _ (drops s off) h = h

settled_shows_all_example :
    ((event : Event) × (none ≡ some event))
    ⊎ (WaitsOutside two_numbers plain bounded bounded-IsChannel prompt_shown reading
        × (screen (drive_socket two_numbers plain shown).actions ≡ codes "$ "))
settled_shows_all_example =
    settled_shows_all two_numbers plain bounded bounded-IsChannel prompt_shown_reached shown-GoesOn
      (idle refl refl)
