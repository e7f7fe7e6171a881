-- ===== src/Session/System/Flow.antt =====
-- What flows from the terminal to the client while both tasks run.
use terminald.Base.{
  List, [], ◌∷◌, append_assoc, ◌++◌, true, false, ◌≡◌, inl, inr, refl, Bool-cases, ◌∙◌, append-nil,
  Bytes, Error, Result,
}
use terminald.Channel.{Channel, IsChannel}
use terminald.Protocol.{ServerMessage, SerdeJson}
use terminald.Session.{all_ended, drive_socket}
use terminald.Session.Screen.{
  output_of, outputs_of, screen, received_of, received_by, IsPrefix, drive_socket-Shows,
}
use terminald.Session.Shown.{outputs_of-append, IsPrefix-trans}
use terminald.Session.System.{
  channel_capacity, reading, after_read, bytes_read, System, init, GoesOn, Step, reads, exits,
  waits, wait_fails, sends, send_fails, receives, serves, finishes, ends, drops, Reach, start,
  later,
}
use terminald.Session.System.Places.{
  pending, in_hand, Intact, outputs_of-take_turn, pending-after_read, after_read-Intact,
  pending-after_send, after_send-Intact, pending-after_failure, after_failure-Intact, move_read,
  move_sent, move_received,
}

module _ {Queue : Type 0} (json : SerdeJson) (alternate : Error → Bytes)
    (chan : Channel ServerMessage Queue) where
  -- The messages that the client has not been shown: in the hand of the loop and in the channel.
  abbrev pub unshown : System Queue → List ServerMessage
  unshown s = in_hand s.handling ++ chan.contents s.queue

  -- The terminal's bytes where they are: shown by the loop, not shown yet, and with the reader.
  abbrev pub flow : System Queue → Bytes → Bytes
  flow s lost =
      outputs_of (received_of s.turns) ++ (outputs_of (unshown s) ++ (pending s.phase ++ lost))

  pub record IsFlowing (s : System Queue) : Type 0 where
    pub lost : Bytes
    pub kept : flow s lost ≡ s.taken
    pub intact : Intact s.phase lost
    pub alive : s.gone ≡ false → lost ≡ []
    pub left : s.gone ≡ true → ¬ GoesOn json alternate s.turns

  module _ (lawful : IsChannel channel_capacity chan) where
    init-IsFlowing : IsFlowing (init chan)
    init-IsFlowing = record {
      lost = [];
      kept = rw lawful.starts_empty;
      intact = refl;
      alive = λ e. refl;
      left = λ e. cc;
    }

    reads-IsFlowing :
        (s : System Queue) (r : Result Bytes)
        → s.phase ≡ reading
        → IsFlowing s
        → IsFlowing (record s { phase = after_read alternate r; taken = s.taken ++ bytes_read r })
    reads-IsFlowing s r p v = record {
      lost = [];
      kept =
          rw (pending-after_read alternate r)
            (move_read _ _ (bytes_read r) v.lost s.taken (rw p at v.kept) (rw p at v.intact));
      intact = after_read-Intact alternate r;
      alive = λ e. refl;
      left = v.left;
    }

    Step-IsFlowing : {s t : System Queue} → Step json alternate chan s t → IsFlowing s → IsFlowing t
    Step-IsFlowing (reads s r p) v = reads-IsFlowing s r p v
    Step-IsFlowing (exits s) v = record {
      lost = v.lost;
      kept = v.kept;
      intact = v.intact;
      alive = v.alive;
      left = v.left;
    }
    Step-IsFlowing (waits s status p over) v = record {
      lost = v.lost;
      kept = rw p at v.kept;
      intact = tt;
      alive = v.alive;
      left = v.left;
    }
    Step-IsFlowing (wait_fails s e p) v = record {
      lost = v.lost;
      kept = rw p at v.kept;
      intact = tt;
      alive = v.alive;
      left = v.left;
    }
    Step-IsFlowing (sends s m q p alive sent) v = record {
      lost = v.lost;
      kept =
          rw
            (
              lawful.sends_behind m s.queue q sent,
              ← append_assoc (in_hand s.handling) (chan.contents s.queue) (m ∷ []),
              outputs_of-append (unshown s),
              pending-after_send m,
            )
            (move_sent _ (outputs_of (unshown s)) (output_of m) v.lost ∙ (rw p at v.kept));
      intact = after_send-Intact m v.lost (rw p at v.intact);
      alive = v.alive;
      left = v.left;
    }
    Step-IsFlowing (send_fails s m p g) v = record {
      lost = output_of m ++ v.lost;
      kept = rw (pending-after_failure m) (rw p at v.kept);
      intact = after_failure-Intact m _;
      alive = λ e. cc;
      left = v.left;
    }
    Step-IsFlowing (receives s m q on free got) v = record {
      lost = v.lost;
      kept = rw (free, lawful.receives_first m s.queue q got) at v.kept;
      intact = v.intact;
      alive = v.alive;
      left = λ e. absurd (v.left e on);
    }
    Step-IsFlowing (serves s item on free) v = record {
      lost = v.lost;
      kept = rw free at v.kept;
      intact = v.intact;
      alive = v.alive;
      left = λ e. absurd (v.left e on);
    }
    Step-IsFlowing (finishes s event answer on busy) v = record {
      lost = v.lost;
      kept = rw (outputs_of-take_turn event answer s.turns) (
          move_received _ (outputs_of (received_by event)) (outputs_of (chan.contents s.queue)) _
          ∙ (rw (busy, outputs_of-append (received_by event)) at v.kept));
      intact = v.intact;
      alive = v.alive;
      left = λ e. absurd (v.left e on);
    }
    Step-IsFlowing (ends s answer on free p got) v = record {
      lost = v.lost;
      kept = rw (outputs_of-take_turn all_ended answer s.turns, append-nil) v.kept;
      intact = v.intact;
      alive = v.alive;
      left = λ e. absurd (v.left e on);
    }
    Step-IsFlowing (drops s off) v = record {
      lost = v.lost;
      kept = v.kept;
      intact = v.intact;
      alive = λ e. cc;
      left = λ e. off;
    }

    pub Reach-IsFlowing : {s : System Queue} → Reach json alternate chan s → IsFlowing s
    Reach-IsFlowing start = init-IsFlowing
    Reach-IsFlowing (later reached step) = Step-IsFlowing step (Reach-IsFlowing reached)

    -- While the loop goes on, nothing has been lost.
    pub lost-GoesOn :
        {s : System Queue} (v : IsFlowing s) → GoesOn json alternate s.turns → v.lost ≡ []
    lost-GoesOn {s = s} v on = elim (Bool-cases s.gone) [
      | inl gone ↦ absurd (v.left gone on)
      | inr alive ↦ v.alive alive
    ]

    -- However the two tasks are interleaved and whichever calls fail, the client is shown a prefix of all
    -- that was read from the terminal.
    pub system_shows_prefix :
        {s : System Queue}
        → Reach json alternate chan s
        → IsPrefix (screen (drive_socket json alternate s.turns).actions) s.taken
    system_shows_prefix {s = s} reached =
        let v = Reach-IsFlowing reached in
        IsPrefix-trans _ (drive_socket-Shows json alternate s.turns).0 (_, v.kept)

    -- While the loop goes on, every byte that was read from the terminal is on the client's screen, in the
    -- message that the loop is sending, in the channel, or in the message that the reader task waits to
    -- send, in this order.
    pub system_loses_nothing :
        {s : System Queue}
        → Reach json alternate chan s
        → GoesOn json alternate s.turns
        → screen (drive_socket json alternate s.turns).actions
            ++ (outputs_of (unshown s) ++ pending s.phase)
          ≡ s.taken
    system_loses_nothing {s = s} reached on =
        let v = Reach-IsFlowing reached in
        rw ((drive_socket-Shows json alternate s.turns).1 on)
          (rw (lost-GoesOn v on, append-nil) at v.kept)
