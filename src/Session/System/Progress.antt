-- ===== src/Session/System/Progress.antt =====
-- The steps that the two tasks make by themselves: when none is left, what has been read is on the client's
-- screen, or the loop awaits a call.
use terminald.Base.{
  arith, ℕ, suc, ◌+◌, ◌*◌, ◌≤◌, ◌<◌, [], Option, none, some, false, ◌≡◌, ◌⊎◌, inl, inr, refl,
  Option-cases, Bool-cases, sym, ◌∙◌, append-nil, length, length-append, Bytes, Error,
}
use terminald.Channel.{Channel, IsChannel}
use terminald.Protocol.{ServerMessage, output, error, exited, SerdeJson}
use terminald.Session.{Event, drive_socket}
use terminald.Session.Screen.{screen}
use terminald.Session.System.{
  channel_capacity, Phase, reading, sending, exiting, done, after_send, System, GoesOn, Step, reads,
  exits, waits, wait_fails, sends, send_fails, receives, serves, finishes, ends, drops, Reach,
  start, later,
}
use terminald.Session.System.Flow.{Reach-IsFlowing, system_loses_nothing}
use terminald.Session.System.Order.{IsOrdered, Reach-IsQueued}

-- How much the reader task has still to hand on before its next read.
abbrev pub weight : Phase → ℕ
weight reading = 0
weight (sending (output d)) = 3
weight (sending (error s)) = 7
weight (sending (exited c)) = 3
weight exiting = 4
weight done = 0

weight-after_send : (m : ServerMessage) → weight (after_send m) + 3 ≤ weight (sending m)
weight-after_send (output d) = omega arith
weight-after_send (error s) = omega arith
weight-after_send (exited c) = omega arith

weight_bound : (p : Phase) → weight p ≤ 7
weight_bound reading = omega arith
weight_bound (sending (output d)) = omega arith
weight_bound (sending (error s)) = omega arith
weight_bound (sending (exited c)) = omega arith
weight_bound exiting = omega arith
weight_bound done = omega arith

-- Whether the loop is in a handler.
abbrev pub busy : Option Event → ℕ
busy none = 0
busy (some event) = 1

busy_bound : (o : Option Event) → busy o ≤ 1
busy_bound none = omega arith
busy_bound (some event) = omega arith

module _ {Queue : Type 0} (json : SerdeJson) (alternate : Error → Bytes)
    (chan : Channel ServerMessage Queue) where
  -- A step that a task makes by itself: it needs no answer of the system, the socket or the process.
  abbrev pub IsOwn : {s t : System Queue} → Step json alternate chan s t → Type 0
  IsOwn (reads s r p) = ⊥
  IsOwn (exits s) = ⊥
  IsOwn (waits s status p over) = Unit {0}
  IsOwn (wait_fails s e p) = ⊥
  IsOwn (sends s m q p alive sent) = Unit {0}
  IsOwn (send_fails s m p g) = ⊥
  IsOwn (receives s m q on free got) = Unit {0}
  IsOwn (serves s item on free) = ⊥
  IsOwn (finishes s event answer on held) = ⊥
  IsOwn (ends s answer on free p got) = ⊥
  IsOwn (drops s off) = ⊥

  -- A step that hands on what was read already: one of those, or a call of the loop that returns.
  abbrev pub IsInner : {s t : System Queue} → Step json alternate chan s t → Type 0
  IsInner (reads s r p) = ⊥
  IsInner (exits s) = ⊥
  IsInner (waits s status p over) = Unit {0}
  IsInner (wait_fails s e p) = ⊥
  IsInner (sends s m q p alive sent) = Unit {0}
  IsInner (send_fails s m p g) = ⊥
  IsInner (receives s m q on free got) = Unit {0}
  IsInner (serves s item on free) = ⊥
  IsInner (finishes s event answer on held) = Unit {0}
  IsInner (ends s answer on free p got) = ⊥
  IsInner (drops s off) = ⊥

  pub data Inner : ℕ → System Queue → System Queue → Type 0 where
    rest : {s : System Queue} → Inner 0 s s
    more :
        {n : ℕ} {s t u : System Queue} (step : Step json alternate chan s t)
        → IsInner step
        → Inner n t u
        → Inner (suc n) s u

  abbrev pub load : System Queue → ℕ
  load s = weight s.phase + 2 * length (chan.contents s.queue) + busy s.handling

  module _ (lawful : IsChannel channel_capacity chan) where
    pub Inner-load :
        {s t : System Queue} (step : Step json alternate chan s t) → IsInner step → load t < load s
    Inner-load (reads s r p) h = absurd h
    Inner-load (exits s) h = absurd h
    Inner-load (waits s status p over) h = rw p (omega arith)
    Inner-load (wait_fails s e p) h = absurd h
    Inner-load (sends s m q p alive sent) h =
        let w = weight-after_send m in
        rw (p, lawful.sends_behind m s.queue q sent, length-append) (omega arith)
    Inner-load (send_fails s m p g) h = absurd h
    Inner-load (receives s m q on free got) h =
        rw (free, lawful.receives_first m s.queue q got) (omega arith)
    Inner-load (serves s item on free) h = absurd h
    Inner-load (finishes s event answer on held) h = rw held (omega arith)
    Inner-load (ends s answer on free p got) h = absurd h
    Inner-load (drops s off) h = absurd h

    Inner-load_bound : {n : ℕ} {s t : System Queue} → Inner n s t → n ≤ load s
    Inner-load_bound rest = omega arith
    Inner-load_bound (more step h run) =
        let less = Inner-load step h in let others = Inner-load_bound run in omega arith

    Step-bounded :
        {s t : System Queue}
        → Step json alternate chan s t
        → length (chan.contents s.queue) ≤ channel_capacity
        → length (chan.contents t.queue) ≤ channel_capacity
    Step-bounded (reads s r p) h = h
    Step-bounded (exits s) h = h
    Step-bounded (waits s status p over) h = h
    Step-bounded (wait_fails s e p) h = h
    Step-bounded (sends s m q p alive sent) h = lawful.stays_bounded m s.queue q sent
    Step-bounded (send_fails s m p g) h = h
    Step-bounded (receives s m q on free got) h =
        let less = (rw (lawful.receives_first m s.queue q got) at h) in omega arith
    Step-bounded (serves s item on free) h = h
    Step-bounded (finishes s event answer on held) h = h
    Step-bounded (ends s answer on free p got) h = h
    Step-bounded (drops s off) h = h

    Reach-bounded :
        {s : System Queue}
        → Reach json alternate chan s
        → length (chan.contents s.queue) ≤ channel_capacity
    Reach-bounded start = rw lawful.starts_empty (omega arith)
    Reach-bounded (later reached step) = Step-bounded step (Reach-bounded reached)

    -- Between two events of the outside, the two tasks make at most 72 steps that hand on messages.
    pub Inner-bounded :
        {n : ℕ} {s t : System Queue}
        → Reach json alternate chan s
        → Inner n s t
        → n ≤ 2 * channel_capacity + 8
    Inner-bounded {s = s} reached run =
        let bounded = Reach-bounded reached in
        let steps = Inner-load_bound run in
        let phase = weight_bound s.phase in let hand = busy_bound s.handling in omega arith

    -- The reader task waits for the terminal, or for the exit of a process that runs.
    abbrev pub WaitsOutside : System Queue → Phase → Type 0
    WaitsOutside s p = (p ≡ reading) ⊎ ((p ≡ exiting) × (s.child_ended ≡ false))

    settled_phase :
        (s : System Queue) (p : Phase)
        → s.phase ≡ p
        → s.gone ≡ false
        → chan.contents s.queue ≡ []
        → IsOrdered p []
        → ((t : System Queue) (step : Step json alternate chan s t) → ¬ IsOwn step)
        → WaitsOutside s p
    settled_phase s reading e alive empty ordered stuck = inl refl
    settled_phase s (sending m) e alive empty ordered stuck =
        elim (Option-cases (chan.send m s.queue)) [
          | inl idle ↦
              let full = (rw empty at (lawful.waits_when_full m s.queue idle)) in
              absurd (omega arith)
          | inr (q, sent) ↦ absurd (stuck _ (sends s m q e alive sent) tt)
        ]
    settled_phase s exiting e alive empty ordered stuck = elim (Bool-cases s.child_ended) [
      | inl over ↦ absurd (stuck _ (waits s none e over) tt)
      | inr runs ↦ inr (refl, runs)
    ]
    settled_phase s done e alive empty ordered stuck = absurd ordered

    pub alive-GoesOn :
        {s : System Queue}
        → Reach json alternate chan s
        → GoesOn json alternate s.turns
        → s.gone ≡ false
    alive-GoesOn {s = s} reached on = elim (Bool-cases s.gone) [
      | inl gone ↦ absurd ((Reach-IsFlowing json alternate chan lawful reached).left gone on)
      | inr alive ↦ alive
    ]

    empty-stuck :
        {s : System Queue}
        → GoesOn json alternate s.turns
        → s.handling ≡ none
        → ((t : System Queue) (step : Step json alternate chan s t) → ¬ IsOwn step)
        → chan.contents s.queue ≡ []
    empty-stuck {s = s} on free stuck = elim (Option-cases (chan.recv s.queue)) [
      | inl idle ↦ lawful.waits_when_empty s.queue idle
      | inr ((m, q), got) ↦ absurd (stuck _ (receives s m q on free got) tt)
    ]

    -- All that was read is on the screen when nothing is under way.
    shown_at_rest :
        {s : System Queue} (p : Phase)
        → s.phase ≡ p
        → Reach json alternate chan s
        → GoesOn json alternate s.turns
        → s.handling ≡ none
        → chan.contents s.queue ≡ []
        → WaitsOutside s p
        → screen (drive_socket json alternate s.turns).actions ≡ s.taken
    shown_at_rest {s = s} p e reached on free empty (inl h) =
        let kept = system_loses_nothing json alternate chan lawful reached on in
        sym (append-nil _) ∙ (rw (free, empty, e, h) at kept)
    shown_at_rest {s = s} p e reached on free empty (inr (h, runs)) =
        let kept = system_loses_nothing json alternate chan lawful reached on in
        sym (append-nil _) ∙ (rw (free, empty, e, h) at kept)

    -- The tasks never block each other at the channel: while the loop goes on and neither task can make a
    -- step by itself, the loop is in a handler and awaits its call on the socket or the terminal, or the
    -- reader task waits for the terminal or for the exit of a process that runs, and all that was read is
    -- on the client's screen.
    pub settled_shows_all :
        {s : System Queue}
        → Reach json alternate chan s
        → GoesOn json alternate s.turns
        → ((t : System Queue) (step : Step json alternate chan s t) → ¬ IsOwn step)
        → ((event : Event) × (s.handling ≡ some event))
          ⊎ (WaitsOutside s s.phase
              × (screen (drive_socket json alternate s.turns).actions ≡ s.taken))
    settled_shows_all {s = s} reached on stuck = elim (Option-cases s.handling) [
      | inl free ↦
          let empty = empty-stuck on free stuck in
          let ordered =
            (rw (free, empty) at (Reach-IsQueued json alternate chan lawful reached on)) in
          let outside =
            settled_phase s s.phase refl (alive-GoesOn reached on) empty ordered stuck in
          inr (outside, shown_at_rest s.phase refl reached on free empty outside)
      | inr held ↦ inl held
    ]
