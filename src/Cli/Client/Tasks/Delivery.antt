-- ===== src/Cli/Client/Tasks/Delivery.antt =====
-- From the input and the window of a client to the terminal of the server.
use terminald.Base.{
  List, [], ◌∷◌, ◌++◌, append_assoc, append-nil, Option, none, some, ◌≡◌, refl, sym, ap, subst, ◌∙◌,
  Bytes, All, All-append, All-front, All-back, Result, ok, err,
}
use terminald.Channel.{Channel, IsChannel}
use terminald.Protocol.{Resize, IsResize, ClientMessage, resize, input, IsClientMessage, SerdeJson}
use terminald.Cli.Client.{Event, stdin, resized}
use terminald.Cli.Client.Tasks.{
  watches, writes, resize_capacity, current_size, Watcher, watching, sending, after_signal,
  sizes_in, IsRead, IsSize, Tasks, init, Goes, Step, signalled, sends, send_fails, reads,
  takes_size, aborts, Reach, start, later,
}

-- The messages that the events of the writer task ask it to send.
abbrev pub message_of : Event → List ClientMessage
message_of (stdin (ok d)) = input d ∷ []
message_of (stdin (err e)) = []
message_of (resized none) = []
message_of (resized (some size)) = resize size ∷ []

abbrev pub messages_of : List (Event × Result (Unit {0})) → List ClientMessage
messages_of [] = []
messages_of ((e, answer) ∷ events) = message_of e ++ messages_of events

-- What was typed, and the sizes that were taken from the channel.
abbrev pub typed_by : ClientMessage → Bytes
typed_by (input d) = d
typed_by (resize size) = []

abbrev pub sized_by : ClientMessage → List Resize
sized_by (input d) = []
sized_by (resize size) = size ∷ []

abbrev pub all_typed : List ClientMessage → Bytes
all_typed [] = []
all_typed (m ∷ ms) = typed_by m ++ all_typed ms

abbrev pub all_sizes : List ClientMessage → List Resize
all_sizes [] = []
all_sizes (m ∷ ms) = sized_by m ++ all_sizes ms

abbrev pub held : Watcher → List Resize
held watching = []
held (sending size) = size ∷ []

messages_of-append :
    (es fs : List (Event × Result (Unit {0})))
    → messages_of (es ++ fs) ≡ messages_of es ++ messages_of fs
messages_of-append [] fs = refl
messages_of-append ((e, a) ∷ es) fs =
    ap (λ l. message_of e ++ l) (messages_of-append es fs)
    ∙ sym (append_assoc (message_of e) (messages_of es) (messages_of fs))

pub all_sizes-append :
    (ms ns : List ClientMessage) → all_sizes (ms ++ ns) ≡ all_sizes ms ++ all_sizes ns
all_sizes-append [] ns = refl
all_sizes-append (m ∷ ms) ns =
    ap (λ l. sized_by m ++ l) (all_sizes-append ms ns)
    ∙ sym (append_assoc (sized_by m) (all_sizes ms) (all_sizes ns))

pub all_typed-append :
    (ms ns : List ClientMessage) → all_typed (ms ++ ns) ≡ all_typed ms ++ all_typed ns
all_typed-append [] ns = refl
all_typed-append (m ∷ ms) ns =
    ap (λ l. typed_by m ++ l) (all_typed-append ms ns)
    ∙ sym (append_assoc (typed_by m) (all_typed ms) (all_typed ns))

held-after_signal : (size : Option Resize) → held (after_signal size) ≡ sizes_in size
held-after_signal none = refl
held-after_signal (some size) = refl

sizes_in-IsSize : (size : Option Resize) → IsSize size → All IsResize (sizes_in size)
sizes_in-IsSize none h = tt
sizes_in-IsSize (some size) h = (h, tt)

all_sizes-stdin : (read : Result Bytes) → all_sizes (message_of (stdin read)) ≡ []
all_sizes-stdin (ok d) = refl
all_sizes-stdin (err e) = refl

stdin-IsRead : (read : Result Bytes) → IsRead read → All IsClientMessage (message_of (stdin read))
stdin-IsRead (ok d) h = (h, tt)
stdin-IsRead (err e) h = tt

-- The messages and the sizes of the events with one more.
messages_of-event :
    (es : List (Event × Result (Unit {0}))) (e : Event) (answer : Result (Unit {0}))
    → messages_of (es ++ (e, answer) ∷ []) ≡ messages_of es ++ message_of e
messages_of-event es e answer =
    messages_of-append es ((e, answer) ∷ [])
    ∙ ap (λ l. messages_of es ++ l) (append-nil (message_of e))

all_sizes-event :
    (es : List (Event × Result (Unit {0}))) (e : Event) (answer : Result (Unit {0}))
    → all_sizes (messages_of (es ++ (e, answer) ∷ []))
      ≡ all_sizes (messages_of es) ++ all_sizes (message_of e)
all_sizes-event es e answer =
    ap all_sizes (messages_of-event es e answer) ∙ all_sizes-append (messages_of es) (message_of e)

-- A size that is seen.
move_seen :
    (a c l h seen : List Resize) → a ++ (c ++ (l ++ [])) ≡ seen → a ++ (c ++ (l ++ h)) ≡ seen ++ h
move_seen a c l h seen e = simp (sym e, append_assoc, append-nil)

module _ {Queue : Type 0} (json : SerdeJson) (chan : Channel Resize Queue) where
  -- The sizes where they are: taken by the writer task, in the channel, given up, and with the watcher.
  abbrev pub places : Tasks Queue → List Resize → List Resize
  places s lost =
      all_sizes (messages_of s.events) ++ (chan.contents s.queue ++ (lost ++ held s.watcher))

  pub record IsKept (s : Tasks Queue) : Type 0 where
    pub lost : List Resize
    pub kept : places s lost ≡ s.seen
    pub going : Goes json s → lost ≡ []
    pub typed : All IsClientMessage (messages_of s.events)
    pub sized : All IsResize s.seen

  module _ (lawful : IsChannel resize_capacity chan) where
    init-IsKept : IsKept (init chan)
    init-IsKept = record {
      lost = [];
      kept = rw lawful.starts_empty refl;
      going = λ e. refl;
      typed = tt;
      sized = tt;
    }

    first-IsResize :
        (s : Tasks Queue)
        → IsKept s
        → (size : Resize) (q : Queue) → chan.recv s.queue ≡ some (size, q)
        → IsResize size
    first-IsResize s v size q got =
        let sizes = all_sizes (messages_of s.events) in
        let sized = subst (All IsResize) (sym v.kept) v.sized in
        let queued =
          All-front IsResize (chan.contents s.queue) _ (All-back IsResize sizes _ sized) in
        (rw (lawful.receives_first size s.queue q got) at queued).0

    Step-IsKept : {s t : Tasks Queue} → Step json chan s t → IsKept s → IsKept t
    Step-IsKept (watches (signalled s size p h)) v = record {
      lost = v.lost;
      kept =
          rw (held-after_signal (current_size size))
            (move_seen _ (chan.contents s.queue) v.lost _ s.seen (rw p at v.kept));
      going = v.going;
      typed = v.typed;
      sized = All-append IsResize s.seen _ v.sized (sizes_in-IsSize (current_size size) h);
    }
    Step-IsKept (watches (sends s size q p on sent)) v = record {
      lost = [];
      kept =
          rw (lawful.sends_behind size s.queue q sent, append-nil) (rw (p, v.going on) at v.kept);
      going = λ e. refl;
      typed = v.typed;
      sized = v.sized;
    }
    Step-IsKept (watches (send_fails s size p off)) v = record {
      lost = v.lost ++ size ∷ [];
      kept = rw append-nil (rw p at v.kept);
      going = λ on. absurd (off on);
      typed = v.typed;
      sized = v.sized;
    }
    Step-IsKept (writes (reads s read answer on h)) v = record {
      lost = v.lost;
      kept =
          rw (all_sizes-event s.events (stdin read) answer, all_sizes-stdin read, append-nil)
            v.kept;
      going = λ _. v.going on;
      typed =
          rw (messages_of-event s.events (stdin read) answer)
            (All-append IsClientMessage (messages_of s.events) _ v.typed (stdin-IsRead read h));
      sized = v.sized;
    }
    Step-IsKept (writes (takes_size s size q answer on got)) v = record {
      lost = v.lost;
      kept =
          rw (all_sizes-event s.events (resized (some size)) answer, append_assoc)
            (rw (lawful.receives_first size s.queue q got) at v.kept);
      going = λ _. v.going on;
      typed = rw (messages_of-event s.events (resized (some size)) answer) (
          All-append IsClientMessage (messages_of s.events) _ v.typed
            (first-IsResize s v size q got, tt));
      sized = v.sized;
    }
    Step-IsKept (aborts s) v = record {
      lost = v.lost;
      kept = v.kept;
      going = λ on. let stopped = on.1 in cc;
      typed = v.typed;
      sized = v.sized;
    }

    pub Reach-IsKept : {s : Tasks Queue} → Reach json chan s → IsKept s
    Reach-IsKept start = init-IsKept
    Reach-IsKept (later reached step) = Step-IsKept step (Reach-IsKept reached)
