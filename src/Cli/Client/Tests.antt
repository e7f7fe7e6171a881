-- ===== src/Cli/Client/Tests.antt =====
-- The prompt of a shell on a client's screen.
use terminald.Base.{ℕ, ◌≡◌, refl, List, [], ◌∷◌, codes, ok, sym}
use terminald.Pty.Io.{ReadAnswer, got, read_failed, Turn, read, read_pty}
use terminald.Pty.Io.Stream.{reads, given}
use terminald.Protocol.Tests.{two_numbers}
use terminald.Session.{Action, WsMessage, send}
use terminald.Session.System.Tests.{
  bounded, bounded-IsChannel, plain, prompt_shown_reached, shown_actions,
}
use terminald.Cli.Client.{Answers, read_loop}
use terminald.Cli.Client.Shown.{arrivals, stdout, IsShown, terminal_reaches_client}

-- The frame of the prompt, and an output that takes everything.
abbrev seen : List (Action × Answers)
seen = (send (WsMessage.binary (2 ∷ codes "$ ")), record { written = ok tt; flushed = ok tt }) ∷ []

-- The kernel gives the prompt in a read that was interrupted, behind a round that would block.
abbrev given_prompt : List (Turn ReadAnswer)
given_prompt =
    record { ready = ok tt; answers = read_failed 11 ∷ [] }
    ∷ record { ready = ok tt; answers = read_failed 4 ∷ got (codes "$ ") ∷ [] }
    ∷ []

abbrev one : ℕ
one = 1

prompt_read : codes "$ " ≡ reads one given_prompt
unfolding read read_pty
prompt_read = refl

terminal_reaches_client_example :
    IsShown (given given_prompt) (stdout (read_loop (arrivals seen)).calls)
terminal_reaches_client_example =
    terminal_reaches_client two_numbers plain bounded bounded-IsChannel one given_prompt seen
      prompt_shown_reached prompt_read ([], sym shown_actions)
