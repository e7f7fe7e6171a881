-- ===== src/Pty/Locking/Tests.antt =====
-- A child that closes its terminal and goes on: the reader of the session waits for it, and then the
-- client leaves.
use terminald.Base.{true, false, ◌≡◌, ◌≢◌, refl, inl}
use terminald.Pty.Locking.{
  waiter, waiting, wants_to_end, ended, Shared, wait_called, wait_locks, terminate_called, Reach,
  here, and_then, spawned,
}
use terminald.Pty.Locking.Exclusion.{IsHeldUp, terminate_held_up}

abbrev reader_waits : Shared
reader_waits = record spawned { holder = waiter; wait_phase = waiting }

reader_waits_reached : Reach spawned reader_waits
reader_waits_reached = and_then (and_then here (wait_called _ refl)) (wait_locks _ refl refl refl)

reader_waits-IsHeldUp : IsHeldUp reader_waits
reader_waits-IsHeldUp = record { runs = refl; waits = refl; held = refl; outside = inl refl }

abbrev client_left : Shared
client_left = record reader_waits { end_phase = wants_to_end; cleanup_started = true }

client_left_reached : Reach reader_waits client_left
client_left_reached = and_then here (terminate_called reader_waits refl refl)

terminate_held_up_example :
    (client_left.wait_phase ≡ waiting)
    × (client_left.signalled ≡ false)
    × (client_left.end_phase ≢ ended)
terminate_held_up_example =
    terminate_held_up reader_waits client_left reader_waits-IsHeldUp client_left_reached refl
      (λ e. cc)
