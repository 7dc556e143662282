-- ===== src/Tests/Socket.antt =====
-- A socket that drops, retries, and outlives its run.
use sentinal.Base.{ℕ, ◌≡◌, refl, some}
use sentinal.Socket.{
  Socket, Hook, starts, stops, Reach, here, next, init, connect, start, stop, on_open, delay,
}
use sentinal.Socket.Retry.{Holds, close_held, outage, outage-delay}
use sentinal.Socket.Alive.{IsAlive, Reach-init-IsAlive}

abbrev streaming : Hook ℕ
streaming = start (some "ws://gw/ws") init

abbrev first_socket : Socket
first_socket = record { id = 0; epoch = 1 }

abbrev holds : Holds streaming
holds = record {
  socket = first_socket;
  held = unfold start connect init in refl;
  runs = unfold start connect init in refl;
  owned = unfold start connect init in refl;
}

outage-delay_example :
    (close_held (outage 4 (on_open holds.socket streaming))).retry_timer ≡ some (delay 4)
outage-delay_example = outage-delay 4 streaming holds

-- The hook starts, is stopped and starts again before the first socket's close has arrived.
abbrev restarted : Hook ℕ
restarted = start (some "ws://gw/ws") (stop streaming)

restarts : Reach init restarted
unfolding init stop
restarts =
    next (next (next here (starts (some "ws://gw/ws") init refl)) (stops streaming))
      (starts (some "ws://gw/ws") (stop streaming) refl)

Reach-init-IsAlive_example : IsAlive restarted
Reach-init-IsAlive_example = Reach-init-IsAlive restarted restarts
