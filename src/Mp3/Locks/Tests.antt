-- ===== src/Mp3/Locks/Tests.antt =====
-- The caller of `Play` at `state_mutex_m`, and a state before it.
use rpi_tcp_listener.Base.{refl, false, arith}
use rpi_tcp_listener.Mp3.Locks.{
  play_call, wants_state, Threads, at_rest, calls, Run, begin, then_step,
}
use rpi_tcp_listener.Mp3.Locks.Order.{IsOrdered}
use rpi_tcp_listener.Mp3.Locks.Deadlock.{Moves, Run-IsOrdered, Run-Moves}

abbrev wanting : Threads
wanting = record at_rest { call = wants_state play_call }

abbrev wanting_run : Run false wanting
wanting_run = then_step begin (calls at_rest play_call refl)

Run-IsOrdered_example : IsOrdered wanting
Run-IsOrdered_example = Run-IsOrdered wanting_run

Run-Moves_example : Moves wanting
Run-Moves_example = Run-Moves wanting_run (λ e. ground arith)
