-- ===== src/Mp3/Destructor.antt =====
-- src/mp3/mp3/mp3_player.cpp: what `~Mp3Player` leaves.
use rpi_tcp_listener.Base.{◌≡◌, false, none, arith}
use rpi_tcp_listener.Mp3.Types.{Io, Player}
use rpi_tcp_listener.Mp3.Calls.{stop}
use rpi_tcp_listener.Mp3.Thread.{auto_stop, delete_player}
use rpi_tcp_listener.Mp3.Wellformed.{IsWellformed}
use rpi_tcp_listener.Mp3.Leaks.{HoldsAll}

-- When the pointers of a well-formed player name all that is allocated, its destructor gives back
-- every handle, buffer and device, and no thread is left to be joined.
pub delete_player-frees :
    (io : Io) (p : Player)
    → IsWellformed p
    → HoldsAll p
    → let q = delete_player io p in
      (q.handles ≡ 0)
      × (q.buffers ≡ 0)
      × (q.devices ≡ 0)
      × (q.play_thread ≡ none)
      × (q.thread_is_running ≡ false)
unfolding delete_player stop auto_stop
delete_player-frees io p w h = ground arith
