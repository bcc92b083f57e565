-- ===== src/Mp3/Leaks.antt =====
-- Handles, buffers and devices: who gives back what `OpenPlayer` took.
use rpi_tcp_listener.Base.{
  ℕ, zero, suc, ◌+◌, ◌≡◌, refl, ◌≢◌, true, false, none, arith, inl, inr, Bool-cases, if◌then◌else◌,
}
use rpi_tcp_listener.Base.Text.{Bytes}
use rpi_tcp_listener.Mp3.Types.{
  PlayMode, once, in_loop, play_mode_max, Status, success, file_not_found, Io, Player, PlayerState,
  stop_state, play_state, pause_state,
}
use rpi_tcp_listener.Mp3.Device.{
  close_player, open_player, stop_play_thread, run_play_thread, set_state, openable, owned,
}
use rpi_tcp_listener.Mp3.States.{enter_stop, enter_play, play_in}
use rpi_tcp_listener.Mp3.Calls.{play, pause, resume, stop, set_volume}
use rpi_tcp_listener.Mp3.Thread.{
  Step, plays, pauses, resumes, stops, sets_volume, reopens, finishes, wakes, finish_play, reopen,
  auto_stop,
}
use rpi_tcp_listener.Mp3.Wellformed.{IsWellformed}

abbrev pub Released : PlayerState → Player → Type 0
Released stop_state p = (p.mh ≡ none) × (p.buffer_mpg ≡ none) × (p.ao_dev ≡ none)
Released (play_state file mode) p = Unit {0}
Released (pause_state file mode) p = Unit {0}

-- What is allocated is what the pointers name, and a stopped player holds nothing.
pub record HoldsAll (p : Player) : Type 0 where
  pub handles : p.handles ≡ owned p.mh
  pub buffers : p.buffers ≡ owned p.buffer_mpg
  pub devices : p.devices ≡ owned p.ao_dev
  pub released : Released p.state p

abbrev CleanPlay : PlayerState → Status → Type 0
CleanPlay stop_state s = s ≢ file_not_found
CleanPlay (play_state file mode) s = Unit {0}
CleanPlay (pause_state file mode) s = Unit {0}

-- Every step but one: a `Play` in the stop state that answers FILE_NOT_FOUND.
abbrev pub IsClean : {p q : Player} → Step p q → Type 0
IsClean (plays io p file mode) = CleanPlay p.state (play io p file mode).1
IsClean (pauses io p) = Unit {0}
IsClean (resumes io p) = Unit {0}
IsClean (stops io p) = Unit {0}
IsClean (sets_volume io p v) = Unit {0}
IsClean (reopens io p t e) = Unit {0}
IsClean (finishes p t e) = Unit {0}
IsClean (wakes io p e) = Unit {0}

-- The same without the last clause, and with no pointer set.
record IsBalanced (p : Player) : Type 0 where
  all_handles : p.handles ≡ owned p.mh
  all_buffers : p.buffers ≡ owned p.buffer_mpg
  all_devices : p.devices ≡ owned p.ao_dev

record IsEmpty (p : Player) : Type 0 where
  no_handle : (p.mh ≡ none) × (p.handles ≡ 0)
  no_buffer : (p.buffer_mpg ≡ none) × (p.buffers ≡ 0)
  no_device : (p.ao_dev ≡ none) × (p.devices ≡ 0)

close_player-IsEmpty : (p : Player) → IsBalanced p → IsEmpty (close_player p)
unfolding close_player
close_player-IsEmpty p b = ground arith

open_player-IsBalanced :
    (io : Io) (p : Player) (file : Bytes) → IsEmpty p → IsBalanced (open_player io p file).0
unfolding open_player
open_player-IsBalanced io p file e = ground arith

open_player-state :
    (io : Io) (p : Player) (file : Bytes) → (open_player io p file).0.state ≡ p.state
unfolding open_player
open_player-state io p file = ground arith

run_play_thread-HoldsAll :
    (io : Io) (p : Player) (file : Bytes) (mode : PlayMode)
    → p.state ≢ stop_state
    → IsBalanced p
    → HoldsAll (run_play_thread io p file mode)
unfolding run_play_thread
run_play_thread-HoldsAll io p file mode s b = ground arith

enter_stop-HoldsAll : (p : Player) → IsBalanced p → HoldsAll (enter_stop p)
unfolding enter_stop
enter_stop-HoldsAll p b = ground arith

enter_play-HoldsAll :
    (io : Io) (p : Player) (file : Bytes) (mode : PlayMode)
    → IsBalanced p
    → HoldsAll (enter_play io p file mode)
unfolding enter_play
enter_play-HoldsAll io p file mode b = ground arith

-- `Play` where the old file has been closed, in the stop state and in the play state.
play_stopped-HoldsAll :
    (io : Io) (p : Player) (file : Bytes) (mode : PlayMode)
    → IsEmpty p
    → let r = open_player io p file in
      let q : Player × Status =
        if r.1 then (enter_play io r.0 file mode, success) else (r.0, file_not_found) in
      q.1 ≢ file_not_found → HoldsAll q.0
play_stopped-HoldsAll io p file mode empty = elim (Bool-cases (open_player io p file).1) [
  | inl ready ↦ rw ready λ c.
      enter_play-HoldsAll io (open_player io p file).0 file mode
        (open_player-IsBalanced io p file empty)
  | inr missing ↦ rw missing λ c. absurd (c refl)
]

play_playing-HoldsAll :
    (io : Io) (p : Player) (file : Bytes) (mode : PlayMode)
    → IsEmpty p
    → p.state ≢ stop_state
    → let r = open_player io p file in
      let q : Player × Status =
        if r.1
        then (run_play_thread io r.0 file mode, success)
        else (enter_stop r.0, file_not_found) in
      HoldsAll q.0
play_playing-HoldsAll io p file mode empty s =
    let balanced = open_player-IsBalanced io p file empty in
    let same = open_player-state io p file in
    elim (Bool-cases (open_player io p file).1) [
      | inl ready ↦
          rw ready
            (run_play_thread-HoldsAll io (open_player io p file).0 file mode (rw same s) balanced)
      | inr missing ↦ rw missing (enter_stop-HoldsAll (open_player io p file).0 balanced)
    ]

-- The player in the play state, stopped and closed before it opens the next file.
switched-IsEmpty :
    (p : Player) (s : PlayerState)
    → HoldsAll p
    → IsEmpty (close_player (stop_play_thread (set_state p s)))
unfolding close_player stop_play_thread set_state
switched-IsEmpty p s h = ground arith

switched-state :
    (p : Player) (s : PlayerState) → (close_player (stop_play_thread (set_state p s))).state ≡ s
unfolding close_player stop_play_thread set_state
switched-state p s = ground arith

play_in-HoldsAll :
    (io : Io) (s : PlayerState) (p : Player) (file : Bytes) (mode : PlayMode)
    → p.state ≡ s
    → CleanPlay s (play_in io s p file mode).1
    → HoldsAll p
    → HoldsAll (play_in io s p file mode).0
unfolding play_in
play_in-HoldsAll io stop_state p file play_mode_max e c h = h
play_in-HoldsAll io stop_state p file once e c h =
    play_stopped-HoldsAll io p file once (ground arith) c
play_in-HoldsAll io stop_state p file in_loop e c h =
    play_stopped-HoldsAll io p file in_loop (ground arith) c
play_in-HoldsAll io (play_state f m) p file play_mode_max e c h =
    enter_stop-HoldsAll (set_state p (play_state f play_mode_max)) (ground arith)
play_in-HoldsAll io (play_state f m) p file once e c h =
    let s = play_state file once in
    play_playing-HoldsAll io (close_player (stop_play_thread (set_state p s))) file once
      (switched-IsEmpty p s h) (rw (switched-state p s) (λ x. cc))
play_in-HoldsAll io (play_state f m) p file in_loop e c h =
    let s = play_state file in_loop in
    play_playing-HoldsAll io (close_player (stop_play_thread (set_state p s))) file in_loop
      (switched-IsEmpty p s h) (rw (switched-state p s) (λ x. cc))
play_in-HoldsAll io (pause_state f m) p file mode e c h =
    enter_stop-HoldsAll (open_player io (close_player p) file).0
      (open_player-IsBalanced io (close_player p) file (close_player-IsEmpty p (ground arith)))

-- A step that is not a `Play` of a stopped player that answers FILE_NOT_FOUND keeps the books of a
-- well-formed player: what is allocated is what its pointers name, and a stopped player holds
-- nothing.
pub Step-HoldsAll :
    {p q : Player} (s : Step p q) → IsWellformed p → IsClean s → HoldsAll p → HoldsAll q
unfolding play pause resume stop set_volume reopen finish_play auto_stop
Step-HoldsAll (plays io p file mode) w c h = play_in-HoldsAll io p.state p file mode refl c h
Step-HoldsAll (pauses io p) w c h = ground arith
Step-HoldsAll (resumes io p) w c h = ground arith
Step-HoldsAll (stops io p) w c h = ground arith
Step-HoldsAll (sets_volume io p v) w c h = ground arith
Step-HoldsAll (reopens io p t e) w c h = ground arith
Step-HoldsAll (finishes p t e) w c h = ground arith
Step-HoldsAll (wakes io p n) w c h = ground arith

-- `n` calls of `Play` in a row.
abbrev pub replay : ℕ → Io → Player → Bytes → PlayMode → Player
replay zero io p file mode = p
replay (suc n) io p file mode = replay n io (play io p file mode).0 file mode

play_failing :
    (io : Io) (p : Player) (file : Bytes) (mode : PlayMode)
    → p.state ≡ stop_state
    → mode ≢ play_mode_max
    → io.has_handle ≡ true
    → openable io file ≡ false
    → let q = (play io p file mode).0 in
      (q.state ≡ stop_state) × (q.handles ≡ suc p.handles) × (q.buffers ≡ suc p.buffers)
unfolding play
play_failing io p file mode s m k f = ground arith

-- A stopped player that is asked `n` times, in a mode other than PLAY_MODE_MAX, for a file that
-- cannot be opened, while `mpg123_new` gives a handle each time, has lost `n` handles and `n`
-- buffers more, and is still stopped.
pub replay_leaks :
    (n : ℕ) (io : Io) (p : Player) (file : Bytes) (mode : PlayMode)
    → p.state ≡ stop_state
    → mode ≢ play_mode_max
    → io.has_handle ≡ true
    → openable io file ≡ false
    → let q = replay n io p file mode in
      (q.state ≡ stop_state) × (q.handles ≡ p.handles + n) × (q.buffers ≡ p.buffers + n)
replay_leaks zero io p file mode s m k f = (s, omega arith, omega arith)
replay_leaks (suc n) io p file mode s m k f =
    let (s', h, b) = play_failing io p file mode s m k f in
    let rest = replay_leaks n io (play io p file mode).0 file mode s' m k f in
    (rest.0, omega (arith, rest.1, h), omega (arith, rest.2, b))
