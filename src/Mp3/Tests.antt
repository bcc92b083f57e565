-- ===== src/Mp3/Tests.antt =====
-- Runs of mp3/test/mp3_player_test.cpp, and the player's theorems at such players.
use rpi_tcp_listener.Base.{List, none, ◌+◌, ◌≡◌, refl, true, false, some, [], ◌∷◌, arith}
use rpi_tcp_listener.Base.Text.{Bytes, codes, str_eq}
use rpi_tcp_listener.Mp3.Types.{
  once, in_loop, play_once, paused, success, file_not_found, failed, Io, Player, PlayThread,
  stop_state, play_state,
}
use rpi_tcp_listener.Mp3.Calls.{play, pause, stop, get_state, new_player}
use rpi_tcp_listener.Mp3.Thread.{
  delete_player, stop_wakes, Reach, start, next, plays, pauses, stops, finish_play, auto_stop,
}
use rpi_tcp_listener.Mp3.Wellformed.{IsWellformed, Reach-IsWellformed}
use rpi_tcp_listener.Mp3.Abstract.{
  Action, calls, steps, asks_play, asks_pause, asks_resume, asks_volume, act, Allows, view,
  act-refines,
}
use rpi_tcp_listener.Mp3.AutoStop.{auto_stop_stale, auto_stop_reused}
use rpi_tcp_listener.Mp3.Destructor.{delete_player-frees}
use rpi_tcp_listener.Mp3.Leaks.{HoldsAll, IsClean, Step-HoldsAll, replay, replay_leaks}
use rpi_tcp_listener.Mp3.Pass.{piece, other, Done, do_play}

abbrev song : Bytes
song = codes "123.mp3"

abbrev wrong_song : Bytes
wrong_song = codes "wrong_file.mp3"

-- One file can be opened, and there is a sound card.
abbrev io : Io
io = record {
  has_handle = true;
  has_device = true;
  exists = str_eq song;
  decodes = str_eq song;
  format_of = λ f. record { encsize = 2; rate = 44100; channels = 2 };
  driver = 1;
  thread_id = 1;
}

abbrev playing : Player
playing = (play io new_player song once).0

abbrev paused_player : Player
paused_player = (pause io playing).0

wrong_file : (play io new_player wrong_song once).1 ≡ file_not_found
unfolding play new_player
wrong_file = refl

plays_once : (get_state playing ≡ play_once) × ((play io new_player song once).1 ≡ success)
unfolding play new_player get_state
plays_once = (refl, refl)

playing-Reach : Reach playing
playing-Reach = next start (plays io new_player song once)

playing-IsWellformed : IsWellformed playing
playing-IsWellformed = Reach-IsWellformed playing-Reach

new_player-IsWellformed : IsWellformed new_player
new_player-IsWellformed = Reach-IsWellformed start

Reach-IsWellformed_example : IsWellformed (stop io paused_player).0
Reach-IsWellformed_example =
    Reach-IsWellformed (next (next playing-Reach (pauses io playing)) (stops io paused_player))

-- A file that is not there stops the player; the thread that is left wakes up behind it.
abbrev missed_file : List Action
missed_file =
    calls io (asks_play song once)
    ∷ calls io asks_pause
    ∷ calls io asks_resume
    ∷ calls io (asks_volume 101)
    ∷ calls io (asks_play wrong_song once)
    ∷ steps io stop_wakes
    ∷ []

act-refines_example :
    Allows
      (view new_player)
      ((io, asks_play song once)
        ∷ (io, asks_pause)
        ∷ (io, asks_resume)
        ∷ (io, asks_volume 101)
        ∷ (io, asks_play wrong_song once)
        ∷ [])
      (success ∷ success ∷ success ∷ failed ∷ file_not_found ∷ [])
      (record { doing = stop_state; loudness = 100 })
unfolding act new_player
act-refines_example = act-refines new_player missed_file start

playing_state : playing.state ≡ play_state song once
unfolding play new_player
playing_state = refl

paused_state : get_state paused_player ≡ paused
unfolding play pause new_player get_state
paused_state = refl

abbrev thread : PlayThread
thread = record { id = 1; file_name = song; play_mode = once }

playing_thread : playing.play_thread ≡ some thread
unfolding play new_player
playing_thread = refl

-- The next thread has another id.
abbrev next_io : Io
next_io = record io { thread_id = 2 }

same_success : (play io (finish_play playing thread.id) song in_loop).1 ≡ success
unfolding play new_player finish_play
same_success = refl

again_success : (play next_io (finish_play playing thread.id) song in_loop).1 ≡ success
unfolding play new_player finish_play
again_success = refl

auto_stop_stale_example :
    let q = (play next_io (finish_play playing thread.id) song in_loop).0 in
    let r = auto_stop next_io q in
    (r.state ≡ play_state song in_loop)
    × (r.play_thread ≡ q.play_thread)
    × (r.mh ≡ q.mh)
    × (r.thread_is_running ≡ true)
auto_stop_stale_example =
    auto_stop_stale next_io playing thread song in_loop playing-IsWellformed playing_thread
      (λ e. omega (arith, e)) again_success

auto_stop_reused_example :
    let r = auto_stop io (play io (finish_play playing thread.id) song in_loop).0 in
    (r.state ≡ stop_state) × (r.play_thread ≡ none) × (r.mh ≡ none)
auto_stop_reused_example =
    auto_stop_reused io playing thread song in_loop playing-IsWellformed playing_thread refl
      same_success

new_player-HoldsAll : HoldsAll new_player
unfolding new_player
new_player-HoldsAll = ground arith

plays-IsClean : IsClean (plays io new_player song once)
unfolding play new_player
plays-IsClean = ground arith

Step-HoldsAll_example : HoldsAll playing
Step-HoldsAll_example =
    Step-HoldsAll (plays io new_player song once) new_player-IsWellformed plays-IsClean
      new_player-HoldsAll

new_player_state : new_player.state ≡ stop_state
unfolding new_player
new_player_state = refl

replay_leaks_example :
    let q = replay 3 io new_player wrong_song once in
    (q.state ≡ stop_state)
    × (q.handles ≡ new_player.handles + 3)
    × (q.buffers ≡ new_player.buffers + 3)
replay_leaks_example =
    replay_leaks 3 io new_player wrong_song once new_player_state (ground arith) refl refl

abbrev two_pieces : Done
two_pieces = record { notified = true; passes = 1; pieces = 2; rest = [] }

two_pieces_run : do_play once (λ k. true) (piece false ∷ piece false ∷ other ∷ []) ≡ some two_pieces
unfolding do_play
two_pieces_run = refl

playing-HoldsAll : HoldsAll playing
playing-HoldsAll =
    Step-HoldsAll (plays io new_player song once) new_player-IsWellformed plays-IsClean
      new_player-HoldsAll

delete_player-frees_example :
    let q = delete_player io playing in
    (q.handles ≡ 0)
    × (q.buffers ≡ 0)
    × (q.devices ≡ 0)
    × (q.play_thread ≡ none)
    × (q.thread_is_running ≡ false)
delete_player-frees_example = delete_player-frees io playing playing-IsWellformed playing-HoldsAll
