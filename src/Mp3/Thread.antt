-- ===== src/Mp3/Thread.antt =====
-- src/mp3/mp3/mp3_player.cpp: what the play thread (`DoPlay`) and the auto-stop thread (`DoStop`)
-- do to the player between two calls, and the states that calls and threads can reach.
use rpi_tcp_listener.Base.{
  refl, List, [], ◌∷◌, inl, inr, Bool-cases, if-true, if-false, ℕ, ◌≡◌, Bool, true, false, Option,
  none, some, ◌==◌, if◌then◌else◌,
}
use rpi_tcp_listener.Base.Text.{Bytes}
use rpi_tcp_listener.Mp3.Types.{PlayMode, Io, Player, PlayThread}
use rpi_tcp_listener.Mp3.Device.{close_player, open_player}
use rpi_tcp_listener.Mp3.Calls.{play, pause, resume, stop, set_volume, new_player}

-- The end of `DoPlay`, "When file finished by its self".
unfoldable pub finish_play : Player → ℕ → Player
finish_play p id = record p { thread_id_to_stop = some id; cv_ready = true }

-- Between two passes `DoPlay` closes the player and opens it again.
unfoldable pub reopen : Io → Player → Bytes → Player × Bool
unfolding close_player open_player
reopen io p file = open_player io (close_player p) file

abbrev pub thread_id : Option PlayThread → Option ℕ
thread_id none = none
thread_id (some t) = some t.id

-- `thread_id_to_stop_m != id() && thread_id_to_stop_m == current_thread_id`.
abbrev pub is_current : Option ℕ → Option ℕ → Bool
is_current none current = false
is_current (some id) none = false
is_current (some id) (some current) = id == current

-- A round of `DoStop` behind its wait.
unfoldable pub auto_stop : Io → Player → Player
auto_stop io p =
    let q : Player = record p { cv_ready = false } in
    if is_current q.thread_id_to_stop (thread_id q.play_thread)
    then record (stop io q).0 { thread_id_to_stop = none }
    else q

-- The destructor: `Stop`, the last round of `DoStop`, and the joins of its thread.
unfoldable pub delete_player : Io → Player → Player
unfolding stop auto_stop
delete_player io p = auto_stop io (record (stop io p).0 {
  thread_id_to_stop = none;
  cv_ready = true;
  stop_auto_stop_thread = true;
})

-- A caller's method, or a thread's step. What files there are may change from step to step.
pub data Step : Player → Player → Type 0 where
  plays : (io : Io) (p : Player) (file : Bytes) (mode : PlayMode) → Step p (play io p file mode).0
  pauses : (io : Io) (p : Player) → Step p (pause io p).0
  resumes : (io : Io) (p : Player) → Step p (resume io p).0
  stops : (io : Io) (p : Player) → Step p (stop io p).0
  sets_volume : (io : Io) (p : Player) (v : ℕ) → Step p (set_volume io p v).0
  reopens :
      (io : Io) (p : Player) (t : PlayThread)
      → p.play_thread ≡ some t
      → Step p (reopen io p t.file_name).0
  finishes : (p : Player) (t : PlayThread) → p.play_thread ≡ some t → Step p (finish_play p t.id)
  wakes : (io : Io) (p : Player) → p.cv_ready ≡ true → Step p (auto_stop io p)

pub data Reach : Player → Type 0 where
  start : Reach new_player
  next : {p q : Player} → Reach p → Step p q → Reach q

-- A step of the threads between two calls: `DoPlay` comes to its end or opens the file again,
-- `DoStop` goes round. Nothing happens where there is no play thread, or nothing to wake up for.
pub data Tick : Type 0 where
  play_ends play_reopens stop_wakes : Tick

unfoldable pub tick : Io → Tick → Player → Player
unfolding finish_play reopen auto_stop
tick io play_ends p = elim p.play_thread [ none ↦ p | some t ↦ finish_play p t.id ]
tick io play_reopens p = elim p.play_thread [ none ↦ p | some t ↦ (reopen io p t.file_name).0 ]
tick io stop_wakes p = if p.cv_ready then auto_stop io p else p

unfoldable pub ticks : Io → List Tick → Player → Player
unfolding tick
ticks io [] p = p
ticks io (k ∷ ks) p = ticks io ks (tick io k p)

on_thread :
    (p : Player) (f : PlayThread → Player) (o : Option PlayThread)
    → Reach p
    → ((t : PlayThread) → o ≡ some t → Reach (f t))
    → Reach (elim o [ none ↦ p | some t ↦ f t ])
on_thread p f none r h = r
on_thread p f (some t) r h = h t refl

pub tick-Reach : (io : Io) (k : Tick) (p : Player) → Reach p → Reach (tick io k p)
unfolding tick
tick-Reach io play_ends p r =
    on_thread p (λ t. finish_play p t.id) p.play_thread r λ t e. next r (finishes p t e)
tick-Reach io play_reopens p r =
    on_thread p (λ t. (reopen io p t.file_name).0) p.play_thread r λ t e. next r (reopens io p t e)
tick-Reach io stop_wakes p r = elim (Bool-cases p.cv_ready) [
  | inl e ↦ if-true Reach p.cv_ready (auto_stop io p) p e (next r (wakes io p e))
  | inr e ↦ if-false Reach p.cv_ready (auto_stop io p) p e r
]

pub ticks-Reach : (io : Io) (ks : List Tick) (p : Player) → Reach p → Reach (ticks io ks p)
unfolding ticks
ticks-Reach io [] p r = r
ticks-Reach io (k ∷ ks) p r = ticks-Reach io ks (tick io k p) (tick-Reach io k p r)
