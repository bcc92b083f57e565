-- ===== src/Mp3/Abstract.antt =====
-- An abstract player without handles, buffers, threads and notifications, and the traces that it
-- allows; src/mp3/mp3/ implements it.
use rpi_tcp_listener.Base.{
  ℕ, ◌≡◌, refl, ◌⊎◌, inl, inr, sym, subst, Bool, List, [], ◌∷◌, arith, leb, Bool-cases,
  if◌then◌else◌, if-true, if-false,
}
use rpi_tcp_listener.Base.Text.{Bytes}
use rpi_tcp_listener.Mp3.Types.{
  PlayMode, play_mode_max, Status, success, file_not_found, wrong_play_mode, failed, Io, Player,
  PlayerState, stop_state, play_state, pause_state,
}
use rpi_tcp_listener.Mp3.Device.{openable}
use rpi_tcp_listener.Mp3.Calls.{play, pause, resume, stop, set_volume}
use rpi_tcp_listener.Mp3.Thread.{
  Tick, play_ends, play_reopens, stop_wakes, tick, auto_stop, is_current, thread_id, next, Reach,
  tick-Reach, plays, pauses, resumes, stops, sets_volume,
}
use rpi_tcp_listener.Mp3.Wellformed.{IsWellformed, Reach-IsWellformed}

-- What the player is doing, and its volume.
pub record View : Type 0 where
  pub doing : PlayerState
  pub loudness : ℕ

abbrev pub view : Player → View
view p = record { doing = p.state; loudness = p.volume }

pub data Request : Type 0 where
  asks_play : (file : Bytes) (mode : PlayMode) → Request
  asks_pause asks_resume asks_stop : Request
  asks_volume : (volume : ℕ) → Request

-- The call of the player's method.
unfoldable pub ask : Io → Player → Request → Player × Status
unfolding play pause resume stop set_volume
ask io p (asks_play file mode) = play io p file mode
ask io p asks_pause = pause io p
ask io p asks_resume = resume io p
ask io p asks_stop = stop io p
ask io p (asks_volume volume) = set_volume io p volume

-- The answer to `Play` where the player is not paused.
abbrev pub play_answer : Bool → Bytes → PlayMode → PlayerState × Status
play_answer ready file play_mode_max = (stop_state, wrong_play_mode)
play_answer ready file mode =
    if ready then (play_state file mode, success) else (stop_state, file_not_found)

-- `Resume` tests only that the file is still there.
abbrev pub doing_spec : Io → PlayerState → Request → PlayerState × Status
doing_spec io (pause_state old m) (asks_play file mode) = (stop_state, file_not_found)
doing_spec io s (asks_play file mode) = play_answer (openable io file) file mode
doing_spec io (play_state file mode) asks_pause = (pause_state file mode, success)
doing_spec io s asks_pause = (s, success)
doing_spec io (pause_state file mode) asks_resume =
    if io.exists file then (play_state file mode, success) else (stop_state, file_not_found)
doing_spec io s asks_resume = (s, success)
doing_spec io s asks_stop = (stop_state, success)
doing_spec io s (asks_volume v) = (s, (if leb v 100 then success else failed))

abbrev pub loudness_spec : ℕ → Request → ℕ
loudness_spec old (asks_volume v) = if leb v 100 then v else old
loudness_spec old _ = old

abbrev pub spec : Io → View → Request → View × Status
spec io v r =
    let (doing, status) = doing_spec io v.doing r in
    (record { doing = doing; loudness = loudness_spec v.loudness r }, status)

pub ask-spec :
    (io : Io) (p : Player) (r : Request)
    → (view (ask io p r).0, (ask io p r).1) ≡ spec io (view p) r
unfolding ask
ask-spec io p (asks_play file mode) = ground arith
ask-spec io p asks_pause = ground arith
ask-spec io p asks_resume = ground arith
ask-spec io p asks_stop = ground arith
ask-spec io p (asks_volume v) = ground arith

-- A ask, or a step of the player's threads, with the files that there are at that time.
pub data Action : Type 0 where
  calls : Io → Request → Action
  steps : Io → Tick → Action

abbrev pub requests : List Action → List (Io × Request)
requests [] = []
requests (calls io r ∷ as') = (io, r) ∷ requests as'
requests (steps io k ∷ as') = requests as'

-- The player and the answers behind a sequence of actions.
unfoldable pub act : Player → List Action → Player × List Status
unfolding ask tick
act p [] = (p, [])
act p (calls io r ∷ as') = let (q, s) = ask io p r in let (t, ss) = act q as' in (t, s ∷ ss)
act p (steps io k ∷ as') = act (tick io k p) as'

-- What the abstract player allows: it answers each request by `spec`, and what it plays may come to
-- an end at any time.
pub data Allows : View → List (Io × Request) → List Status → View → Type 0 where
  quiet : (v : View) → Allows v [] [] v
  answers :
      {v u w : View} {rs : List (Io × Request)} {ss : List Status} (io : Io) (r : Request)
      (s : Status)
      → spec io v r ≡ (u, s)
      → Allows u rs ss w
      → Allows v ((io, r) ∷ rs) (s ∷ ss) w
  ends :
      {v w : View} {rs : List (Io × Request)} {ss : List Status} (file : Bytes) (mode : PlayMode)
      → v.doing ≡ play_state file mode
      → Allows (record v { doing = stop_state }) rs ss w
      → Allows v rs ss w

ask-Reach : (io : Io) (p : Player) (r : Request) → Reach p → Reach (ask io p r).0
unfolding ask
ask-Reach io p (asks_play file mode) w = next w (plays io p file mode)
ask-Reach io p asks_pause w = next w (pauses io p)
ask-Reach io p asks_resume w = next w (resumes io p)
ask-Reach io p asks_stop w = next w (stops io p)
ask-Reach io p (asks_volume v) w = next w (sets_volume io p v)

-- A step of the threads is not seen, or ends what is played.
abbrev pub Unseen : Player → Player → Type 0
Unseen p q =
    (view q ≡ view p)
    ⊎ ((file : Bytes) × (mode : PlayMode) × (p.state ≡ play_state file mode)
        × (view q ≡ record (view p) { doing = stop_state }))

wakes-Unseen :
    (io : Io) (p : Player) (s : PlayerState)
    → p.state ≡ s
    → IsWellformed p
    → Unseen p (auto_stop io p)
unfolding auto_stop stop
wakes-Unseen io p stop_state e w = inl (ground arith)
wakes-Unseen io p (pause_state file mode) e w = inl (ground arith)
wakes-Unseen io p (play_state file mode) e w =
    elim (Bool-cases (is_current p.thread_id_to_stop (thread_id p.play_thread))) [
      | inl h ↦ inr (file, mode, e, ground arith)
      | inr h ↦ inl (ground arith)
    ]

pub tick-Unseen : (io : Io) (k : Tick) (p : Player) → IsWellformed p → Unseen p (tick io k p)
unfolding tick
tick-Unseen io play_ends p w = inl (ground arith)
tick-Unseen io play_reopens p w = inl (ground arith)
tick-Unseen io stop_wakes p w = elim (Bool-cases p.cv_ready) [
  | inl e ↦ if-true (Unseen p) p.cv_ready (auto_stop io p) p e (wakes-Unseen io p p.state refl w)
  | inr e ↦ if-false (Unseen p) p.cv_ready (auto_stop io p) p e (inl refl)
]

-- The player refines the abstract one: from a state that calls and threads can reach, whatever
-- calls and steps of the threads follow each other, and whatever files there are at each, the
-- answers and what the player is then doing, at which volume, are such as the abstract player
-- allows.
pub act-refines :
    (p : Player) (as' : List Action)
    → Reach p
    → Allows (view p) (requests as') (act p as').1 (view (act p as').0)
unfolding act
act-refines p [] r = quiet (view p)
act-refines p (calls io q ∷ as') r =
    answers io q (ask io p q).1 (sym (ask-spec io p q))
      (act-refines (ask io p q).0 as' (ask-Reach io p q r))
act-refines p (steps io k ∷ as') r =
    let rest = act-refines (tick io k p) as' (tick-Reach io k p r) in
    elim (tick-Unseen io k p (Reach-IsWellformed r)) [
      | inl same ↦
          subst
            (λ v.
              Allows v (requests as') (act (tick io k p) as').1 (view (act (tick io k p) as').0))
            same rest
      | inr (file, mode, e, over) ↦ ends file mode e (
          subst
            (λ v.
              Allows v (requests as') (act (tick io k p) as').1 (view (act (tick io k p) as').0))
            over rest)
    ]
