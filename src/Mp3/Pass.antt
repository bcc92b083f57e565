-- ===== src/Mp3/Pass.antt =====
-- src/mp3/mp3/mp3_player.cpp, `DoPlay`: the loops of the play thread.
--
-- What the thread meets is a list of events: a call of `mpg123_read` that returns MPG123_OK, with
-- the stop flag that the thread sees after playing the piece, or one that returns anything else. A
-- list that runs out (`none`) is a thread that still runs. Whether the file can be opened again
-- before the k-th pass is a function of k.
use rpi_tcp_listener.Base.{
  ℕ, zero, suc, ◌+◌, ◌≤◌, ◌≡◌, refl, ◌⊎◌, inl, inr, Bool, true, false, Option, none, some, List, [],
  ◌∷◌, ◌++◌, arith, length, length-append, Bool-cases, Option-cases, ◌==◌, if◌then◌else◌,
}
use rpi_tcp_listener.Mp3.Types.{PlayMode, once, in_loop, play_mode_max}

pub data Event : Type 0 where
  piece : (stop : Bool) → Event
  other : Event

-- What the thread has done: whether it notified the auto-stop thread, the passes through the file,
-- the pieces given to `ao_play`, and the events that it has not met.
pub record Done : Type 0 where
  pub notified : Bool
  pub passes : ℕ
  pub pieces : ℕ
  pub rest : List Event

abbrev pub max_infinite_loops : ℕ
max_infinite_loops = 100

-- `file_play_max_times`; a wrong mode also sets `stop_loop`.
abbrev pub file_play_max_times : PlayMode → ℕ
file_play_max_times once = 1
file_play_max_times in_loop = max_infinite_loops
file_play_max_times play_mode_max = 0

-- The inner loop: whether it was stopped, the pieces played, and the events behind it.
unfoldable pub play_pass : ℕ → List Event → Option (Bool × ℕ × List Event)
play_pass n [] = none
play_pass n (other ∷ es) = some (false, n, es)
play_pass n (piece stop ∷ es) =
    let more = play_pass (suc n) es in if stop then some (true, suc n, es) else more

-- The outer loop with `left` passes to go, after `played` passes and `pieces` pieces.
unfoldable pub play_passes : (left : ℕ) → (ℕ → Bool) → ℕ → ℕ → List Event → Option Done
unfolding play_pass
play_passes zero reopens played pieces es =
    some (record { notified = true; passes = played; pieces = pieces; rest = es })
play_passes (suc left) reopens played pieces es = elim (play_pass pieces es) [
  | none ↦ none
  | some (true, n, es') ↦
      some (record { notified = false; passes = suc played; pieces = n; rest = es' })
  | some (false, n, es') ↦
      let again = play_passes left reopens (suc played) n es' in
      if left == 0
      then again
      else if reopens (suc played)
      then again
      else some (record { notified = false; passes = suc played; pieces = n; rest = es' })
]

-- `DoPlay`.
unfoldable pub do_play : PlayMode → (ℕ → Bool) → List Event → Option Done
unfolding play_passes
do_play once reopens es = play_passes (file_play_max_times once) reopens 0 0 es
do_play in_loop reopens es = play_passes (file_play_max_times in_loop) reopens 0 0 es
do_play play_mode_max reopens es =
    some (record { notified = false; passes = 0; pieces = 0; rest = es })

-- How many pieces stand in a list of events.
abbrev pub count_pieces : List Event → ℕ
count_pieces [] = 0
count_pieces (piece stop ∷ es) = suc (count_pieces es)
count_pieces (other ∷ es) = count_pieces es

play_pass-pieces :
    (n : ℕ) (es es' : List Event) (m : ℕ) (stopped : Bool)
    → play_pass n es ≡ some (stopped, m, es')
    → m + count_pieces es' ≡ n + count_pieces es
unfolding play_pass
play_pass-pieces n [] es' m stopped h = cc
play_pass-pieces n (other ∷ es) es' m stopped h = ground arith
play_pass-pieces n (piece true ∷ es) es' m stopped h = ground arith
play_pass-pieces n (piece false ∷ es) es' m stopped h =
    omega (arith, play_pass-pieces (suc n) es es' m stopped h)

-- What a finished run of the outer loop has done, from `played` passes and `pieces` pieces on.
abbrev Counts : ℕ → ℕ → ℕ → List Event → Done → Type 0
Counts left played pieces es d =
    (played ≤ d.passes)
    × (d.passes ≤ played + left)
    × ((d.notified ≡ false) ⊎ (d.passes ≡ played + left))
    × (d.pieces + count_pieces d.rest ≡ pieces + count_pieces es)

play_passes-Counts :
    (left : ℕ) (reopens : ℕ → Bool) (played pieces : ℕ) (es : List Event) (d : Done)
    → play_passes left reopens played pieces es ≡ some d
    → Counts left played pieces es d
unfolding play_passes
play_passes-Counts zero reopens played pieces es d h = ground arith
play_passes-Counts (suc left) reopens played pieces es d h =
    elim (Option-cases (play_pass pieces es)) [
      | inl e ↦ ground arith
      | inr ((stopped, n, es'), e) ↦ ground (
        arith,
        play_pass-pieces pieces es es' n stopped e,
        play_passes-Counts left reopens (suc played) n es' d,
      )
    ]

-- When the thread has ended: it has made at most the passes of its mode (one, or a hundred in the
-- loop mode), exactly these unless it never notified the auto-stop thread, and it has played every
-- piece that mpg123 gave it, each once.
pub do_play-Counts :
    (mode : PlayMode) (reopens : ℕ → Bool) (es : List Event) (d : Done)
    → do_play mode reopens es ≡ some d
    → (d.passes ≤ file_play_max_times mode)
      × ((d.notified ≡ false) ⊎ (d.passes ≡ file_play_max_times mode))
      × (d.pieces + count_pieces d.rest ≡ count_pieces es)
unfolding do_play
do_play-Counts once reopens es d h = ground (arith, play_passes-Counts 1 reopens 0 0 es d h)
do_play-Counts in_loop reopens es d h = ground (arith, play_passes-Counts 100 reopens 0 0 es d h)
do_play-Counts play_mode_max reopens es d h = ground arith

-- A pass over events with a raised stop flag among them ends: at a raised flag, or with the file
-- before it.
play_pass_stops :
    (n : ℕ) (es after : List Event)
    → ((m : ℕ) × (rest : List Event) × (play_pass n (es ++ (piece true ∷ after))
          ≡ some (true, m, rest))
        × (length after ≤ length rest))
      ⊎ ((m : ℕ) × (es' : List Event) × (play_pass n (es ++ (piece true ∷ after))
            ≡ some (false, m, es' ++ (piece true ∷ after))))
unfolding play_pass
play_pass_stops n [] after = inl (suc n, after, refl, omega arith)
play_pass_stops n (other ∷ es) after = inr (n, es, refl)
play_pass_stops n (piece true ∷ es) after = inl (
  suc n,
  es ++ (piece true ∷ after),
  refl,
  omega (arith, length-append {0} es (piece true ∷ after)),
)
play_pass_stops n (piece false ∷ es) after = play_pass_stops (suc n) es after

play_passes_stops :
    (left : ℕ) (reopens : ℕ → Bool) (played pieces : ℕ) (es after : List Event)
    → (d : Done) × (play_passes left reopens played pieces (es ++ (piece true ∷ after)) ≡ some d)
      × (length after ≤ length d.rest)
unfolding play_passes
play_passes_stops zero reopens played pieces es after =
    (_, refl, omega (arith, length-append {0} es (piece true ∷ after)))
play_passes_stops (suc left) reopens played pieces es after =
    elim (play_pass_stops pieces es after) [
      | inl (m, rest, e, le) ↦ (
        record { notified = false; passes = suc played; pieces = m; rest = rest },
        rw (e, play_passes),
        le,
      )
      | inr (m, es', e) ↦
          let (d, run, le) = play_passes_stops left reopens (suc played) m es' after in
          let early : Done = record {
            notified = false;
            passes = suc played;
            pieces = m;
            rest = es' ++ (piece true ∷ after);
          } in
          elim (Bool-cases (left == 0)) [
            | inl last ↦ (d, rw (e, play_passes, last) run, le)
            | inr more ↦ elim (Bool-cases (reopens (suc played))) [
              | inl again ↦ (d, rw (e, play_passes, more, again) run, le)
              | inr gone ↦ (
                early,
                rw (e, play_passes, more, gone),
                omega (arith, length-append {0} es' (piece true ∷ after)),
              )
            ]
          ]
    ]

-- A raised stop flag ends the thread, whatever it meets before: it never goes on behind the piece
-- after which it saw the flag, so the `join` of `StopPlayThread` returns.
pub do_play_stops :
    (mode : PlayMode) (reopens : ℕ → Bool) (es after : List Event)
    → (d : Done) × (do_play mode reopens (es ++ (piece true ∷ after)) ≡ some d)
      × (length after ≤ length d.rest)
unfolding do_play
do_play_stops once reopens es after = play_passes_stops 1 reopens 0 0 es after
do_play_stops in_loop reopens es after = play_passes_stops 100 reopens 0 0 es after
do_play_stops play_mode_max reopens es after =
    (_, refl, omega (arith, length-append {0} es (piece true ∷ after)))
