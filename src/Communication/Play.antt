-- ===== src/Communication/Play.antt =====
-- src/communication/communication/communication.cpp: `handlePlay` and `handleVolume`, and the
-- numbers that they read from a message.
use rpi_tcp_listener.Base.{
  ℕ, zero, suc, ◌%◌, ◌^◌, ◌≤◌, ◌<◌, ◌≡◌, refl, ◌∙◌, ◌⊎◌, inl, inr, false, none, some, List, [], ◌∷◌,
  arith, length, get_elem?, ltb,
}
use rpi_tcp_listener.Base.Int.{size_mod, int_max, pos, dec, to_size}
use rpi_tcp_listener.Base.Text.{Bytes, atoi}
use rpi_tcp_listener.Base.Decimal.{print_nat, print_nat-IsDigit, atoi-print_nat}
use rpi_tcp_listener.Base.Outcome.{done, fault, out_of_range}
use rpi_tcp_listener.Time.{TimeStatus, get_time}
use rpi_tcp_listener.Parser.{tcp_play, get_msg_str_at}
use rpi_tcp_listener.Parser.Framing.{write_nodes, IsLine}
use rpi_tcp_listener.Parser.Commands.{lines_of}
use rpi_tcp_listener.Parser.Config.{digits-IsLine}
use rpi_tcp_listener.Mp3.Calls.{play}
use rpi_tcp_listener.Mp3.Refine.{set_volume_lem}
use rpi_tcp_listener.Communication.{
  Env, Communication, handle_command, dispatch, handle_play, handle_volume, play_found,
  play_mode_of, state_reply, mp3_player_status_to_error, error_code_ok, error_code_wrong_volume,
}
use rpi_tcp_listener.Communication.Dispatch.{prepared, handle_command-lines_of}

get_elem?-none {ℓ} : {A : Type ℓ} (xs : List A) (i : ℕ) → length xs ≤ i → get_elem? xs i ≡ none
get_elem?-none [] i h = refl
get_elem?-none (x ∷ xs) zero h = absurd (omega arith)
get_elem?-none (x ∷ xs) (suc i) h = get_elem?-none xs i (omega arith)

-- A number that is not negative passes the guard.
handle_play-number :
    (env : Env) (c : Communication) (n : ℕ)
    → atoi (get_msg_str_at c.msg_parser 1) ≡ pos n
    → handle_play env c ≡ play_found env c (get_elem? env.sound_files (to_size (dec (pos n))))
unfolding handle_play
handle_play-number env c zero e =
    let none_below : ltb (length env.sound_files) 0 ≡ false = ground arith in
    rw (e, none_below) refl
handle_play-number env c (suc i) e =
    let not_below : ltb (suc i) 1 ≡ false = ground arith in rw (e, not_below) refl

beyond : (n k : ℕ) → n ≤ int_max → (n ≡ 0) ⊎ (k < n) → k < size_mod → k ≤ to_size (dec (pos n))
beyond zero k le out fits = omega arith
beyond (suc i) k le out fits = omega arith

-- The number 0, and every number above that of the last sound file, up to 2 ^ 31 - 1, ends the
-- program: the guard of `handlePlay` lets it pass, and `vector::at` throws.
pub handle_play_throws :
    (env : Env) (c : Communication) (n : ℕ)
    → atoi (get_msg_str_at c.msg_parser 1) ≡ pos n
    → n ≤ int_max
    → (n ≡ 0) ⊎ (length env.sound_files < n)
    → length env.sound_files < size_mod
    → handle_play env c ≡ fault out_of_range
handle_play_throws env c n e le out fits =
    let far : length env.sound_files ≤ to_size (dec (pos n)) =
      beyond n (length env.sound_files) le out fits in
    let missing = get_elem?-none env.sound_files (to_size (dec (pos n))) far in
    handle_play-number env c n e ∙ rw missing refl

-- A client that asks for the i-th sound file, counted from 0, gets it: the message with the number
-- i + 1, at most 2 ^ 31 - 1, and a third line without a newline, less than 2 ^ 32 bytes in all,
-- makes the player play that file in the mode that the third line names (no mode, PLAY_MODE_MAX,
-- if it names none), and the reply has the player's new state and the error code of its answer.
pub handle_command-play :
    (env : Env) (c : Communication) (i : ℕ) (mode file : Bytes) (status : TimeStatus) (time : Bytes)
    → get_elem? env.sound_files i ≡ some file
    → i < int_max
    → IsLine mode
    → length (write_nodes (lines_of tcp_play (print_nat (suc i) ∷ mode ∷ []))) < size_mod
    → get_time env.clock c.now c.time_str ≡ done (status, time)
    → let d =
        prepared c
          (record {
            parsed_masage = lines_of tcp_play (print_nat (suc i) ∷ mode ∷ []);
            command = tcp_play;
          })
          time in
      let r = play env.io c.mp3_player file (play_mode_of mode) in
      let q : Communication = record d { mp3_player = r.0 } in
      handle_command env c (write_nodes (lines_of tcp_play (print_nat (suc i) ∷ mode ∷ [])))
      ≡ done (q, state_reply q (mp3_player_status_to_error r.1))
unfolding dispatch get_msg_str_at
handle_command-play env c i mode file status time found small line fits t =
    let d =
      prepared c
        (record {
          parsed_masage = lines_of tcp_play (print_nat (suc i) ∷ mode ∷ []);
          command = tcp_play;
        })
        time in
    let index : to_size (dec (pos (suc i))) ≡ i = omega arith in
    handle_command-lines_of env c tcp_play (print_nat (suc i) ∷ mode ∷ []) status time (λ e. cc)
      (λ e. cc) refl (digits-IsLine (print_nat (suc i)) (print_nat-IsDigit (suc i)), (line, tt))
      fits t
    ∙ handle_play-number env d (suc i) (atoi-print_nat (suc i) (omega arith))
    ∙ rw (index, found) refl

-- A volume n that is not negative is taken modulo 2 ^ 16, so that a client which asks for 65636
-- gets 100 and no error: what is at most 100 then is stored and answered by error code 0, and what
-- is above changes nothing and is answered by error code 4.
pub handle_volume_lem :
    (env : Env) (c : Communication) (n : ℕ)
    → atoi (get_msg_str_at c.msg_parser 1) ≡ pos n
    → let r = handle_volume env c in
      ((n % 2 ^ 16 ≤ 100)
        × (r.0.mp3_player.volume ≡ n % 2 ^ 16)
        × (r.1 ≡ state_reply r.0 error_code_ok))
      ⊎ ((100 < n % 2 ^ 16)
          × (r.0.mp3_player ≡ c.mp3_player)
          × (r.1 ≡ state_reply r.0 error_code_wrong_volume))
unfolding handle_volume
handle_volume_lem env c n e = elim (set_volume_lem env.io c.mp3_player (n % 2 ^ 16)) [
  | inl (small, status, stored, _, _, _) ↦ inl (small, rw e stored, rw (e, status) refl)
  | inr (large, status, same) ↦ inr (large, rw e same, rw (e, status) refl)
]
