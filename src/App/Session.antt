-- ===== src/App/Session.antt =====
-- src/app_rpi_tcp_listener/rpi_tcp_listener.cpp: the command that plays a file at the start.
use rpi_tcp_listener.Base.{
  ℕ, zero, suc, not, ltb, ap, length-append, ◌≤◌, ◌<◌, ◌≡◌, refl, ◌∙◌, true, false, ◌&&◌, some,
  List, [], ◌∷◌, length, get_elem?, arith, leb,
}
use rpi_tcp_listener.Base.Int.{ℤ, pos, int_max, size_mod, ltb_ℕ, to_size}
use rpi_tcp_listener.Base.Text.{Bytes, codes}
use rpi_tcp_listener.Base.Decimal.{print_nat, length-print_nat}
use rpi_tcp_listener.Base.Outcome.{done}
use rpi_tcp_listener.Time.{TimeStatus, get_time}
use rpi_tcp_listener.Parser.{MsgParser, tcp_play}
use rpi_tcp_listener.Parser.Framing.{write_nodes}
use rpi_tcp_listener.Parser.Commands.{lines_of}
use rpi_tcp_listener.Mp3.Types.{once}
use rpi_tcp_listener.Mp3.Calls.{play}
use rpi_tcp_listener.Communication.{Env, Communication, handle_command}
use rpi_tcp_listener.Communication.Dispatch.{prepared}
use rpi_tcp_listener.Communication.Play.{handle_command-play}
use rpi_tcp_listener.App.{autoplay_cmd, autoplay_file}

pub cmd_written :
    (n : ℕ)
    → autoplay_cmd (pos n) ≡ write_nodes (lines_of tcp_play (print_nat n ∷ codes "ONCE" ∷ []))
unfolding autoplay_cmd
cmd_written n = refl

index_lt {ℓ} : {A : Type ℓ} (xs : List A) (i : ℕ) (x : A) → get_elem? xs i ≡ some x → i < length xs
index_lt [] i x h = cc
index_lt (y ∷ ys) zero x h = omega arith
index_lt (y ∷ ys) (suc i) x h = omega (arith, index_lt ys i x h)

cmd_short :
    (n : ℕ)
    → n ≤ int_max
    → length (write_nodes (lines_of tcp_play (print_nat n ∷ codes "ONCE" ∷ []))) < size_mod
cmd_short n h =
    omega (
      arith,
      length-print_nat 9 n (omega arith),
      length-append (print_nat n) (codes "\nONCE\nEND\n"),
    )

pub runs :
    (env : Env) (autoplay : ℤ) (c d : Communication) (text : Bytes)
    → (not (ltb_ℕ autoplay 1) && leb (to_size autoplay) (length env.sound_files)) ≡ true
    → handle_command env c (autoplay_cmd autoplay) ≡ done (d, text)
    → autoplay_file env autoplay c ≡ done d
unfolding autoplay_file
runs env autoplay c d text g h = rw (g, h) refl

pub guard :
    (i k : ℕ)
    → i < k
    → k ≤ int_max
    → (not (ltb_ℕ (pos (suc i)) 1) && leb (to_size (pos (suc i))) k) ≡ true
guard i k h le =
    let word : to_size (pos (suc i)) ≡ suc i = omega arith in
    let first : ltb (suc i) 1 ≡ false = ground arith in
    let last : leb (suc i) k ≡ true = ground arith in rw (first, word, last) refl

-- An autoplay number from 1 up to that of the last sound file, of which there are at most 2 ^ 31 -
-- 1, plays this file once, at the start: the block returns, and the player is in the state that
-- `Play` of this file leaves.
pub autoplay_file_lem :
    (env : Env) (c : Communication) (i : ℕ) (file : Bytes) (status : TimeStatus) (time : Bytes)
    → get_elem? env.sound_files i ≡ some file
    → length env.sound_files ≤ int_max
    → get_time env.clock c.now c.time_str ≡ done (status, time)
    → (d : Communication) × (autoplay_file env (pos (suc i)) c ≡ done d)
      × (d.mp3_player ≡ (play env.io c.mp3_player file once).0)
autoplay_file_lem env c i file status time found fits t =
    let below = index_lt env.sound_files i file found in
    let p : MsgParser = record {
      parsed_masage = lines_of tcp_play (print_nat (suc i) ∷ codes "ONCE" ∷ []);
      command = tcp_play;
    } in
    let d : Communication = record (prepared c p time) {
      mp3_player = (play env.io c.mp3_player file once).0;
    } in
    (
      d,
      runs env (pos (suc i)) c d _ (guard i (length env.sound_files) below fits) (
          ap (λ m. handle_command env c m) (cmd_written (suc i))
          ∙ handle_command-play env c i (codes "ONCE") file status time found (omega arith)
              (omega arith) (cmd_short (suc i) (omega arith)) t),
      refl,
    )
