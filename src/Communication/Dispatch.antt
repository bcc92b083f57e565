-- ===== src/Communication/Dispatch.antt =====
-- src/communication/communication/communication.cpp: what `handleCommand` does from a message on.
use rpi_tcp_listener.Base.{
  if-both, ℕ, ◌+◌, ◌≤◌, ◌<◌, ◌≡◌, refl, ap, subst, ◌≢◌, ◌∙◌, inl, inr, true, false, ◌&&◌, Option,
  none, some, List, [], ◌∷◌, ◌++◌, map, length, All, get_elem?, Bool-cases, ltb,
}
use rpi_tcp_listener.Base.Int.{size_mod, int_max, dec, ltb_ℕ, to_size, to_u16}
use rpi_tcp_listener.Base.Text.{Bytes, str_eq, atoi}
use rpi_tcp_listener.Base.Decimal.{print_nat}
use rpi_tcp_listener.Base.Outcome.{
  >>=-eq-done, Returns, >>=-Returns, any-Returns, Outcome, done, ◌>>=◌,
}
use rpi_tcp_listener.Files.{write}
use rpi_tcp_listener.Time.{TimeStatus, get_time, set_time}
use rpi_tcp_listener.Parser.{
  parse_msg_in, MsgParser, ParserStatus, MsgCmd, tcp_set_time, tcp_stop, tcp_get_cfg,
  tcp_set_volume, tcp_reset, tcp_status, tcp_cmd_num, tcp_set_cfg, tcp_play, too_many_nodes,
  set_cfg_name, msg_command_end, ok, parse_msg, get_msg_str_at,
}
use rpi_tcp_listener.Parser.Memory.{parse_msg-Extends}
use rpi_tcp_listener.Parser.Framing.{write_nodes, IsLine}
use rpi_tcp_listener.Parser.Commands.{nodes_of, lines_of, parse_msg-lines_of}
use rpi_tcp_listener.Parser.Config.{line_ending, write_config, parse_msg-write_config}
use rpi_tcp_listener.Parser.Stale.{parse_msg_overlong}
use rpi_tcp_listener.Mp3.Thread.{Reach, next, plays, stops, sets_volume}
use rpi_tcp_listener.Config.{config_file, get_config_from_file}
use rpi_tcp_listener.Communication.{
  handle_command_in, Env, Communication, play_found, cfg_reply, play_mode_of, state_reply,
  error_code_no_file, dispatch, handle_command, handle_set_cfg, reply, error_code_ok, handle_play,
  handle_set_time, handle_get_cfg, handle_reset,
}

-- The state in which a handler runs.
abbrev pub prepared : Communication → MsgParser → Bytes → Communication
prepared c p time = record c { msg_parser = p; time_str = time; command = p.command }

pub handle_command-parsed :
    (env : Env) (c : Communication) (msg : Bytes) (status : ParserStatus) (p : MsgParser)
    (time_status : TimeStatus) (time : Bytes)
    → parse_msg c.msg_parser msg ≡ done (status, p)
    → get_time env.clock c.now c.time_str ≡ done (time_status, time)
    → handle_command env c msg ≡ dispatch env p.command (prepared c p time)
unfolding handle_command_in
handle_command-parsed env c msg status p time_status time e f = rw (e, f) refl

-- A message for any command but TCP_SET_CFG, with the number of lines that the table gives it and
-- less than 2 ^ 32 bytes, runs that command's handler on these lines, whatever the message before
-- it was; the handler sees the text of the present time. (The time is one that `GetTime` can print
-- or leave alone.)
pub handle_command-lines_of :
    (env : Env) (c : Communication) (cmd : MsgCmd) (args : List Bytes) (status : TimeStatus)
    (time : Bytes)
    → cmd ≢ tcp_cmd_num
    → cmd ≢ tcp_set_cfg
    → length args + 2 ≡ nodes_of cmd
    → All IsLine args
    → length (write_nodes (lines_of cmd args)) < size_mod
    → get_time env.clock c.now c.time_str ≡ done (status, time)
    → handle_command env c (write_nodes (lines_of cmd args))
      ≡ dispatch env cmd
          (prepared c (record { parsed_masage = lines_of cmd args; command = cmd }) time)
handle_command-lines_of env c cmd args status time real plain count lines fits t =
    handle_command-parsed env c (write_nodes (lines_of cmd args)) ok
      (record { parsed_masage = lines_of cmd args; command = cmd }) status time
      (parse_msg-lines_of c.msg_parser cmd args real plain count lines fits) t

-- A message of five lines, the first of which is not TCP_SET_CFG, and at least one more byte, less
-- than 2 ^ 32 bytes in all, runs the command of the message before it again, on the new lines:
-- `handleCommand` does not look at the status of `ParseMsg`.
pub handle_command_overlong :
    (env : Env) (c : Communication) (n : Bytes) (ns : List Bytes) (b : ℕ) (rest : Bytes)
    (status : TimeStatus) (time : Bytes)
    → All IsLine (n ∷ ns)
    → str_eq n set_cfg_name ≡ false
    → length ns ≡ 4
    → length (write_nodes (n ∷ ns) ++ (b ∷ rest)) < size_mod
    → get_time env.clock c.now c.time_str ≡ done (status, time)
    → handle_command env c (write_nodes (n ∷ ns) ++ (b ∷ rest))
      ≡ dispatch env c.msg_parser.command
          (prepared c (record { parsed_masage = n ∷ ns; command = c.msg_parser.command }) time)
handle_command_overlong env c n ns b rest status time lines plain count fits t =
    handle_command-parsed env c (write_nodes (n ∷ ns) ++ (b ∷ rest)) too_many_nodes
      (record { parsed_masage = n ∷ ns; command = c.msg_parser.command }) status time
      (parse_msg_overlong c.msg_parser n ns b rest lines plain count fits) t

dispatch-set_cfg :
    (env : Env) (c : Communication) (name size cfg last time : Bytes)
    → c.files.writable config_file ≡ true
    → let d =
        prepared c
          (record { parsed_masage = name ∷ size ∷ cfg ∷ last ∷ []; command = tcp_set_cfg })
          time in
      let q : Communication = record d { files = write c.files config_file cfg } in
      dispatch env tcp_set_cfg d ≡ done (q, reply q [] error_code_ok)
unfolding dispatch get_msg_str_at
dispatch-set_cfg env c name size cfg last time f = rw f refl

-- A configuration sent with its length and END, in a message of less than 2 ^ 31 bytes, is stored:
-- where the configuration file can be written, the reply has error code 0, and the file holds the
-- text with every carriage return read as a newline.
pub handle_command-write_config :
    (env : Env) (c : Communication) (cfg : Bytes) (status : TimeStatus) (time : Bytes)
    → length (write_config cfg) ≤ int_max
    → get_time env.clock c.now c.time_str ≡ done (status, time)
    → c.files.writable config_file ≡ true
    → (q : Communication) × (handle_command env c (write_config cfg)
        ≡ done (q, reply q [] error_code_ok))
      × (q.files.read config_file ≡ some (map line_ending cfg))
handle_command-write_config env c cfg status time fits t f =
    let p : MsgParser = record {
      parsed_masage =
          set_cfg_name ∷ print_nat (length cfg) ∷ map line_ending cfg ∷ msg_command_end ∷ [];
      command = tcp_set_cfg;
    } in
    (
      record (prepared c p time) { files = write c.files config_file (map line_ending cfg) },
      handle_command-parsed env c (write_config cfg) ok p status time
            (parse_msg-write_config c.msg_parser cfg fits) t
          ∙ dispatch-set_cfg env c set_cfg_name (print_nat (length cfg)) (map line_ending cfg)
              msg_command_end time f,
      refl,
    )

abbrev Reached : Outcome (Communication × Bytes) → Type 0
Reached = Returns (λ r. Reach r.0.mp3_player)

>>=-Reached {ℓ} :
    {A : Type ℓ} (m : Outcome A) (f : A → Outcome (Communication × Bytes))
    → ((a : A) → Reached (f a))
    → Reached (m >>= f)
>>=-Reached m f h =
    >>=-Returns (λ _. Unit) (λ r. Reach r.0.mp3_player) m f (any-Returns m) (λ a u. h a)

set_time-Reached :
    (env : Env) (c : Communication) → Reach c.mp3_player → Reached (handle_set_time env c)
unfolding handle_set_time
set_time-Reached env c r =
    >>=-Reached
      (get_time env.clock (set_time env.clock c.now (get_msg_str_at c.msg_parser 1)).1 c.time_str) _
      λ t. r

set_cfg-Reached :
    (env : Env) (c : Communication) → Reach c.mp3_player → Reached (done (handle_set_cfg env c))
unfolding handle_set_cfg
set_cfg-Reached env c r = elim (Bool-cases (c.files.writable config_file)) [
  | inl e ↦ rw e r
  | inr e ↦ rw e r
]

cfg_reply-Reached :
    (env : Env) (c : Communication) (o : Option Bytes)
    → Reach c.mp3_player
    → Reached (done (cfg_reply env c o))
cfg_reply-Reached env c none r = r
cfg_reply-Reached env c (some s) r = r

reset-Reached :
    (env : Env) (c : Communication) → Reach c.mp3_player → Reached (done (handle_reset env c))
unfolding handle_reset
reset-Reached env c r = elim (Bool-cases env.reboot_callback) [
  | inl e ↦ rw e (next r (stops env.io c.mp3_player))
  | inr e ↦ rw e (next r (stops env.io c.mp3_player))
]

play_found-Reached :
    (env : Env) (c : Communication) (o : Option Bytes)
    → Reach c.mp3_player
    → Reached (play_found env c o)
play_found-Reached env c none r = tt
play_found-Reached env c (some file) r =
    next r (plays env.io c.mp3_player file (play_mode_of (get_msg_str_at c.msg_parser 2)))

dispatch-Reached :
    (env : Env) (cmd : MsgCmd) (c : Communication)
    → Reach c.mp3_player
    → Reached (dispatch env cmd c)
unfolding dispatch handle_play handle_get_cfg
dispatch-Reached env tcp_set_time c r = set_time-Reached env c r
dispatch-Reached env tcp_play c r =
    let file_num = atoi (get_msg_str_at c.msg_parser 1) in
    let found = get_elem? env.sound_files (to_size (dec file_num)) in
    if-both Reached (ltb_ℕ file_num 1 && ltb (length env.sound_files) (to_size file_num))
      (done (c, state_reply c error_code_no_file)) (play_found env c found) r
      (play_found-Reached env c found r)
dispatch-Reached env tcp_stop c r = next r (stops env.io c.mp3_player)
dispatch-Reached env tcp_set_cfg c r = set_cfg-Reached env c r
dispatch-Reached env tcp_get_cfg c r = cfg_reply-Reached env c (get_config_from_file c.files) r
dispatch-Reached env tcp_set_volume c r =
    next r (sets_volume env.io c.mp3_player (to_u16 (atoi (get_msg_str_at c.msg_parser 1))))
dispatch-Reached env tcp_reset c r = reset-Reached env c r
dispatch-Reached env tcp_status c r = r
dispatch-Reached env tcp_cmd_num c r = r

-- If `handleCommand` returns, the player that the handlers drive is still among the states that
-- its own calls can reach, whatever the message is.
pub handle_command-Reach :
    (env : Env) (behind : Bytes) (c d : Communication) (msg text : Bytes)
    → Reach c.mp3_player
    → handle_command_in env behind c msg ≡ done (d, text)
    → Reach d.mp3_player
unfolding handle_command_in
handle_command-Reach env behind c d msg text r h =
    let reached : Reached (handle_command_in env behind c msg) =
      >>=-Reached (parse_msg_in behind c.msg_parser msg) _ λ parsed.
        >>=-Reached (get_time env.clock c.now c.time_str) _
          λ t. dispatch-Reached env parsed.1.command (prepared c parsed.1 t.1) r in
    subst Reached h reached

-- A call that does not read memory behind the message gives the same with any.
pub handle_command-behind :
    (env : Env) (behind : Bytes) (c : Communication) (msg : Bytes) (r : Communication × Bytes)
    → handle_command env c msg ≡ done r
    → handle_command_in env behind c msg ≡ done r
unfolding handle_command_in
handle_command-behind env behind c msg r h =
    let answered : ParserStatus × MsgParser → Outcome (Communication × Bytes) = λ parsed.
      get_time env.clock c.now c.time_str >>= λ t.
      dispatch env parsed.1.command (prepared c parsed.1 t.1) in
    let (parsed, first, later) = >>=-eq-done (parse_msg c.msg_parser msg) answered h in
    ap (λ o. o >>= answered) (parse_msg-Extends behind c.msg_parser msg parsed first) ∙ later
