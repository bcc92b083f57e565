-- ===== src/Communication/ReplySize.antt =====
-- src/communication/communication/communication.cpp: the length of a reply, against the array of
-- 1024 bytes that `main` gives for it.
use rpi_tcp_listener.Base.{
  subst, sym, ℕ, suc, refl, ◌+◌, ◌<◌, ◌≤◌, ◌≡◌, Bool-cases, inl, inr, Option, none, some, List, [],
  ◌∷◌, ◌++◌, length, length-append, arith, ltb, ltb→lt, if-both, Option-cases, get_elem?,
  if◌then◌else◌, ◌&&◌,
}
use rpi_tcp_listener.Base.Int.{ℤ, to_size, dec, ltb_ℕ, to_u16}
use rpi_tcp_listener.Base.Text.{Bytes, codes, atoi}
use rpi_tcp_listener.Base.Decimal.{print_nat, length-print_nat}
use rpi_tcp_listener.Base.Outcome.{done, fault, overflow, Returns, >>=-Returns, any-Returns}
use rpi_tcp_listener.Files.{write}
use rpi_tcp_listener.Config.{get_config_from_file, config_file}
use rpi_tcp_listener.Tcp.{buffer_size}
use rpi_tcp_listener.Time.{
  Clock, TimeStatus, time_nok, time_get_ok, format_time, get_time, set_time,
}
use rpi_tcp_listener.Parser.{
  MsgCmd, tcp_set_time, tcp_play, tcp_stop, tcp_set_cfg, tcp_get_cfg, tcp_set_volume, tcp_reset,
  tcp_status, tcp_cmd_num, parse_msg_in, get_msg_str_at,
}
use rpi_tcp_listener.Mp3.Types.{
  PlayerState, stop_state, play_state, pause_state, once, in_loop, play_mode_max, Player, Status,
}
use rpi_tcp_listener.Mp3.Types.{PlayMode, state_str}
use rpi_tcp_listener.Mp3.States.{play_mode_to_state, state_of}
use rpi_tcp_listener.Mp3.Calls.{get_state_str, stop, set_volume}
use rpi_tcp_listener.Communication.{
  handle_command_in, Env, Communication, ErrorCode, error_number, error_code_ok,
  error_code_play_mode_error, error_code_no_file, error_code_wrong_volume, error_code_get_cfg_error,
  error_code_set_time_error, command_number, reply_with, reply, state_reply, unknown_reply,
  handle_set_time, handle_play, handle_set_cfg, handle_get_cfg, handle_reset, play_found, dispatch,
  set_time_error, answer, mp3_player_status_to_error, handle_stop, handle_volume, handle_status,
}
use rpi_tcp_listener.Communication.Dispatch.{prepared}
use rpi_tcp_listener.Communication.Replies.{handle_get_cfg_empty}

-- A time has less than 32 characters, the size of the array in `GetTime`.
abbrev pub HasShortTime : Communication → Type 0
HasShortTime c = length c.time_str < 32

-- The reply fits in the array, and the time stays short.
abbrev pub Fits : Communication × Bytes → Type 0
Fits r = (length r.1 < buffer_size) × HasShortTime r.0

-- The bytes of the lines, each with its newline.
abbrev size_of : List Bytes → ℕ
size_of [] = 0
size_of (line ∷ lines) = suc (length line) + size_of lines

number-small : (e : ErrorCode) → length (print_nat (error_number e)) ≤ 1
number-small error_code_ok = length-print_nat 0 0 (omega arith)
number-small error_code_play_mode_error = length-print_nat 0 2 (omega arith)
number-small error_code_no_file = length-print_nat 0 3 (omega arith)
number-small error_code_wrong_volume = length-print_nat 0 4 (omega arith)
number-small error_code_get_cfg_error = length-print_nat 0 5 (omega arith)
number-small error_code_set_time_error = length-print_nat 0 8 (omega arith)

command_number-small : (cmd : MsgCmd) → command_number cmd < 10
command_number-small cmd = ground arith

length-reply_with :
    (cmd : MsgCmd) (lines : List Bytes) (e : ErrorCode)
    → length (reply_with cmd lines e) ≤ size_of lines + 17
unfolding reply_with
length-reply_with cmd [] e =
    omega (arith, number-small e, length-append (print_nat (error_number e)) (codes "\nEND\n"))
length-reply_with cmd (line ∷ lines) e =
    omega
      (arith, length-reply_with cmd lines e, length-append line (b'\n' ∷ reply_with cmd lines e))

length-reply :
    (c : Communication) (lines : List Bytes) (e : ErrorCode)
    → length (reply c lines e) ≤ length c.time_str + size_of lines + 40
unfolding reply
length-reply c lines e = omega (
  arith,
  length-reply_with c.command
      ((codes "COMMAND_" ++ (print_nat (command_number c.command) ++ codes "_RECEIVED"))
        ∷ c.time_str
        ∷ lines)
      e,
  length-append (print_nat (command_number c.command)) (codes "_RECEIVED"),
  length-print_nat 0 (command_number c.command) (command_number-small c.command),
)

length-play_mode_to_state : (mode : PlayMode) → length (state_str (play_mode_to_state mode)) < 30
length-play_mode_to_state once = omega arith
length-play_mode_to_state in_loop = omega arith
length-play_mode_to_state play_mode_max = omega arith

length-state_str : (s : PlayerState) → length (state_str (state_of s)) < 30
length-state_str stop_state = omega arith
length-state_str (play_state file mode) = length-play_mode_to_state mode
length-state_str (pause_state file mode) = omega arith

reply-Fits : (c : Communication) (e : ErrorCode) → HasShortTime c → Fits (c, reply c [] e)
reply-Fits c e t = (omega (arith, length-reply c [] e, t), t)

state_reply-Fits : (c : Communication) (e : ErrorCode) → HasShortTime c → Fits (c, state_reply c e)
unfolding get_state_str
state_reply-Fits c e t = (
  omega (
    arith,
    length-reply c (get_state_str c.mp3_player ∷ []) e,
    length-state_str c.mp3_player.state,
    t,
  ),
  t,
)

-- What `GetTime` leaves in a string that is short.
written-Short :
    (text : Bytes)
    → Returns {A = TimeStatus × Bytes}
        (λ t. length t.1 < 32)
        (if ltb (length text) 32 then done (time_get_ok, text) else fault overflow)
written-Short text = elim (Bool-cases (ltb (length text) 32)) [
  | inl k ↦ rw k (ltb→lt (length text) 32 k)
  | inr k ↦ rw k tt
]

get_time-Short :
    (clock : Clock) (now : ℤ) (text : Bytes)
    → length text < 32
    → Returns (λ t. length t.1 < 32) (get_time clock now text)
unfolding get_time
get_time-Short clock now text h =
    elim (clock.localtime now)
      as (λ o.
        Returns {A = TimeStatus × Bytes} (λ t. length t.1 < 32)
          (elim o [
            | none ↦ done (time_nok, text)
            | some tm ↦
                let written = format_time tm in
                if ltb (length written) 32 then done (time_get_ok, written) else fault overflow
          ])) [ none ↦ h | some tm ↦ written-Short (format_time tm) ]

set_time-Fits :
    (env : Env) (c : Communication) → HasShortTime c → Returns Fits (handle_set_time env c)
unfolding handle_set_time
set_time-Fits env c t =
    let r = set_time env.clock c.now (get_msg_str_at c.msg_parser 1) in
    >>=-Returns (λ u. length u.1 < 32) Fits (get_time env.clock r.1 c.time_str) _
      (get_time-Short env.clock r.1 c.time_str t)
      (λ u k. reply-Fits (record c { now = r.1; time_str = u.1 }) (set_time_error r.0) k)

set_cfg-Fits : (env : Env) (c : Communication) → HasShortTime c → Fits (handle_set_cfg env c)
unfolding handle_set_cfg
set_cfg-Fits env c t = elim (Bool-cases (c.files.writable config_file)) [
  | inl e ↦ rw e (
      reply-Fits (record c { files = write c.files config_file (get_msg_str_at c.msg_parser 2) })
        error_code_ok t)
  | inr e ↦ rw e (reply-Fits c error_code_no_file t)
]

length-empty_cfg :
    (c : Communication) (e : ErrorCode)
    → HasShortTime c
    → length (reply c (print_nat 0 ∷ [] ∷ []) e) < buffer_size
length-empty_cfg c e t =
    omega (arith, length-reply c (print_nat 0 ∷ [] ∷ []) e, length-print_nat 0 0 (omega arith), t)

get_cfg-missing :
    (env : Env) (c : Communication)
    → c.files.read config_file ≡ none
    → handle_get_cfg env c ≡ (c, reply c (print_nat 0 ∷ [] ∷ []) error_code_get_cfg_error)
unfolding handle_get_cfg
get_cfg-missing env c e = rw (get_config_from_file, e) refl

get_cfg-Fits : (env : Env) (c : Communication) → HasShortTime c → Fits (handle_get_cfg env c)
get_cfg-Fits env c t = elim (Option-cases (c.files.read config_file)) [
  | inl e ↦
      subst Fits (sym (get_cfg-missing env c e)) (length-empty_cfg c error_code_get_cfg_error t, t)
  | inr (content, e) ↦
      subst Fits (sym (handle_get_cfg_empty env c content e))
        (length-empty_cfg c error_code_ok t, t)
]

reset-Fits : (env : Env) (c : Communication) → HasShortTime c → Fits (handle_reset env c)
unfolding handle_reset
reset-Fits env c t = elim (Bool-cases env.reboot_callback) [
  | inl e ↦
      rw e (reply-Fits (record c { mp3_player = (stop env.io c.mp3_player).0 }) error_code_ok t)
  | inr e ↦
      rw e (reply-Fits (record c { mp3_player = (stop env.io c.mp3_player).0 }) error_code_ok t)
]

play_found-Fits :
    (env : Env) (c : Communication) (o : Option Bytes)
    → HasShortTime c
    → Returns Fits (play_found env c o)
play_found-Fits env c none t = tt
play_found-Fits env c (some file) t = state_reply-Fits (record c { mp3_player = _ }) _ t

play-Fits : (env : Env) (c : Communication) → HasShortTime c → Returns Fits (handle_play env c)
unfolding handle_play
play-Fits env c t =
    let file_num = atoi (get_msg_str_at c.msg_parser 1) in
    let found = get_elem? env.sound_files (to_size (dec file_num)) in
    if-both (Returns Fits) (ltb_ℕ file_num 1 && ltb (length env.sound_files) (to_size file_num))
      (done (c, state_reply c error_code_no_file)) (play_found env c found)
      (state_reply-Fits c error_code_no_file t) (play_found-Fits env c found t)

answer-Fits :
    (env : Env) (c : Communication) (r : Player × Status) → HasShortTime c → Fits (answer env c r)
answer-Fits env c r t =
    state_reply-Fits (record c { mp3_player = r.0 }) (mp3_player_status_to_error r.1) t

dispatch-Fits :
    (env : Env) (cmd : MsgCmd) (c : Communication)
    → HasShortTime c
    → Returns Fits (dispatch env cmd c)
unfolding dispatch handle_stop handle_volume handle_status unknown_reply
dispatch-Fits env tcp_set_time c t = set_time-Fits env c t
dispatch-Fits env tcp_play c t = play-Fits env c t
dispatch-Fits env tcp_stop c t = answer-Fits env c (stop env.io c.mp3_player) t
dispatch-Fits env tcp_set_cfg c t = set_cfg-Fits env c t
dispatch-Fits env tcp_get_cfg c t = get_cfg-Fits env c t
dispatch-Fits env tcp_set_volume c t =
    answer-Fits env c
      (set_volume env.io c.mp3_player (to_u16 (atoi (get_msg_str_at c.msg_parser 1)))) t
dispatch-Fits env tcp_reset c t = reset-Fits env c t
dispatch-Fits env tcp_status c t = state_reply-Fits c error_code_ok t
dispatch-Fits env tcp_cmd_num c t =
    (omega (arith, length-append c.time_str (codes "\nEND\n"), t), t)

-- Every reply of `handleCommand` is shorter than the 1024 bytes of the array that `main` gives for
-- it, whatever the message is and whatever stands behind it in
-- memory, and its time stays shorter than 32 characters, when the time in
-- `time_str_m` was so before.
pub handle_command-Fits :
    (env : Env) (behind : Bytes) (c : Communication) (msg : Bytes)
    → HasShortTime c
    → Returns Fits (handle_command_in env behind c msg)
unfolding handle_command_in
handle_command-Fits env behind c msg t =
    >>=-Returns (λ _. Unit {0}) Fits (parse_msg_in behind c.msg_parser msg) _
      (any-Returns (parse_msg_in behind c.msg_parser msg))
      λ parsed u.
        >>=-Returns (λ r. length r.1 < 32) Fits (get_time env.clock c.now c.time_str) _
          (get_time-Short env.clock c.now c.time_str t)
          λ r k. dispatch-Fits env parsed.1.command (prepared c parsed.1 r.1) k
