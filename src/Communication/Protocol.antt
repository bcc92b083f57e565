-- ===== src/Communication/Protocol.antt =====
-- src/communication/communication/communication.cpp: what a client can ask of the player, and the
-- replies that it may count on, in terms of the abstract player.
use rpi_tcp_listener.Base.{
  ℕ, suc, ◌<◌, ◌^◌, ◌≡◌, Bool, Option, none, some, List, [], ◌∷◌, ◌++◌, get_elem?, if◌then◌else◌,
}
use rpi_tcp_listener.Base.Int.{int_max}
use rpi_tcp_listener.Base.Text.{Bytes, codes}
use rpi_tcp_listener.Base.Decimal.{print_nat}
use rpi_tcp_listener.Parser.{MsgCmd, tcp_play, tcp_stop, tcp_set_volume, tcp_status}
use rpi_tcp_listener.Parser.Framing.{write_nodes}
use rpi_tcp_listener.Parser.Commands.{lines_of}
use rpi_tcp_listener.Mp3.Types.{
  Io, once, in_loop, Status, success, file_not_found, wrong_play_mode, failed, state_str,
}
use rpi_tcp_listener.Mp3.States.{state_of}
use rpi_tcp_listener.Mp3.Abstract.{View, Request, asks_play, asks_stop, asks_volume, spec}
use rpi_tcp_listener.Communication.{Env}

-- A file is asked for by its place among the sound files, from 0.
pub data ClientRequest : Type 0 where
  wants_play : (i : ℕ) (loops : Bool) → ClientRequest
  wants_stop wants_status : ClientRequest
  wants_volume : (volume : ℕ) → ClientRequest

-- The lines of the message.
abbrev pub command_of : ClientRequest → MsgCmd
command_of (wants_play i loops) = tcp_play
command_of wants_stop = tcp_stop
command_of wants_status = tcp_status
command_of (wants_volume volume) = tcp_set_volume

abbrev pub mode_text : Bool → Bytes
mode_text loops = if loops then codes "IN_LOOP" else codes "ONCE"

abbrev pub arguments_of : ClientRequest → List Bytes
arguments_of (wants_play i loops) = print_nat (suc i) ∷ mode_text loops ∷ []
arguments_of (wants_volume volume) = print_nat volume ∷ []
arguments_of _ = []

abbrev pub message : ClientRequest → Bytes
message r = write_nodes (lines_of (command_of r) (arguments_of r))

-- The file exists in the configuration, and numbers fit in an `int` and in 16 bits.
abbrev pub IsAnswerable : List Bytes → ClientRequest → Type 0
IsAnswerable files (wants_play i loops) =
    (i < int_max) × ((file : Bytes) × (get_elem? files i ≡ some file))
IsAnswerable files (wants_volume volume) = volume < 2 ^ 16
IsAnswerable files _ = Unit {0}

abbrev pub play_of : Bool → Option Bytes → Option Request
play_of loops none = none
play_of loops (some file) = some (asks_play file (if loops then in_loop else once))

-- What the player is asked for, if anything.
abbrev pub request_of : List Bytes → ClientRequest → Option Request
request_of files (wants_play i loops) = play_of loops (get_elem? files i)
request_of files wants_stop = some asks_stop
request_of files wants_status = none
request_of files (wants_volume volume) = some (asks_volume volume)

-- The first line of the reply, and the digit of the error.
abbrev pub first_line_of : ClientRequest → Bytes
first_line_of (wants_play i loops) = codes "COMMAND_1_RECEIVED"
first_line_of wants_stop = codes "COMMAND_2_RECEIVED"
first_line_of wants_status = codes "COMMAND_7_RECEIVED"
first_line_of (wants_volume volume) = codes "COMMAND_5_RECEIVED"

abbrev pub error_of : Status → Bytes
error_of success = codes "0"
error_of wrong_play_mode = codes "2"
error_of file_not_found = codes "3"
error_of failed = codes "4"

abbrev pub reply_text : (first time state error : Bytes) → Bytes
reply_text first time state error =
    first
    ++ (b'\n'
        ∷ (time
            ++ (b'\n' ∷ (state ++ (b'\n' ∷ (codes "ERROR_CODE:" ++ (error ++ codes "\nEND\n")))))))

-- A request of the player, or none.
abbrev pub exchange : Io → View → Option Request → View × Status
exchange io v none = (v, success)
exchange io v (some q) = spec io v q

-- The reply at the time `time`.
abbrev pub shown_as : Bytes → ClientRequest → View × Status → View × Bytes
shown_as time r (u, status) =
    (u, reply_text (first_line_of r) time (state_str (state_of u.doing)) (error_of status))

-- The view of the player behind a request, and the reply.
abbrev pub protocol : Env → Bytes → View → ClientRequest → View × Bytes
protocol env time v r = shown_as time r (exchange env.io v (request_of env.sound_files r))
