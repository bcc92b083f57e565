-- ===== src/Parser/Commands.antt =====
-- What `VerifyAndGetMsgCommand` accepts, and the commands that a client can write.
use rpi_tcp_listener.Base.{
  ℕ, suc, ◌+◌, ◌≤◌, ◌<◌, ◌≡◌, refl, ◌≢◌, sym, Bool, true, false, List, [], ◌∷◌, ◌++◌, arith, length,
  length-append, All, All-append,
}
use rpi_tcp_listener.Base.Int.{size_mod}
use rpi_tcp_listener.Base.Text.{Bytes, codes, str_eq, str_eq→eq}
use rpi_tcp_listener.Base.Outcome.{done, >>=-eq-done, done-injective}
use rpi_tcp_listener.Parser.{
  parse_msg_in, MsgCmd, tcp_set_time, tcp_play, tcp_stop, tcp_set_cfg, tcp_get_cfg, tcp_set_volume,
  tcp_reset, tcp_status, tcp_cmd_num, MsgParser, ok, msg_commands, find_command, status_of,
  last_node, msg_command_end, set_cfg_name, verify_and_get_msg_command, scan, scan_start, finish,
  parse_msg,
}
use rpi_tcp_listener.Parser.Framing.{write_nodes, IsLine, scan-written}

-- The protocol's table, written as two functions: a command's name and its lines.
abbrev pub name_of : MsgCmd → Bytes
name_of tcp_set_time = codes "TCP_SET_TIME"
name_of tcp_play = codes "TCP_PLAY"
name_of tcp_stop = codes "TCP_STOP"
name_of tcp_set_cfg = codes "TCP_SET_CFG"
name_of tcp_get_cfg = codes "TCP_GET_CFG"
name_of tcp_set_volume = codes "TCP_SET_VOLUME"
name_of tcp_reset = codes "TCP_RESET"
name_of tcp_status = codes "TCP_STATUS"
name_of tcp_cmd_num = []

abbrev pub nodes_of : MsgCmd → ℕ
nodes_of tcp_set_time = 3
nodes_of tcp_play = 4
nodes_of tcp_stop = 2
nodes_of tcp_set_cfg = 4
nodes_of tcp_get_cfg = 2
nodes_of tcp_set_volume = 3
nodes_of tcp_reset = 2
nodes_of tcp_status = 2
nodes_of tcp_cmd_num = 0

-- The nodes are a well-formed message for the command.
abbrev pub IsCommand : MsgCmd → List Bytes → Type 0
IsCommand cmd [] = ⊥
IsCommand cmd (n ∷ ns) =
    (cmd ≢ tcp_cmd_num)
    × (n ≡ name_of cmd)
    × (last_node n ns ≡ msg_command_end)
    × (suc (length ns) ≡ nodes_of cmd)

find_command_sound :
    (n : Bytes) (size : ℕ) (cmd : MsgCmd)
    → find_command msg_commands n size ≡ cmd
    → cmd ≢ tcp_cmd_num
    → (n ≡ name_of cmd) × (size ≡ nodes_of cmd)
unfolding find_command
find_command_sound n size cmd h real = ground (
  arith,
  str_eq→eq n (codes "TCP_PLAY"),
  str_eq→eq n (codes "TCP_SET_TIME"),
  str_eq→eq n (codes "TCP_STOP"),
  str_eq→eq n (codes "TCP_SET_CFG"),
  str_eq→eq n (codes "TCP_GET_CFG"),
  str_eq→eq n (codes "TCP_SET_VOLUME"),
  str_eq→eq n (codes "TCP_RESET"),
  str_eq→eq n (codes "TCP_STATUS"),
)

find_command_complete :
    (cmd : MsgCmd)
    → cmd ≢ tcp_cmd_num
    → find_command msg_commands (name_of cmd) (nodes_of cmd) ≡ cmd
unfolding find_command
find_command_complete tcp_set_time h = refl
find_command_complete tcp_play h = refl
find_command_complete tcp_stop h = refl
find_command_complete tcp_set_cfg h = refl
find_command_complete tcp_get_cfg h = refl
find_command_complete tcp_set_volume h = refl
find_command_complete tcp_reset h = refl
find_command_complete tcp_status h = refl
find_command_complete tcp_cmd_num h = absurd (h refl)

pub verify_sound :
    (nodes : List Bytes) (cmd : MsgCmd)
    → verify_and_get_msg_command nodes ≡ cmd
    → cmd ≢ tcp_cmd_num
    → IsCommand cmd nodes
unfolding verify_and_get_msg_command
verify_sound [] cmd h real = absurd (real (sym h))
verify_sound (n ∷ ns) cmd h real =
    let found : (str_eq (last_node n ns) msg_command_end ≡ true)
        × (find_command msg_commands n (suc (length ns)) ≡ cmd) =
      ground arith in
    let (name, size) = find_command_sound n (suc (length ns)) cmd found.1 real in
    (real, name, str_eq→eq (last_node n ns) msg_command_end found.0, size)

pub verify_complete :
    (nodes : List Bytes) (cmd : MsgCmd)
    → IsCommand cmd nodes
    → verify_and_get_msg_command nodes ≡ cmd
unfolding verify_and_get_msg_command
verify_complete [] cmd h = absurd h
verify_complete (n ∷ ns) cmd (real, name, last, size) =
    let ended : str_eq (last_node n ns) msg_command_end ≡ true = rw last refl in
    let found : find_command msg_commands n (suc (length ns)) ≡ cmd =
      rw (name, size) (find_command_complete cmd real) in
    rw ended found

status_of_real : (cmd : MsgCmd) → cmd ≢ tcp_cmd_num → status_of cmd ≡ ok
status_of_real cmd h = ground arith

finish-ok :
    (p q : MsgParser) (late : Bool) (parsed : List Bytes)
    → finish p late parsed ≡ (ok, q)
    → IsCommand q.command q.parsed_masage
unfolding finish
finish-ok p q true parsed h = cc
finish-ok p q false parsed h =
    let made : (status_of (verify_and_get_msg_command parsed) ≡ ok)
        × (q.command ≡ verify_and_get_msg_command parsed)
        × (q.parsed_masage ≡ parsed) =
      ground arith in
    rw made.2 (verify_sound parsed q.command (sym made.1) (λ e. cc))

-- Whatever message `ParseMsg` answers with OK, its nodes form the command that the parser then
-- reports: the name of that command first, as many nodes as it has, END last.
pub parse_msg-ok :
    (p q : MsgParser) (msg : Bytes)
    → parse_msg p msg ≡ done (ok, q)
    → IsCommand q.command q.parsed_masage
unfolding parse_msg_in
parse_msg-ok p q msg h =
    let made =
      >>=-eq-done (scan (suc (length msg)) msg scan_start) (λ r. done (finish p r.0 r.1)) h in
    finish-ok p q made.0.0 made.0.1 (done-injective made.2)

-- The lines of a command: its name, its arguments and END.
abbrev pub lines_of : MsgCmd → List Bytes → List Bytes
lines_of cmd args = name_of cmd ∷ (args ++ (msg_command_end ∷ []))

last_node-append : (n : Bytes) (args : List Bytes) (l : Bytes) → last_node n (args ++ (l ∷ [])) ≡ l
last_node-append n [] l = refl
last_node-append n (m ∷ args) l = last_node-append m args l

nodes_of_le : (cmd : MsgCmd) → nodes_of cmd ≤ 4
nodes_of_le cmd = ground arith

name_of-IsLine : (cmd : MsgCmd) → IsLine (name_of cmd)
name_of-IsLine tcp_set_time = omega arith
name_of-IsLine tcp_play = omega arith
name_of-IsLine tcp_stop = omega arith
name_of-IsLine tcp_set_cfg = omega arith
name_of-IsLine tcp_get_cfg = omega arith
name_of-IsLine tcp_set_volume = omega arith
name_of-IsLine tcp_reset = omega arith
name_of-IsLine tcp_status = omega arith
name_of-IsLine tcp_cmd_num = tt

end-IsLine : IsLine msg_command_end
end-IsLine = omega arith

name_of_plain : (cmd : MsgCmd) → cmd ≢ tcp_set_cfg → str_eq (name_of cmd) set_cfg_name ≡ false
name_of_plain cmd h = ground arith

-- Every command but TCP_SET_CFG, written with the number of arguments that the table gives it,
-- none of which holds a newline, in a message of less than 2 ^ 32 bytes, is accepted and reported
-- with its lines.
pub parse_msg-lines_of :
    (p : MsgParser) (cmd : MsgCmd) (args : List Bytes)
    → cmd ≢ tcp_cmd_num
    → cmd ≢ tcp_set_cfg
    → length args + 2 ≡ nodes_of cmd
    → All IsLine args
    → length (write_nodes (lines_of cmd args)) < size_mod
    → parse_msg p (write_nodes (lines_of cmd args))
      ≡ done (ok, record { parsed_masage = lines_of cmd args; command = cmd })
unfolding parse_msg_in finish
parse_msg-lines_of p cmd args real plain count lines fits =
    let size : length (args ++ (msg_command_end ∷ [])) ≡ length args + 1 = length-append args _ in
    let verified : verify_and_get_msg_command (lines_of cmd args) ≡ cmd =
      verify_complete (lines_of cmd args) cmd
        (real, refl, last_node-append _ args _, omega arith) in
    rw (
      scan-written (name_of cmd) (args ++ (msg_command_end ∷ []))
          (name_of-IsLine cmd, All-append IsLine args (msg_command_end ∷ []) lines (end-IsLine, tt))
          (name_of_plain cmd plain) (omega (arith, nodes_of_le cmd)) fits,
      finish,
      verified,
      status_of_real cmd real,
    )
