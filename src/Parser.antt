-- ===== src/Parser.antt =====
-- src/communication/communication/msg_parser.{h,cpp}: the line protocol of a command.
--
-- A `const char*` is the list of its bytes before the terminator, none of which is 0, and
-- `msg_length` is its `strlen`, as in every call; the terminator at index `length msg` reads as 0.
-- `behind` is what can be read in memory behind the terminator; a read behind that is a fault. The
-- names without `_in` are those of a message with nothing behind it.
-- `size_t` has 32 bits, as on the target. A `std::vector` is a list,
-- and `push_back` appends to it.
pub mod Framing
pub mod Commands
pub mod Stale
pub mod Total
pub mod Safe
pub mod Reference
pub mod Memory
pub mod Config
mod Tests
use rpi_tcp_listener.Base.{
  ℕ, zero, suc, ◌+◌, ◌-◌, ◌%◌, Bool, true, false, ◌&&◌, List, [], ◌∷◌, ◌++◌, none, some, length,
  get_or, get_elem?, ltb, leb, ◌==◌, if◌then◌else◌,
}
use rpi_tcp_listener.Base.Int.{size_mod, to_size}
use rpi_tcp_listener.Base.Text.{Bytes, codes, str_eq, atoi}
use rpi_tcp_listener.Base.Outcome.{Outcome, done, fault, bad_read, out_of_fuel, ◌>>=◌}

pub data MsgCmd : Type 0 where
  tcp_set_time tcp_play tcp_stop tcp_set_cfg tcp_get_cfg tcp_set_volume tcp_reset tcp_status
        tcp_cmd_num :
      MsgCmd

pub data ParserStatus : Type 0 where
  ok too_many_nodes wrong_message wrong_cfg_size : ParserStatus

abbrev pub msg_max_nodes : ℕ
msg_max_nodes = 5

pub record MsgParser : Type 0 where
  pub parsed_masage : List Bytes
  pub command : MsgCmd

-- The constructor.
unfoldable pub new : MsgParser
new = record { parsed_masage = []; command = tcp_cmd_num }

pub record Command : Type 0 where
  pub cmd : MsgCmd
  pub name : Bytes
  pub nodes : ℕ

-- `msg_commands` and `msg_commands_nodes`, in the order of the enumeration.
abbrev pub msg_commands : List Command
msg_commands =
    record { cmd = tcp_set_time; name = codes "TCP_SET_TIME"; nodes = 3 }
    ∷ record { cmd = tcp_play; name = codes "TCP_PLAY"; nodes = 4 }
    ∷ record { cmd = tcp_stop; name = codes "TCP_STOP"; nodes = 2 }
    ∷ record { cmd = tcp_set_cfg; name = codes "TCP_SET_CFG"; nodes = 4 }
    ∷ record { cmd = tcp_get_cfg; name = codes "TCP_GET_CFG"; nodes = 2 }
    ∷ record { cmd = tcp_set_volume; name = codes "TCP_SET_VOLUME"; nodes = 3 }
    ∷ record { cmd = tcp_reset; name = codes "TCP_RESET"; nodes = 2 }
    ∷ record { cmd = tcp_status; name = codes "TCP_STATUS"; nodes = 2 }
    ∷ []

abbrev pub msg_command_end : Bytes
msg_command_end = codes "END"

abbrev pub set_cfg_name : Bytes
set_cfg_name = codes "TCP_SET_CFG"

-- The `for` loop of `VerifyAndGetMsgCommand` over the table.
unfoldable pub find_command : List Command → Bytes → ℕ → MsgCmd
find_command [] first size = tcp_cmd_num
find_command (c ∷ cs) first size =
    let rest = find_command cs first size in
    if str_eq first c.name then (if c.nodes == size then c.cmd else tcp_cmd_num) else rest

-- `vector.at(i)` where the code has just tested that the index is in range.
abbrev pub node_at : List Bytes → ℕ → Bytes
node_at nodes i = get_or nodes i []

abbrev pub last_node : Bytes → List Bytes → Bytes
last_node n [] = n
last_node n (m ∷ ms) = last_node m ms

-- `VerifyAndGetMsgCommand`: what it stores in `command_m` and returns.
unfoldable pub verify_and_get_msg_command : List Bytes → MsgCmd
unfolding find_command
verify_and_get_msg_command [] = tcp_cmd_num
verify_and_get_msg_command (n ∷ ns) =
    if str_eq (last_node n ns) msg_command_end
    then find_command msg_commands n (length (n ∷ ns))
    else tcp_cmd_num

-- The variables of the loop of `ParseMsg`.
pub record Scan : Type 0 where
  pub parsed : List Bytes
  pub node_str : Bytes
  pub msg_read_cnt : ℕ

abbrev pub wants_config : List Bytes → Bool
wants_config parsed = length parsed == 2 && str_eq (node_at parsed 0) set_cfg_name

module _ (behind : Bytes) where
  -- `*(msg + i)`, where `behind` stands in memory behind the terminator.
  unfoldable pub char_at_in : Bytes → ℕ → Outcome ℕ
  char_at_in msg i = elim (get_elem? msg i) [
    | some c ↦ done c
    | none ↦ if i == length msg then done 0 else elim (get_elem? behind (i - length msg - 1)) [
      | some c ↦ done c
      | none ↦ fault bad_read
    ]
  ]

  -- The copying loop of `GetConfigStream`: `n` bytes from index `i` on, '\r' read as '\n'.
  unfoldable pub copy_config_in : Bytes → ℕ → ℕ → Outcome Bytes
  unfolding char_at_in
  copy_config_in msg i zero = done []
  copy_config_in msg i (suc n) = char_at_in msg i >>= λ c.
      copy_config_in msg (i + 1) n >>= λ rest. done ((if c == b'\r' then b'\n' else c) ∷ rest)

  -- `GetConfigStream`: the configuration that it appends, and the size that it read. The status
  -- `wrong_cfg_size` comes with an empty text, and the caller drops it.
  unfoldable pub get_config_stream_in : Bytes → ℕ → List Bytes → Outcome (ParserStatus × Bytes × ℕ)
  unfolding copy_config_in
  get_config_stream_in msg offset parsed =
      let read_cfg_size : ℕ = to_size (atoi (node_at parsed 1)) in
      if leb (length msg) ((read_cfg_size + offset) % size_mod)
      then done (wrong_cfg_size, [], read_cfg_size)
      else copy_config_in msg offset read_cfg_size >>= λ stream. done (ok, stream, read_cfg_size)

  -- The block under "If message is TCP_SET_CFG".
  unfoldable pub take_config_in : Bytes → Scan → Outcome Scan
  unfolding get_config_stream_in
  take_config_in msg s =
      if wants_config s.parsed
      then (get_config_stream_in msg s.msg_read_cnt s.parsed >>= λ r. done (record {
        parsed = s.parsed ++ (r.1 ∷ []);
        node_str = [];
        msg_read_cnt = (s.msg_read_cnt + r.2) % size_mod;
      }))
      else done s

  -- The end of the loop's body: the byte under the cursor closes a node or joins it.
  -- `++msg_read_cnt`.
  unfoldable pub take_char_in : Bytes → Scan → Outcome Scan
  unfolding char_at_in
  take_char_in msg s = char_at_in msg s.msg_read_cnt >>= λ c. done (
      if c == b'\n'
      then record {
        parsed = s.parsed ++ (s.node_str ∷ []);
        node_str = [];
        msg_read_cnt = (s.msg_read_cnt + 1) % size_mod;
      }
      else record s {
        node_str = s.node_str ++ (c ∷ []);
        msg_read_cnt = (s.msg_read_cnt + 1) % size_mod;
      })

  -- One round of the loop behind its test for too many nodes.
  unfoldable pub scan_step_in : Bytes → Scan → Outcome Scan
  unfolding take_config_in take_char_in
  scan_step_in msg s = take_config_in msg s >>= λ t. take_char_in msg t

  -- The loop of `ParseMsg`; `true` tells that it returned TOO_MANY_NODES.
  unfoldable pub scan_in : ℕ → Bytes → Scan → Outcome (Bool × List Bytes)
  unfolding scan_step_in
  scan_in zero msg s = fault out_of_fuel
  scan_in (suc fuel) msg s =
      if ltb s.msg_read_cnt (length msg)
      then (if leb msg_max_nodes (length s.parsed)
          then done (true, s.parsed)
          else (scan_step_in msg s >>= λ t. scan_in fuel msg t))
      else done (false, s.parsed)

abbrev pub scan_start : Scan
scan_start = record { parsed = []; node_str = []; msg_read_cnt = 0 }

abbrev pub status_of : MsgCmd → ParserStatus
status_of tcp_cmd_num = wrong_message
status_of _ = ok

-- What `ParseMsg` does behind the loop.
unfoldable pub finish : MsgParser → Bool → List Bytes → ParserStatus × MsgParser
unfolding verify_and_get_msg_command
finish p true parsed = (too_many_nodes, record p { parsed_masage = parsed })
finish p false parsed =
    let command = verify_and_get_msg_command parsed in
    (status_of command, record { parsed_masage = parsed; command = command })

-- `ParseMsg`. Every round but the last moves the cursor forward, so the length is fuel enough.
unfoldable pub parse_msg_in : Bytes → MsgParser → Bytes → Outcome (ParserStatus × MsgParser)
unfolding scan_in finish
parse_msg_in behind p msg =
    scan_in behind (suc (length msg)) msg scan_start >>= λ r. done (finish p r.0 r.1)

-- The same, where the memory that the program may read ends with the terminator.
abbrev pub char_at : Bytes → ℕ → Outcome ℕ
char_at = char_at_in []

abbrev pub copy_config : Bytes → ℕ → ℕ → Outcome Bytes
copy_config = copy_config_in []

abbrev pub get_config_stream : Bytes → ℕ → List Bytes → Outcome (ParserStatus × Bytes × ℕ)
get_config_stream = get_config_stream_in []

abbrev pub take_config : Bytes → Scan → Outcome Scan
take_config = take_config_in []

abbrev pub take_char : Bytes → Scan → Outcome Scan
take_char = take_char_in []

abbrev pub scan_step : Bytes → Scan → Outcome Scan
scan_step = scan_step_in []

abbrev pub scan : ℕ → Bytes → Scan → Outcome (Bool × List Bytes)
scan = scan_in []

abbrev pub parse_msg : MsgParser → Bytes → Outcome (ParserStatus × MsgParser)
parse_msg = parse_msg_in []

-- `GetMsgCommandStr`.
unfoldable pub get_msg_command_str : MsgParser → Bytes
get_msg_command_str p = if ltb 1 (length p.parsed_masage) then node_at p.parsed_masage 0 else []

-- `GetMsgStrAt`.
unfoldable pub get_msg_str_at : MsgParser → ℕ → Bytes
get_msg_str_at p index =
    if leb (length p.parsed_masage) index then [] else node_at p.parsed_masage index

-- `GetMsgAtributeNo`.
unfoldable pub get_msg_atribute_no : MsgParser → ℕ → Bytes
get_msg_atribute_no p index =
    if ltb (index + 2) (length p.parsed_masage) then node_at p.parsed_masage (index + 1) else []

-- `Clear`.
unfoldable pub clear : MsgParser → MsgParser
clear p = record p { parsed_masage = [] }
