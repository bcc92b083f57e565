-- ===== src/Parser/Tests.antt =====
-- Messages of communication/test/msg_parser_test.cpp, and the parser's theorems at such messages.
use rpi_tcp_listener.Base.{◌≡◌, refl, [], ◌∷◌, arith, map}
use rpi_tcp_listener.Base.Text.{Bytes, codes, atoi}
use rpi_tcp_listener.Base.Decimal.{print_nat}
use rpi_tcp_listener.Base.Outcome.{done, fault, bad_read}
use rpi_tcp_listener.Parser.{
  parse_msg_in, MsgParser, new, parse_msg, finish, ok, wrong_message, too_many_nodes, tcp_play,
  tcp_cmd_num, tcp_set_cfg, set_cfg_name, msg_command_end,
}
use rpi_tcp_listener.Parser.Framing.{write_nodes}
use rpi_tcp_listener.Parser.Commands.{IsCommand, lines_of, parse_msg-ok, parse_msg-lines_of}
use rpi_tcp_listener.Parser.Total.{Settles, parse_msg-Settles}
use rpi_tcp_listener.Parser.Reference.{parse_msg-parsed_as}
use rpi_tcp_listener.Parser.Config.{
  cfg_msg, write_config, line_ending, parse_msg_overrun, parse_msg-write_config,
}

abbrev play_msg : Bytes
play_msg = codes "TCP_PLAY\n1\nONCE\nEND\n"

abbrev play_parsed : MsgParser
play_parsed = record {
  parsed_masage = codes "TCP_PLAY" ∷ codes "1" ∷ codes "ONCE" ∷ codes "END" ∷ [];
  command = tcp_play;
}

play_parses : parse_msg new play_msg ≡ done (ok, play_parsed)
unfolding parse_msg_in new atoi
play_parses = refl

cfg_parses :
    parse_msg new (codes "TCP_SET_CFG\n4\na\nb\nEND\n")
    ≡ done (
      ok,
      record {
        parsed_masage = codes "TCP_SET_CFG" ∷ codes "4" ∷ codes "a\nb\n" ∷ codes "END" ∷ [];
        command = tcp_set_cfg;
      },
    )
unfolding parse_msg_in new atoi
cfg_parses = refl

negative_size : parse_msg new (codes "TCP_SET_CFG\n-1\na\nEND\n") ≡ fault bad_read
unfolding parse_msg_in new atoi
negative_size = refl

no_newline :
    parse_msg new (codes "TCP_STATUS\nEND")
    ≡ done
        (wrong_message, record { parsed_masage = codes "TCP_STATUS" ∷ []; command = tcp_cmd_num })
unfolding parse_msg_in new
no_newline = refl

parse_msg-ok_example : IsCommand play_parsed.command play_parsed.parsed_masage
parse_msg-ok_example = parse_msg-ok new play_parsed play_msg play_parses

parse_msg-lines_of_example :
    parse_msg new (write_nodes (lines_of tcp_play (codes "1" ∷ codes "ONCE" ∷ [])))
    ≡ done (
      ok,
      record {
        parsed_masage = lines_of tcp_play (codes "1" ∷ codes "ONCE" ∷ []);
        command = tcp_play;
      },
    )
parse_msg-lines_of_example =
    parse_msg-lines_of new tcp_play (codes "1" ∷ codes "ONCE" ∷ []) (ground arith) (ground arith)
      refl (omega arith) (omega arith)

-- A parser that has just taken TCP_PLAY, and a message of six lines.
abbrev overlong : Bytes
overlong = codes "a\nb\nc\nd\ne\nf\n"

abbrev overlong_parsed : MsgParser
overlong_parsed = record {
  parsed_masage = codes "a" ∷ codes "b" ∷ codes "c" ∷ codes "d" ∷ codes "e" ∷ [];
  command = tcp_play;
}

overlong_parses : parse_msg play_parsed overlong ≡ done (too_many_nodes, overlong_parsed)
unfolding parse_msg_in
overlong_parses = refl

parse_msg-Settles_example : Settles (parse_msg new (codes "TCP_SET_CFG\n-1\na\nEND\n"))
parse_msg-Settles_example = parse_msg-Settles new (codes "TCP_SET_CFG\n-1\na\nEND\n") (omega arith)

-- Bytes behind the fifth newline, and an old command.
abbrev six_lines : Bytes
six_lines = codes "TCP_PLAY\n1\nONCE\nEND\n\nTCP_STOP"

parse_msg-parsed_as_example :
    parse_msg play_parsed six_lines
    ≡ done (
      too_many_nodes,
      record {
        parsed_masage = codes "TCP_PLAY" ∷ codes "1" ∷ codes "ONCE" ∷ codes "END" ∷ [] ∷ [];
        command = tcp_play;
      },
    )
unfolding finish
parse_msg-parsed_as_example = parse_msg-parsed_as play_parsed six_lines (omega arith) refl

parse_msg_overrun_example :
    parse_msg new (cfg_msg (codes "40") (codes "a\nb\nEND\n")) ≡ fault bad_read
unfolding atoi
parse_msg_overrun_example =
    parse_msg_overrun new (codes "40") (codes "a\nb\nEND\n") (omega arith) (omega arith)
      (omega arith) (omega arith)

parse_msg-write_config_example :
    parse_msg new (write_config (codes "ip\r\n"))
    ≡ done (
      ok,
      record {
        parsed_masage =
            set_cfg_name ∷ print_nat 4 ∷ map line_ending (codes "ip\r\n") ∷ msg_command_end ∷ [];
        command = tcp_set_cfg;
      },
    )
unfolding print_nat
parse_msg-write_config_example = parse_msg-write_config new (codes "ip\r\n") (omega arith)
