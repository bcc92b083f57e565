-- ===== src/Tcp/Tests.antt =====
-- A server that listens on descriptor 3, a network that reads two addresses, and the theorems of
-- the parent at them.
use rpi_tcp_listener.Base.{
  ℕ, ◌*◌, ◌+◌, ◌/◌, ◌%◌, ◌≡◌, refl, true, false, some, none, [], ◌∷◌, if◌then◌else◌,
}
use rpi_tcp_listener.Base.Int.{pos}
use rpi_tcp_listener.Base.Text.{Bytes, codes, str_eq}
use rpi_tcp_listener.Tcp.Network.{
  Ifreq, Ioctls, change_ip, siocsifaddr, siocsifnetmask, siocsifflags, siocaddrt,
}
use rpi_tcp_listener.Tcp.Requests.{change_ip_lem}
use rpi_tcp_listener.Tcp.{
  Net, Sockets, Listening, server_connect, tcp_error_set_route, tcp_no_error,
}

abbrev no_sockets : Sockets
no_sockets = record {
  conn_socket_fd = none;
  client_socket_fd = none;
  sin_port = 0;
  bound_port = none;
  open_fds = 1 ∷ 2 ∷ [];
}

abbrev works : Listening
works = record { sets_option = true; binds = true; listens = true }

abbrev ip_text : Bytes
ip_text = codes "10.0.0.7"

abbrev gateway_text : Bytes
gateway_text = codes "10.0.0.1"

-- A processor with the least byte first, on which the network's order is the other one.
abbrev net : Net
net = record {
  inet_pton = λ text. if str_eq text ip_text then some 0x0700000a else none;
  inet_addr = λ text. if str_eq text gateway_text then 0x0100000a else 0xffffffff;
  htons = λ p. 256 * (p % 256) + p / 256;
}

abbrev listening : Sockets
listening = record {
  conn_socket_fd = some 3;
  client_socket_fd = none;
  sin_port = 0x901f;
  bound_port = some 0x901f;
  open_fds = 3 ∷ 1 ∷ 2 ∷ [];
}

-- 65536 more is the same port.
connects : server_connect net (pos 73616) (some 3) works no_sockets ≡ (listening, tcp_no_error)
unfolding server_connect
connects = refl

abbrev no_route : Ioctls
no_route = record { sets_ip = true; sets_mask = true; sets_flags = true; sets_route = false }

abbrev eth : ℕ → ℕ → Ifreq
eth family a = record { ifr_name = codes "eth0"; sa_family = family; sin_addr = a }

-- The configuration file names no netmask, and no route can be added.
change_ip_lem_example :
    change_ip net (some 4) no_route (codes "eth0") ip_text [] gateway_text (1 ∷ []) ≡ (
      tcp_error_set_route,
      1 ∷ [],
      siocsifaddr (eth 2 0x0700000a)
          ∷ siocsifnetmask (eth 2 0x0700000a)
          ∷ siocsifflags (eth 67 0x0700000a)
          ∷ siocaddrt 2 0x0100000a 3 100
          ∷ [],
    )
change_ip_lem_example = change_ip_lem net 4 no_route (codes "eth0") ip_text [] gateway_text (1 ∷ [])
