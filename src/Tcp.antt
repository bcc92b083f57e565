-- ===== src/Tcp.antt =====
-- src/tcp_connection/tcp_connection/: the sockets of the server and the client, and the change of
-- the network address.
--
-- A descriptor variable is an `Option`, `none` where the code has -1. What the system calls answer
-- are parameters, and the descriptors that the kernel has given out and not got back are a list.
-- The addresses of clients, the contents of the buffers and the log are left out.
pub mod Network
pub mod Requests
pub mod Descriptors
mod Tests
use rpi_tcp_listener.Base.Int.{ℤ, to_u16}
use rpi_tcp_listener.Base.Text.{Bytes}
use rpi_tcp_listener.Base.{
  ℕ, Bool, true, false, Option, none, some, List, [], ◌∷◌, ◌==◌, if◌then◌else◌,
}

-- `BUFFER_SIZE`, the size of `cmdMsg` and `replyMsg`.
abbrev pub buffer_size : ℕ
buffer_size = 1024

pub data ConStatus : Type 0 where
  tcp_no_error tcp_error_create_fd tcp_error_set_ip tcp_error_set_mask tcp_error_set_route
        tcp_error_set_flags tcp_error_opening_port tcp_error_on_binding tcp_error_on_listen
        tcp_error_accept_socket tcp_error_connect_socket tcp_error_server_address
        tcp_error_wrong_socket tcp_error_write_to_socket tcp_error_read_from_socket tcp_status_num :
      ConStatus

-- `conn_socket_fd_m`, `client_socket_fd_m`, the port in `my_addr_m`, the port that the kernel has
-- bound the first descriptor to, and the descriptors that are open. A `Client` uses the first only.
pub record Sockets : Type 0 where
  pub conn_socket_fd : Option ℕ
  pub client_socket_fd : Option ℕ
  pub sin_port : ℕ
  pub bound_port : Option ℕ
  pub open_fds : List ℕ

-- `close`.
unfoldable pub close_fd : ℕ → List ℕ → List ℕ
close_fd fd [] = []
close_fd fd (x ∷ xs) = let rest = close_fd fd xs in if fd == x then xs else x ∷ rest

-- What is open behind `CloseSocket`, which leaves -1 in its argument.
unfoldable pub close_socket : Option ℕ → List ℕ → List ℕ
unfolding close_fd
close_socket none fds = fds
close_socket (some fd) fds = close_fd fd fds

abbrev pub with_fd : Option ℕ → List ℕ → List ℕ
with_fd none fds = fds
with_fd (some fd) fds = fd ∷ fds

-- The library's conversions: `inet_pton`, `none` where it leaves its argument alone, `inet_addr`,
-- and `htons` of a 16-bit number.
pub record Net : Type 0 where
  pub inet_pton : Bytes → Option ℕ
  pub inet_addr : Bytes → ℕ
  pub htons : ℕ → ℕ

-- `CreateSocket`, which does not test what `socket` returned.
unfoldable pub create_socket : Net → ℤ → Option ℕ → Sockets → Sockets
create_socket net port fd s = record s {
  conn_socket_fd = fd;
  sin_port = net.htons (to_u16 port);
  open_fds = with_fd fd s.open_fds;
}

-- `CloseSocket(conn_socket_fd_m)` and `CloseSocket(client_socket_fd_m)`.
abbrev pub close_conn : Sockets → Sockets
close_conn s = record s {
  conn_socket_fd = none;
  bound_port = none;
  open_fds = close_socket s.conn_socket_fd s.open_fds;
}

abbrev pub close_client : Sockets → Sockets
close_client s = record s {
  client_socket_fd = none;
  open_fds = close_socket s.client_socket_fd s.open_fds;
}

-- Whether `setsockopt`, `bind` and `listen` succeed on a socket.
pub record Listening : Type 0 where
  pub sets_option : Bool
  pub binds : Bool
  pub listens : Bool

abbrev bound : Sockets → Sockets
bound s = record s { bound_port = some s.sin_port }

abbrev listen_on : Listening → Sockets → Sockets × ConStatus
listen_on calls s =
    if calls.sets_option
    then (if calls.binds
        then (if calls.listens
            then (bound s, tcp_no_error)
            else (close_conn (bound s), tcp_error_on_listen))
        else (close_conn s, tcp_error_on_binding))
    else (close_conn s, tcp_error_opening_port)

abbrev bind_from : Option ℕ → Listening → Sockets → Sockets × ConStatus
bind_from none calls s = (close_conn s, tcp_error_opening_port)
bind_from (some fd) calls s = listen_on calls s

-- `BindAndListen`.
unfoldable pub bind_and_listen : Listening → Sockets → Sockets × ConStatus
unfolding close_socket
bind_and_listen calls s = bind_from s.conn_socket_fd calls s

-- `Server::Connect`; `CreateSocket` always returns TCP_NO_ERROR.
unfoldable pub server_connect : Net → ℤ → Option ℕ → Listening → Sockets → Sockets × ConStatus
unfolding bind_and_listen create_socket
server_connect net port fd calls s = bind_and_listen calls (create_socket net port fd s)

-- `Accept`: -1 is stored too.
unfoldable pub accept : Option ℕ → Sockets → Sockets × ConStatus
accept none s = (record s { client_socket_fd = none }, tcp_error_accept_socket)
accept (some fd) s =
    (record s { client_socket_fd = some fd; open_fds = fd ∷ s.open_fds }, tcp_no_error)

-- `ReceiveFromSocket` and `SendToSocket`; the flag tells whether `read` or `write` succeeds.
abbrev receive_from_socket : Option ℕ → Bool → ConStatus
receive_from_socket none reads = tcp_error_wrong_socket
receive_from_socket (some fd) reads = if reads then tcp_no_error else tcp_error_read_from_socket

abbrev send_to_socket : Option ℕ → Bool → ConStatus
send_to_socket none writes = tcp_error_wrong_socket
send_to_socket (some fd) writes = if writes then tcp_no_error else tcp_error_write_to_socket

abbrev close_on_error : ConStatus → Sockets → Sockets
close_on_error tcp_no_error s = s
close_on_error _ s = close_client s

abbrev receive_on : Sockets × ConStatus → Bool → Sockets × ConStatus
receive_on (s, tcp_no_error) reads =
    let status = receive_from_socket s.client_socket_fd reads in (close_on_error status s, status)
receive_on (s, status) reads = (s, status)

-- `Server::Receive`.
unfoldable pub server_receive : Option ℕ → Bool → Sockets → Sockets × ConStatus
unfolding accept close_socket
server_receive fd reads s = receive_on (accept fd s) reads

abbrev send_on : Option ℕ → Bool → Sockets → Sockets × ConStatus
send_on none writes s = (s, tcp_error_wrong_socket)
send_on (some fd) writes s = (close_client s, send_to_socket (some fd) writes)

-- `Server::Send`.
unfoldable pub server_send : Bool → Sockets → Sockets × ConStatus
unfolding close_socket
server_send writes s = send_on s.client_socket_fd writes s

-- `Server::Disconnect`; `shutdown` leaves the descriptor open.
unfoldable pub server_disconnect : Sockets → Sockets
unfolding close_socket
server_disconnect s = close_conn (close_client s)

-- `Client::Connect`: whether the address is found, and whether `connect` succeeds.
unfoldable pub client_connect : Net → ℤ → Option ℕ → Bool → Bool → Sockets → Sockets × ConStatus
unfolding create_socket close_socket
client_connect net port fd found connects s =
    let t = create_socket net port fd s in
    if found
    then (if connects then (t, tcp_no_error) else (close_conn t, tcp_error_connect_socket))
    else (close_conn t, tcp_error_server_address)

-- `Client::Disconnect`, `Client::Receive` and `Client::Send`.
unfoldable pub client_disconnect : Sockets → Sockets
unfolding close_socket
client_disconnect s = close_conn s

unfoldable pub client_receive : Bool → Sockets → ConStatus
client_receive reads s = receive_from_socket s.conn_socket_fd reads

unfoldable pub client_send : Bool → Sockets → ConStatus
client_send writes s = send_to_socket s.conn_socket_fd writes

abbrev serve_on : Sockets × ConStatus → Bool → Sockets
serve_on (s, tcp_no_error) writes = (server_send writes s).0
serve_on (s, status) writes = s

-- What `accept`, `read` and `write` answer in a round of the loop of `main`.
pub record Round : Type 0 where
  pub accepted : Option ℕ
  pub reads : Bool
  pub writes : Bool

-- A round: `Receive`, and `Send` if it succeeded.
unfoldable pub serve : Sockets → Round → Sockets
unfolding server_receive server_send
serve s r = serve_on (server_receive r.accepted r.reads s) r.writes

-- The loop of `main` until it stops.
unfoldable pub serve_all : Sockets → List Round → Sockets
unfolding serve
serve_all s [] = s
serve_all s (r ∷ rs) = serve_all (serve s r) rs
