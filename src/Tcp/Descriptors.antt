-- ===== src/Tcp/Descriptors.antt =====
-- src/tcp_connection/tcp_connection/: every descriptor that is opened is closed.
use rpi_tcp_listener.Base.{
  ℕ, ◌≡◌, refl, ◌∙◌, ap, ◌⊎◌, inr, Bool, true, false, Option, none, some, List, [], ◌∷◌, arith,
  ==_refl,
}
use rpi_tcp_listener.Base.Int.{ℤ, to_u16}
use rpi_tcp_listener.Base.Text.{Bytes}
use rpi_tcp_listener.Tcp.Network.{Ioctls, change_ip}
use rpi_tcp_listener.Tcp.{
  ConStatus, tcp_no_error, Sockets, Net, Listening, Round, close_fd, close_socket, server_connect,
  serve, serve_all,
}

pub close_fd_head : (fd : ℕ) (fds : List ℕ) → close_fd fd (fd ∷ fds) ≡ fds
unfolding close_fd
close_fd_head fd fds = rw (==_refl fd) refl

-- `ChangeIp` closes its socket on every path, whatever the system calls answer.
pub change_ip_closes :
    (net : Net) (fd : Option ℕ) (calls : Ioctls) (interface ip mask gateway : Bytes) (fds : List ℕ)
    → (change_ip net fd calls interface ip mask gateway fds).1 ≡ fds
unfolding change_ip close_socket
change_ip_closes net none calls interface ip mask gateway fds = refl
change_ip_closes net (some fd) calls interface ip mask gateway fds =
    ground (arith, close_fd_head fd fds)

-- What a call of `Connect` leaves: the listening socket is open, beside what was, or nothing new
-- is.
abbrev pub ConnectFits : ℕ → Sockets → Sockets × ConStatus → Type 0
ConnectFits port s (t, status) =
    ((fd : ℕ) × (status ≡ tcp_no_error)
      × (t.conn_socket_fd ≡ some fd)
      × (t.bound_port ≡ some port)
      × (t.open_fds ≡ fd ∷ s.open_fds))
    ⊎ ((t.conn_socket_fd ≡ none) × (t.bound_port ≡ none) × (t.open_fds ≡ s.open_fds))

-- A `Server::Connect` leaves -1 in its variable and no new descriptor, or it succeeds and leaves
-- the listening socket, bound to the port modulo 2 ^ 16, and no other new descriptor.
pub server_connect-Fits :
    (net : Net) (port : ℤ) (fd : Option ℕ) (calls : Listening) (s : Sockets)
    → ConnectFits (net.htons (to_u16 port)) s (server_connect net port fd calls s)
unfolding server_connect close_socket
server_connect-Fits net port none calls s = inr (refl, refl, refl)
server_connect-Fits net port (some fd) calls s = ground (arith, close_fd_head fd s.open_fds)

serve_same :
    (s : Sockets) (fd : Option ℕ) (reads writes : Bool)
    → s.client_socket_fd ≡ none
    → serve s (record { accepted = fd; reads = reads; writes = writes }) ≡ s
unfolding serve close_socket
serve_same s none reads writes h = rw h refl
serve_same s (some fd) true writes h = rw (close_fd_head fd s.open_fds, h) refl
serve_same s (some fd) false writes h = rw (close_fd_head fd s.open_fds, h) refl

-- However many rounds the server's loop makes, and whatever `accept`, `read` and `write` answer,
-- the sockets behind it are those before it, when no client was connected then: the same
-- descriptors are open, and no client is left.
pub serve_all_closes :
    (s : Sockets) (rs : List Round) → s.client_socket_fd ≡ none → serve_all s rs ≡ s
unfolding serve_all
serve_all_closes s [] h = refl
serve_all_closes s (r ∷ rs) h =
    let same = serve_same s r.accepted r.reads r.writes h in
    ap (λ t. serve_all t rs) same ∙ serve_all_closes s rs h
