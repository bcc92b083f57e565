-- ===== src/Tcp/Requests.antt =====
-- src/tcp_connection/tcp_connection/tcp_connection.cpp: what `ChangeIp` asks of the kernel.
use rpi_tcp_listener.Base.{ℕ, ◌≡◌, Option, none, some, List, [], ◌∷◌, arith, take, if◌then◌else◌}
use rpi_tcp_listener.Base.Text.{Bytes}
use rpi_tcp_listener.Tcp.{
  ConStatus, tcp_no_error, tcp_error_set_ip, tcp_error_set_mask, tcp_error_set_route,
  tcp_error_set_flags, Net, close_socket,
}
use rpi_tcp_listener.Tcp.Network.{
  Ifreq, Ioctl, siocsifaddr, siocsifnetmask, siocsifflags, siocaddrt, Ioctls, change_ip, set_route,
}
use rpi_tcp_listener.Tcp.Descriptors.{close_fd_head}

-- An address as `inet_pton` reads it, or what stood there before.
abbrev pub read_or : Option ℕ → ℕ → ℕ
read_or none old = old
read_or (some a) old = a

-- The four requests, with the numbers that the kernel sees.
abbrev pub requests_of : Net → (interface ip mask gateway : Bytes) → List Ioctl
requests_of net interface ip mask gateway =
    let address = read_or (net.inet_pton ip) 0 in
    let netmask = read_or (net.inet_pton mask) address in
    let ifr : ℕ → ℕ → Ifreq =
      λ family a. record { ifr_name = take 16 interface; sa_family = family; sin_addr = a } in
    siocsifaddr (ifr 2 address)
    ∷ siocsifnetmask (ifr 2 netmask)
    ∷ siocsifflags (ifr 0x43 netmask)
    ∷ siocaddrt 2 (net.inet_addr gateway) 3 100
    ∷ []

-- Where the first refusal stands, and the status that it gives.
abbrev pub outcome_of : Ioctls → ℕ × ConStatus
outcome_of calls =
    if calls.sets_ip
    then (if calls.sets_mask
        then (if calls.sets_flags
            then (4, (if calls.sets_route then tcp_no_error else tcp_error_set_route))
            else (3, tcp_error_set_flags))
        else (2, tcp_error_set_mask))
    else (1, tcp_error_set_ip)

-- With a socket, `ChangeIp` asks the kernel for the address, the netmask, the flags and the route,
-- in this order, up to the first request that fails, which gives the status, and closes the socket.
-- The flags are 0x43 (up, broadcast, running), whatever they were; a netmask text that cannot be
-- read sets the netmask to the address, and an address text that cannot be read the address to
-- 0.0.0.0.
pub change_ip_lem :
    (net : Net) (fd : ℕ) (calls : Ioctls) (interface ip mask gateway : Bytes) (fds : List ℕ)
    → change_ip net (some fd) calls interface ip mask gateway fds ≡ (
      (outcome_of calls).1,
      fds,
      take (outcome_of calls).0 (requests_of net interface ip mask gateway),
    )
unfolding change_ip set_route close_socket
change_ip_lem net fd calls interface ip mask gateway fds = ground (arith, close_fd_head fd fds)
