-- ===== src/Tcp/Network.antt =====
-- src/tcp_connection/tcp_connection/tcp_connection.cpp: `ChangeIp`, with the requests that it makes
-- of the kernel.
--
-- `ifr_addr`, `ifr_netmask` and `ifr_flags` are members of one union (netdevice(7)), and the flags
-- and the family are its first two bytes.
use Prim.Native.Nat.{bit_or}
use rpi_tcp_listener.Base.{ℕ, Bool, Option, none, some, List, [], ◌∷◌, take, if◌then◌else◌}
use rpi_tcp_listener.Base.Text.{Bytes}
use rpi_tcp_listener.Tcp.{
  ConStatus, tcp_no_error, tcp_error_create_fd, tcp_error_set_ip, tcp_error_set_mask,
  tcp_error_set_route, tcp_error_set_flags, Net, close_socket,
}

abbrev pub af_inet : ℕ
af_inet = 2

-- IFF_UP | IFF_RUNNING.
abbrev pub up_and_running : ℕ
up_and_running = 0x41

-- RTF_UP | RTF_GATEWAY.
abbrev pub up_gateway : ℕ
up_gateway = 3

-- IFNAMSIZ.
abbrev pub if_name_size : ℕ
if_name_size = 16

-- `struct ifreq`: the name as `strncpy` leaves it, without the zeros behind, and the union.
pub record Ifreq : Type 0 where
  pub ifr_name : Bytes
  pub sa_family : ℕ
  pub sin_addr : ℕ

-- A call of `ioctl`. A route is from any address to any, so that its gateway, flags and metric
-- remain.
pub data Ioctl : Type 0 where
  siocsifaddr siocsifnetmask siocsifflags : (ifr : Ifreq) → Ioctl
  siocaddrt : (family gateway flags metric : ℕ) → Ioctl

-- Whether the calls of `ioctl` succeed: the last one is that of `SetRoute`.
pub record Ioctls : Type 0 where
  pub sets_ip : Bool
  pub sets_mask : Bool
  pub sets_flags : Bool
  pub sets_route : Bool

-- `inet_pton(AF_INET, text, &addr->sin_addr)`.
abbrev pub with_address : Net → Bytes → Ifreq → Ifreq
with_address net text ifr = elim (net.inet_pton text) [
  | none ↦ ifr
  | some a ↦ record ifr { sin_addr = a }
]

-- `ifr.ifr_flags |= (IFF_UP | IFF_RUNNING)`.
abbrev pub with_flags : Ifreq → Ifreq
with_flags ifr = record ifr { sa_family = bit_or ifr.sa_family up_and_running }

-- `SetRoute`.
unfoldable pub set_route : Net → Bool → Bytes → ConStatus × Ioctl
set_route net sets gateway = (
  if sets then tcp_no_error else tcp_error_set_route,
  siocaddrt af_inet (net.inet_addr gateway) up_gateway 100,
)

-- `ChangeIp`: its status, the open descriptors behind it, and the calls of `ioctl` that it made,
-- where `socket_fd` is what `socket` returns.
unfoldable pub change_ip :
    Net
    → Option ℕ
    → Ioctls
    → (interface ip mask gateway : Bytes) → List ℕ
    → ConStatus × List ℕ × List Ioctl
unfolding close_socket set_route
change_ip net none calls interface ip mask gateway fds = (tcp_error_create_fd, fds, [])
change_ip net (some fd) calls interface ip mask gateway fds =
    let closed = close_socket (some fd) (fd ∷ fds) in
    let named : Ifreq = record {
      ifr_name = take if_name_size interface;
      sa_family = af_inet;
      sin_addr = 0;
    } in
    let address = with_address net ip named in
    let netmask = with_address net mask address in
    let flags = with_flags netmask in
    let (status, route) = set_route net calls.sets_route gateway in
    if calls.sets_ip
    then (if calls.sets_mask
        then (if calls.sets_flags
            then (
              status,
              closed,
              siocsifaddr address ∷ siocsifnetmask netmask ∷ siocsifflags flags ∷ route ∷ [],
            )
            else (
              tcp_error_set_flags,
              closed,
              siocsifaddr address ∷ siocsifnetmask netmask ∷ siocsifflags flags ∷ [],
            ))
        else (tcp_error_set_mask, closed, siocsifaddr address ∷ siocsifnetmask netmask ∷ []))
    else (tcp_error_set_ip, closed, siocsifaddr address ∷ [])
