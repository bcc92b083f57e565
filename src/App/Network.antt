-- ===== src/App/Network.antt =====
-- src/app_rpi_tcp_listener/rpi_tcp_listener.cpp: the addresses and the port, from the configuration
-- file to the kernel.
use rpi_tcp_listener.Base.{ℕ, Option, sym, ◌≡◌, refl, ◌∙◌, ap, true, some, List, [], ◌∷◌}
use rpi_tcp_listener.Base.Int.{ℤ, pos, to_u16}
use rpi_tcp_listener.Base.Text.{Bytes, codes}
use rpi_tcp_listener.Base.Outcome.{done}
use rpi_tcp_listener.Files.{Files}
use rpi_tcp_listener.Config.{
  ConfigStatus, ConfigManager, Document, extract, config_file, new_config_manager, parse_xml,
  parse_config_file,
}
use rpi_tcp_listener.Config.Loaded.{parse_xml-network}
use rpi_tcp_listener.Tcp.{Net, Sockets, Listening, tcp_no_error, server_connect}
use rpi_tcp_listener.Tcp.Network.{
  Ioctls, Ifreq, siocsifaddr, siocsifnetmask, siocsifflags, siocaddrt, change_ip,
}
use rpi_tcp_listener.Tcp.Requests.{change_ip_lem}
use rpi_tcp_listener.Tcp.Descriptors.{change_ip_closes}
use rpi_tcp_listener.App.{Machine, network_interface, network_changed, unconnected, connected}

-- Every system call that sets up the network succeeds.
pub record Grants (m : Machine) (ip_fd conn_fd : ℕ) : Type 0 where
  pub socket : m.ip_fd ≡ some ip_fd
  pub ioctls :
      m.ioctls ≡ record { sets_ip = true; sets_mask = true; sets_flags = true; sets_route = true }
  pub server : m.conn_fd ≡ some conn_fd
  pub listens : m.listening ≡ record { sets_option = true; binds = true; listens = true }

abbrev pub eth0 : ℕ → ℕ → Ifreq
eth0 family a = record { ifr_name = codes "eth0"; sa_family = family; sin_addr = a }

granted :
    (net : Net) (found : Option ℕ) (calls : Ioctls) (fd : ℕ) (ip_text mask_text gateway : Bytes)
    (fds : List ℕ) (ip mask : ℕ)
    → found ≡ some fd
    → calls ≡ record { sets_ip = true; sets_mask = true; sets_flags = true; sets_route = true }
    → net.inet_pton ip_text ≡ some ip
    → net.inet_pton mask_text ≡ some mask
    → change_ip net found calls network_interface ip_text mask_text gateway fds ≡ (
      tcp_no_error,
      fds,
      siocsifaddr (eth0 2 ip)
          ∷ siocsifnetmask (eth0 2 mask)
          ∷ siocsifflags (eth0 0x43 mask)
          ∷ siocaddrt 2 (net.inet_addr gateway) 3 100
          ∷ [],
    )
granted net found calls fd ip_text mask_text gateway fds ip mask f c i k =
    rw (f, c)
      (change_ip_lem net fd
          (record { sets_ip = true; sets_mask = true; sets_flags = true; sets_route = true })
          network_interface ip_text mask_text gateway fds
        ∙ rw (i, k) refl)

listening_lem :
    (net : Net) (port : ℤ) (found : Option ℕ) (calls : Listening) (fd : ℕ) (s : Sockets)
    → found ≡ some fd
    → calls ≡ record { sets_option = true; binds = true; listens = true }
    → let t = (server_connect net port found calls s).0 in
      (t.conn_socket_fd ≡ some fd)
      × (t.bound_port ≡ some (net.htons (to_u16 port)))
      × (t.open_fds ≡ fd ∷ s.open_fds)
unfolding server_connect
listening_lem net port found calls fd s f c = rw (f, c) (refl, refl, refl)

-- When the configuration file can be loaded, its address and its netmask can be read, and every
-- system call succeeds: `main` asks for this address, this netmask, the flags and the route over
-- its gateway, for eth0, and listens on its port modulo 2 ^ 16, or on 2055 if the file has no port.
pub network_changed-parse_config_file :
    (m : Machine) (doc : Document) (n : ConfigManager) (fs : Files) (status : ConfigStatus)
    (fds : List ℕ) (ip_fd conn_fd ip mask : ℕ)
    → m.load_file m.files config_file ≡ some doc
    → parse_config_file m.noise m.load_file new_config_manager config_file m.files
      ≡ done (status, n, fs)
    → Grants m ip_fd conn_fd
    → m.net.inet_pton doc.ip ≡ some ip
    → m.net.inet_pton doc.mask ≡ some mask
    → (network_changed m n fds ≡ (
      tcp_no_error,
      fds,
      siocsifaddr (eth0 2 ip)
          ∷ siocsifnetmask (eth0 2 mask)
          ∷ siocsifflags (eth0 0x43 mask)
          ∷ siocaddrt 2 (m.net.inet_addr doc.gateway) 3 100
          ∷ [],
    ))
      × ((connected m n fds).conn_socket_fd ≡ some conn_fd)
      × ((connected m n fds).bound_port
          ≡ some (m.net.htons (to_u16 (extract doc.port_text (pos 2055)))))
      × ((connected m n fds).open_fds ≡ conn_fd ∷ fds)
unfolding parse_config_file new_config_manager
network_changed-parse_config_file m doc n fs status fds ip_fd conn_fd ip mask d h g i k =
    let parsed : parse_xml m.noise new_config_manager (some doc) m.files ≡ done (status, n, fs) =
      ap (λ o. parse_xml m.noise new_config_manager o m.files) (sym d) ∙ h in
    let (ips, masks, gateways, ports) =
      parse_xml-network m.noise new_config_manager n doc m.files fs status parsed in
    let c = n.configuration in
    let asked =
      granted m.net m.ip_fd m.ioctls ip_fd c.ip_str c.mask_str c.gateway_str fds ip mask g.socket
        g.ioctls (ap m.net.inet_pton ips ∙ i) (ap m.net.inet_pton masks ∙ k) in
    let (conn, bound, opened) =
      listening_lem m.net c.port m.conn_fd m.listening conn_fd (unconnected m n fds) g.server
        g.listens in
    (
      asked
          ∙ ap
              (λ t. (
                tcp_no_error,
                fds,
                siocsifaddr (eth0 2 ip)
                    ∷ siocsifnetmask (eth0 2 mask)
                    ∷ siocsifflags (eth0 0x43 mask)
                    ∷ siocaddrt 2 (m.net.inet_addr t) 3 100
                    ∷ [],
              ))
              gateways,
      conn,
      bound ∙ ap (λ p. some (m.net.htons (to_u16 p))) ports,
      opened
          ∙ ap (λ t. conn_fd ∷ t)
              (change_ip_closes m.net m.ip_fd m.ioctls network_interface c.ip_str c.mask_str
                c.gateway_str fds),
    )
