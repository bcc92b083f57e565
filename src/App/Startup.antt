-- ===== src/App/Startup.antt =====
-- src/app_rpi_tcp_listener/rpi_tcp_listener.cpp: the start of `main`, from the encoded sounds to
-- the first one played.
use rpi_tcp_listener.Base.{
  ℕ, suc, ◌≡◌, ◌∙◌, ap, ◌≤◌, some, [], ◌++◌, All, get_elem?, length, arith, if◌then◌else◌,
}
use rpi_tcp_listener.Base.Int.{pos, int_max}
use rpi_tcp_listener.Base.Text.{Bytes}
use rpi_tcp_listener.Base.Outcome.{done}
use rpi_tcp_listener.Files.{Files}
use rpi_tcp_listener.Time.{TimeStatus, get_time}
use rpi_tcp_listener.Zip.Swap.{swap_pairs}
use rpi_tcp_listener.Mp3.Types.{once}
use rpi_tcp_listener.Mp3.Calls.{new_player, play}
use rpi_tcp_listener.Config.{
  ConfigManager, Document, ram, extract, config_file, config_ok, new_config_manager, parse_xml,
  parse_config_file,
}
use rpi_tcp_listener.Config.Decoded.{IsSource, parse_xml-reads}
use rpi_tcp_listener.Config.Loaded.{
  parse_xml-autoplay, parse_xml-in_ram, in_ram-found, length-in_ram, found-member,
}
use rpi_tcp_listener.Communication.{Communication}
use rpi_tcp_listener.App.{Machine, env_of, new_communication, autoplay_file}
use rpi_tcp_listener.App.Session.{autoplay_file_lem}

parsed :
    (m : Machine) (doc : Document) (n : ConfigManager) (fs : Files)
    → m.load_file m.files config_file ≡ some doc
    → parse_xml m.noise new_config_manager (some doc) m.files ≡ done (config_ok, n, fs)
    → parse_config_file m.noise m.load_file new_config_manager config_file m.files
      ≡ done (config_ok, n, fs)
unfolding parse_config_file
parsed m doc n fs d h = ap (λ o. parse_xml m.noise new_config_manager o m.files) d ∙ h

-- When the configuration file names sounds outside of /tmp/ that exist with less than 2 ^ 32 bytes
-- each and can be written in ram, at most 2 ^ 31 - 1 of them, and the number of the i-th as
-- autoplay, and `GetTime` can print the time or leaves it alone: `main` reads the configuration
-- with OK, and its autoplay block returns with the player as `Play` of the i-th sound in ram leaves
-- it, while this file in ram holds the bytes of the sound with each pair swapped.
pub autoplay_file-parse_config_file :
    (m : Machine) (doc : Document) (content : Bytes → Bytes) (i : ℕ) (sound : Bytes)
    (status : TimeStatus) (time : Bytes)
    → m.load_file m.files config_file ≡ some doc
    → All (IsSource m.files content) doc.sounds
    → length doc.sounds ≤ int_max
    → get_elem? doc.sounds i ≡ some sound
    → extract doc.autoplay_text (pos 0) ≡ pos (suc i)
    → get_time m.clock m.now [] ≡ done (status, time)
    → (n : ConfigManager) × (fs : Files) × (c : Communication) × (parse_config_file m.noise
          m.load_file new_config_manager config_file m.files
        ≡ done (config_ok, n, fs))
      × (autoplay_file (env_of m n) n.configuration.autoplay (new_communication fs m.now) ≡ done c)
      × (c.mp3_player ≡ (play m.io new_player (ram ++ sound) once).0)
      × (fs.read (ram ++ sound) ≡ some (swap_pairs (content sound)))
unfolding new_config_manager new_communication
autoplay_file-parse_config_file m doc content i sound status time d sources few found number t =
    let (n, fs, read, reads) =
      parse_xml-reads m.noise content new_config_manager doc m.files sources in
    let files = parse_xml-in_ram m.noise new_config_manager n doc m.files fs read in
    let (c, played, player) =
      autoplay_file_lem (env_of m n) (new_communication fs m.now) i (ram ++ sound) status time
        (ap (λ xs. get_elem? xs i) files ∙ in_ram-found doc.sounds i sound found)
        (omega (arith, ap length files, length-in_ram doc.sounds)) t in
    let autoplay = parse_xml-autoplay m.noise new_config_manager n doc m.files fs config_ok read in
    (
      n,
      fs,
      c,
      parsed m doc n fs d read,
      ap (λ a. autoplay_file (env_of m n) a (new_communication fs m.now)) (autoplay ∙ number)
          ∙ played,
      player,
      reads sound
          ∙ ap (λ b. if b then some (swap_pairs (content sound)) else m.files.read (ram ++ sound))
              (found-member doc.sounds i sound found),
    )
