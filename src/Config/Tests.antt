-- ===== src/Config/Tests.antt =====
-- A configuration with two sounds, one of which is missing, and the theorems of the parent at it.
use rpi_tcp_listener.Base.{ℕ, ◌≡◌, refl, true, some, none, List, [], ◌∷◌, arith, if◌then◌else◌}
use rpi_tcp_listener.Base.Int.{pos}
use rpi_tcp_listener.Base.Text.{Bytes, codes, str_eq}
use rpi_tcp_listener.Base.Outcome.{done}
use rpi_tcp_listener.Files.{Files, write}
use rpi_tcp_listener.Config.{
  config_ok, missing_fields_in_config, ConfigManager, Document, new_config_manager, parse_xml,
}
use rpi_tcp_listener.Config.Sounds.{Slots, parse_xml-Slots}
use rpi_tcp_listener.Config.Decoded.{Ram, parse_xml-reads}

abbrev disk : Files
disk = record {
  read = λ n. if str_eq (codes "a.mp3") n then some (codes "badc") else none;
  writable = λ n. true;
}

abbrev zeros : ℕ → Bytes × ℕ
zeros i = ([], 0)

abbrev one_sound : Document
one_sound = record {
  sounds = codes "a.mp3" ∷ [];
  autoplay_text = codes " 1\n";
  ip = codes "10.0.0.2";
  mask = codes "255.0.0.0";
  gateway = codes "10.0.0.1";
  port_text = [];
}

abbrev two_sounds : Document
two_sounds = record one_sound { sounds = codes "b.mp3" ∷ codes "a.mp3" ∷ [] }

abbrev behind : ConfigManager
behind = record {
  configuration = record {
    ip_str = codes "10.0.0.2";
    gateway_str = codes "10.0.0.1";
    mask_str = codes "255.0.0.0";
    port = pos 2055;
    compressed_files = codes "b.mp3" ∷ codes "a.mp3" ∷ [];
    sound_files = [] ∷ codes "/tmp/a.mp3" ∷ [];
    autoplay = pos 1;
  };
}

two_parsed :
    parse_xml zeros new_config_manager (some two_sounds) disk
    ≡ done (missing_fields_in_config, behind, write disk (codes "/tmp/a.mp3") (codes "abcd"))
unfolding parse_xml new_config_manager
two_parsed = refl

parse_xml-Slots_example :
    (behind.configuration.compressed_files ≡ codes "b.mp3" ∷ codes "a.mp3" ∷ [])
    × (slots : List Bytes) × (behind.configuration.sound_files ≡ slots)
    × Slots zeros 0
        (codes "b.mp3" ∷ codes "a.mp3" ∷ [])
        slots
        config_ok
        missing_fields_in_config
        disk
        (write disk (codes "/tmp/a.mp3") (codes "abcd"))
unfolding new_config_manager
parse_xml-Slots_example =
    parse_xml-Slots zeros new_config_manager behind two_sounds disk
      (write disk (codes "/tmp/a.mp3") (codes "abcd")) missing_fields_in_config two_parsed

abbrev bytes_of : Bytes → Bytes
bytes_of n = codes "badc"

parse_xml-reads_example :
    (n : ConfigManager) × (fs' : Files) × (parse_xml zeros new_config_manager (some one_sound) disk
      ≡ done (config_ok, n, fs'))
    × Ram bytes_of disk fs' (codes "a.mp3" ∷ [])
parse_xml-reads_example =
    parse_xml-reads zeros bytes_of new_config_manager one_sound disk
      ((refl, refl, omega arith, refl), tt)
