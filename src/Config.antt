-- ===== src/Config.antt =====
-- src/config_manager/config_manager/config_manager.{h,cpp}: the configuration, read through
-- pugixml, and its file.
--
-- A document is what the code asks of it: the texts that `child_value` gives, empty where a node is
-- missing. The arrays that `ZipUncompress` does not initialise are, for the i-th call, the
-- parameter `noise i`. The log is left out.
pub mod Sounds
pub mod Decoded
pub mod Loaded
mod Tests
use rpi_tcp_listener.Base.{
  ℕ, zero, suc, Bool, true, false, Option, none, some, List, [], ◌∷◌, ◌++◌, length, drop, replicate,
  ◌==◌, if◌then◌else◌,
}
use rpi_tcp_listener.Base.Int.{ℤ, pos}
use rpi_tcp_listener.Base.Text.{Bytes, codes, is_space, atoi}
use rpi_tcp_listener.Base.Outcome.{Outcome, done, ◌>>=◌}
use rpi_tcp_listener.Files.{Files, write}
use rpi_tcp_listener.Zip.{ZipStatus, ok, zip_uncompress}

pub data ConfigStatus : Type 0 where
  config_ok missing_fields_in_config file_not_found config_num : ConfigStatus

pub record Configuration : Type 0 where
  pub ip_str : Bytes
  pub gateway_str : Bytes
  pub mask_str : Bytes
  pub port : ℤ
  pub compressed_files : List Bytes
  pub sound_files : List Bytes
  pub autoplay : ℤ

-- The constructor of `ConfigManager`: the values in the order of the fields.
abbrev pub default_configuration : Configuration
default_configuration = record {
  ip_str = codes "127.0.0.1";
  gateway_str = codes "255.255.255.0";
  mask_str = [];
  port = pos 2055;
  compressed_files = [];
  sound_files = [];
  autoplay = pos 0;
}

-- `config_file_g`, `FILE_BLOCK`.
abbrev pub config_file : Bytes
config_file = codes "/etc/audio_app.cfg"

abbrev pub file_block : ℕ
file_block = 1024

-- A C string in an array: the bytes before the first 0.
abbrev pub c_str : Bytes → Bytes
c_str [] = []
c_str (c ∷ s) = let rest = c_str s in if c == 0 then [] else c ∷ rest

-- The loop of `GetConfigFromFile`: the buffer is cleared behind `fread`, then appended.
unfoldable pub read_blocks : ℕ → Bytes → Bytes → Bytes
read_blocks zero content stream = stream
read_blocks (suc fuel) [] stream = stream
read_blocks (suc fuel) (c ∷ s) stream =
    let buffer : Bytes = replicate file_block 0 in
    read_blocks fuel (drop file_block (c ∷ s)) (stream ++ c_str buffer)

-- `GetConfigFromFile`; `none` is FILE_NOT_FOUND.
unfoldable pub get_config_from_file : Files → Option Bytes
unfolding read_blocks
get_config_from_file fs = elim (fs.read config_file) [
  | none ↦ none
  | some content ↦ some (read_blocks (length content) content [])
]

-- `ConfigManager`. `default_configuration_m` is never changed.
pub record ConfigManager : Type 0 where
  pub configuration : Configuration

unfoldable pub new_config_manager : ConfigManager
new_config_manager = record { configuration = default_configuration }

-- `SaveConfigToFile`.
unfoldable pub save_config_to_file : Files → Bytes → ConfigStatus × Files
save_config_to_file fs stream =
    if fs.writable config_file
    then (config_ok, write fs config_file stream)
    else (file_not_found, fs)

-- The child values of the nodes under "audio_app_cfg".
pub record Document : Type 0 where
  pub sounds : List Bytes
  pub autoplay_text : Bytes
  pub ip : Bytes
  pub mask : Bytes
  pub gateway : Bytes
  pub port_text : Bytes

-- `ram_g`.
abbrev pub ram : Bytes
ram = codes "/tmp/"

abbrev pub is_blank : Bytes → Bool
is_blank [] = true
is_blank (c ∷ s) = let rest = is_blank s in if is_space c then rest else false

-- `std::istringstream(text) >> std::skipws >> value`: nothing is stored when the text has only
-- white space, 0 when it does not start with a number, and the nearest number when it is out of
-- range.
unfoldable pub extract : Bytes → ℤ → ℤ
unfolding atoi
extract text value = if is_blank text then value else atoi text

-- The loop over the sounds: the configuration, the status and the files so far.
pub record Loading : Type 0 where
  pub config : Configuration
  pub parse_status : ConfigStatus
  pub files : Files

-- What the loop does behind the call of `ZipUncompress`.
unfoldable pub add_sound : Loading → Bytes → ZipStatus → Files → Loading
add_sound s sound ok fs = record s {
  files = fs;
  config = record s.config {
    compressed_files = s.config.compressed_files ++ (sound ∷ []);
    sound_files = s.config.sound_files ++ ((ram ++ sound) ∷ []);
  };
}
add_sound s sound _ fs = record {
  parse_status = missing_fields_in_config;
  files = fs;
  config = record s.config {
    compressed_files = s.config.compressed_files ++ (sound ∷ []);
    sound_files = s.config.sound_files ++ ([] ∷ []);
  };
}

module _ (noise : ℕ → Bytes × ℕ) where
  unfoldable pub load_sounds : ℕ → Loading → List Bytes → Outcome Loading
  unfolding add_sound zip_uncompress
  load_sounds i s [] = done s
  load_sounds i s (sound ∷ sounds) =
      zip_uncompress (noise i).0 (noise i).1 s.files sound (ram ++ sound) >>= λ r.
      load_sounds (suc i) (add_sound s sound r.0 r.1) sounds

  -- The fields behind the loop.
  abbrev with_fields : Document → Configuration → Configuration
  with_fields doc c = record c {
    autoplay = extract doc.autoplay_text c.autoplay;
    ip_str = doc.ip;
    mask_str = doc.mask;
    gateway_str = doc.gateway;
    port = extract doc.port_text c.port;
  }

  abbrev loaded : Document → Loading → ConfigStatus × ConfigManager × Files
  loaded doc s = (s.parse_status, record { configuration = with_fields doc s.config }, s.files)

  -- `ParseXml`; `none` is a file that pugixml cannot load.
  unfoldable pub parse_xml :
      ConfigManager → Option Document → Files → Outcome (ConfigStatus × ConfigManager × Files)
  unfolding load_sounds extract
  parse_xml m none fs = done (file_not_found, m, fs)
  parse_xml m (some doc) fs =
      load_sounds 0 (record { config = m.configuration; parse_status = config_ok; files = fs })
        doc.sounds
      >>= λ s. done (loaded doc s)

  -- `ParseConfigFile`: `load_file` is pugixml's, on the files of the moment.
  unfoldable pub parse_config_file :
      (Files → Bytes → Option Document)
      → ConfigManager
      → Bytes
      → Files
      → Outcome (ConfigStatus × ConfigManager × Files)
  unfolding parse_xml
  parse_config_file load_file m file_name fs = parse_xml m (load_file fs file_name) fs
