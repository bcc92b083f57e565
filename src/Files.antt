-- ===== src/Files.antt =====
-- The file system as the program uses it: whole files by name.
use rpi_tcp_listener.Base.{◌≡◌, Bool, false, Option, some, if◌then◌else◌}
use rpi_tcp_listener.Base.Text.{Bytes, str_eq, str_eq_refl}

-- The contents of a file that `fopen(…, "rb")` opens, and the names that `fopen(…, "wb")` opens.
pub record Files : Type 0 where
  pub read : Bytes → Option Bytes
  pub writable : Bytes → Bool

-- A file written from its start and closed.
abbrev pub write : Files → Bytes → Bytes → Files
write fs name content = record fs { read = λ n. if str_eq name n then some content else fs.read n }

pub read-write_self :
    (fs : Files) (name content : Bytes) → (write fs name content).read name ≡ some content
read-write_self fs name content = rw (str_eq_refl name)

pub read-write_ne :
    (fs : Files) (name other content : Bytes)
    → str_eq name other ≡ false
    → (write fs name content).read other ≡ fs.read other
read-write_ne fs name other content h = rw h
