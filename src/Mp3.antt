-- ===== src/Mp3.antt =====
-- src/mp3/mp3/: the player, its three states and the calls of mpg123 and libao, seen by a caller
-- that holds `state_mutex_m`.
--
-- What the libraries and the file system answer is the parameter `Io`. A pointer is an `Option`,
-- and `handles`, `buffers` and `devices` count what is allocated and not yet given back, also what
-- no pointer names any more. `mpg123_close`, `mpg123_delete`, `free` and `ao_close` do nothing at a
-- null pointer. A volume is in hundredths, as `volume_m`, and not the float that mpg123 takes.
pub mod Types
pub mod Device
pub mod States
pub mod Calls
pub mod Thread
pub mod Wellformed
pub mod Refine
pub mod Abstract
pub mod AutoStop
pub mod Leaks
pub mod Pass
pub mod Locks
pub mod Destructor
mod Tests
