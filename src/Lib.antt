-- ===== src/Lib.antt =====
-- rpi_tcp_listener: a daemon for a Raspberry Pi that plays sound files on request.
--
-- A client sends one command per TCP connection, as lines of text. The message parser
-- (src/communication/communication/msg_parser.cpp) cuts it into nodes and finds the command; the
-- handlers (communication.cpp) set the clock, drive the mp3 player or read and write the
-- configuration, and print a reply. The player (src/mp3/mp3/) is a state machine of three states over
-- mpg123 and libao, with a thread that plays and one that stops the player when the file has ended.
-- Sound files are stored with the bytes of each pair swapped (src/utilities/utilities/zip.cpp); the
-- configuration manager decodes them into the ram file system. A queue
-- (src/utilities/utilities/message_queue.h) hands messages between threads.
--
-- Files:
--   Base, Base/: lists, 32-bit integers as the target has them, bytes and texts (strcmp, atoi),
--   outcomes with the faults that C++ code can run into, decimal numbers as printf writes them.
--   Files: the file system, a map from names to byte lists.
--   Parser: `MsgParser` of msg_parser.{h,cpp}. `parse_msg` is `ParseMsg`; its loop `scan` runs on
--   fuel, one more than the length of the message, which suffices since each round moves the
--   cursor (Parser/Total). Parser/Reference describes it by the lines of the message, without a
--   cursor. `parse_msg_in` has the memory behind the message as well (Parser/Memory).
--   Mp3/Types, Mp3/Device, Mp3/States, Mp3/Calls: `Mp3Player`, its private methods, its three
--   states and its public methods; Mp3/Thread: the steps of `DoPlay` and `DoStop` between two
--   calls, and the destructor; Mp3/Pass: the loops of `DoPlay`; Mp3/AutoStop: the hand-over
--   between the two threads. Mp3/Abstract: a player without handles, buffers and threads, and the
--   traces that it allows. A method of the public interface is one function (`play`, `pause`,
--   `resume`, `stop`, `set_volume`), seen by a caller that holds `state_mutex_m`. mpg123, libao
--   and the file system are the parameter `Io`.
--   Zip: `ZipUncompress` and `ZipCompress`. The loop takes at least one byte in a round, so the
--   length of the file is fuel enough. The arrays that the code leaves uninitialised are
--   parameters.
--   Queue: `MessageQueue`, each operation one step since it holds the mutex throughout.
--   Time: `GetTime` and `SetTime`. `time`, `localtime`, `mktime` and `settimeofday` are the
--   parameter `Clock`.
--   Communication: `handleCommand` and its handlers. They call the definitions of Parser, Time,
--   Config and Mp3; the configured sound files, the libraries and the reboot callback are the
--   parameter `Env`.
--   Tcp: the descriptors, ports and statuses of `Server` and `Client`, and the server's loop of
--   `main` as far as they go. Tcp/Network: `ChangeIp`, with the bytes that the members of
--   `ifreq`'s union share; Tcp/Requests describes the requests that it makes of the kernel. What
--   the system calls answer are parameters, and so are `inet_pton`, `inet_addr` and `htons`
--   (`Net`).
--   Config: `ConfigManager`, with the encoded sounds that `ParseXml` decodes through Zip. What
--   pugixml gives for a file is a parameter, a `Document` of child values.
--   Logger, Logger/Format, Logger/Dir: `Logger`, its files, their rotation and their removal; the
--   log directory is a list of entries, `std::set` an ascending list. Logger/Newest: the directory
--   as a map from names. Logger/Opened, Logger/Bounded: its constructor. The block of `Log` that
--   writes a line is translated behind its `memset`. Messages are the texts that `vsnprintf`
--   makes.
--   Mp3/Locks: the three threads of the player (a caller of `Play` or `Stop`, `DoPlay`, `DoStop`)
--   at its mutexes, one step for each mutex taken or given back and for each `join`.
--   App, App/Signals: the arguments, the signals and `main`, which calls the definitions of the
--   other parts: the configuration, the sockets, the autoplay command, the loop (`turn`, `run`)
--   and the destructors. What `main` finds is the parameter `Machine`; its clients and their
--   signals are a list of rounds, each with its time, its files and devices, and the memory behind
--   `cmdMsg`. `run` goes as far as the rounds lead; `MainState` says whether `main` is then still
--   in its loop or has returned. App/Refine: a server without sockets and flags, which takes the
--   messages one by one. Communication/Protocol and Communication/Answering, App/Requests,
--   App/Conversation and App/Service: the requests of clients and the replies that they may count
--   on, over the player of Mp3/Abstract.
--
-- Numbers: `size_t`, `int` and `long` have 32 bits, as on the target; `size_t` arithmetic wraps at
-- 2 ^ 32. Reading behind a buffer, `vector::at` out of range, a text too long for its array, a failed
-- assertion and writing to a null `FILE*` are faults of `Base.Outcome`.
--
-- Thread ids: the id of a new play thread is what `std::thread` gives, a field of `Io`, so that it may
-- be one that a joined thread had. In Mp3/Locks the parameter `reuses` says whether ids are given out
-- again; what depends on it says so.
--
-- Not modelled: a spurious wake-up in `cv_m.wait`, which tests its condition again; what happens to
-- the files of the player inside the steps of Mp3/Locks, where `reopen` of the play thread is part of
-- its loops; the threads of the player inside a handler of `main`, which sees their steps between two
-- messages only; the addresses of clients; the calls of the log in the other components, the texts on
-- the screen and the call of `reboot`; pugixml and googletest, which are other projects' code.
pub mod Base
pub mod Files
pub mod Parser
pub mod Mp3
pub mod Zip
pub mod Queue
pub mod Time
pub mod Config
pub mod Communication
pub mod Tcp
pub mod App
pub mod Logger
