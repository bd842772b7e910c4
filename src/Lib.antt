-- ===== src/Lib.antt =====
-- Ferrosonic: the daemon of a music client, its playback core, its settings and its wire format,
-- modelled and proved.
--
-- The program is a terminal music client with a daemon (src/ of the repository). The daemon keeps a
-- queue of songs, drives mpv over a socket, keeps PipeWire at the rate of the track, and talks to a
-- Subsonic server. Clients send requests; a tick every 500 ms watches mpv; tasks run beside them.
--
-- Which file models what:
--   Prelude, Float              lists, maps, texts and integers; `f64` as a type with its operations
--   Subsonic                    src/subsonic/models.rs, the song record
--   Config, Config/Repeat, Config/Modes, Config/MacosAudio, Config/Filters
--                               src/config/mod.rs (the settings, the modes) and
--                               src/daemon/playback_filters.rs
--   Config/Disk, Config/Secrets, Config/Loading, Config/PasswordFile
--                               src/config/mod.rs: what goes into the settings file, where the
--                               password comes from, loading and saving, the password's own file
--   Config/Keys, Keys/Keymap    src/config/keybind.rs: actions, chords, the key map
--   Config/Keys/Chord           src/config/keybind.rs: the text of a chord, read and written
--   SecretStore                 src/secret_store.rs
--   Files, Files/Real           src/io_util.rs: the write in one go, and the real file system
--   Ipc/Frame                   src/ipc/frame.rs
--   Daemon/State                src/daemon/state.rs
--   Daemon/World, Daemon/Mpv    what the daemon only calls; the commands of src/audio/mpv.rs
--   Daemon/Library, Daemon/TrackCache
--                               src/daemon/library.rs (LRU cache) and src/daemon/track_cache.rs
--   Daemon/Core, Core/Commit, Core/Dispatch, Daemon/Settle
--                               src/daemon/core.rs: the shared record, committing a track, loading it
--                               into mpv, settling the rate; the preload of src/daemon/playback_ops.rs
--   Daemon/Playback, Daemon/Advance
--                               src/daemon/playback_ops.rs: transport, and what follows a track
--   Daemon/Admission            which songs enter the queue: the filter of src/daemon/queue_ops.rs and
--                               the pick of src/daemon/core.rs
--   Daemon/Queue, Queue/Requests
--                               src/daemon/queue_ops.rs and the queue requests of src/ipc/client.rs
--   Daemon/Tick, Tick/Decide, Tick/Gapless
--                               src/daemon/playback_tick.rs
--   Daemon/Scrobble             src/daemon/scrobble.rs
--   Daemon/Settings, Settings/Setters, Settings/Server, Settings/Requests
--                               src/daemon/settings_ops.rs and the setters' part of src/ipc/client.rs
--   Daemon/Stars, Daemon/Ratings
--                               src/daemon/library_ops.rs: stars and ratings; the star index of
--                               src/daemon/library.rs
--   Daemon/Router               src/ipc/client.rs: the dispatcher of requests, and runs of events
--   Tests                       a concrete daemon, on which each property has an example
-- The other modules below these hold proofs and are named for what they prove.
--
-- How the code becomes functions. An operation of `DaemonCore` is a function from a core to a core:
-- the daemon's state, the flags and counters, the announcements sent, the tasks started, and an
-- external state `W` that every call of mpv, the server or `pw-metadata` passes on. What these
-- answer is a parameter (`World`), so a property holds whatever they answer, and where one relies on
-- an answer it says so in a hypothesis. An operation is one step; where the source lets go between
-- reading or claiming something and getting a lock (`advance_auto`, `next_track`, `resume_playback`)
-- the second half is also an event of its own, with whatever was read before, and the runs of
-- Daemon/Router interleave it with everything else. A task that `tokio::spawn` starts is
-- put on a list; `settle_rate_then_unpause` is modelled as a step of its own. A star or a rating is
-- set before the server has answered and confirmed or taken back afterwards: two functions, of which
-- the second runs on the daemon as it is by then.
--
-- Errors are values of `Result`. The disk, the keychain and the processes are in the external state,
-- behind the interfaces that the source has for them (`FileSystem`, `KeyStore`) or that stand for the
-- standard library (`Machine`, `Paths`), and so are serde_json (`Json`) and the toml library (`Toml`).
-- What a property needs of them is a record of documented laws (`IsFileSystem`, `IsWriteBack`,
-- `IsReader`, `IsFaithful`) that it takes as a hypothesis, and Tests has a concrete one of each.
--
-- Numbers. Indices, counts, generations and play instances are natural numbers: none of them comes
-- near 2^64 in a run, but for the index of an insertion, which a client may set to anything: there
-- `pos + 1` wraps as in a release build. Positions and durations are of a type `F` with the operations used and no laws.
-- Instants are milliseconds. The probe of the rate is recursion on the polls left, fifty as in the
-- source. Expanding variables in a command is recursion on the length of the text, of which every
-- turn takes a character at least. All other loops are structural.
--
-- Left out: error texts in notifications, log lines, the sleeps that let a rate settle, the order of
-- announcements relative to other clients, the body of the buffered download and of the offline
-- cache's download, the fast probe's loop, the desktop notification, and everything that is only
-- input and output: sockets, D-Bus, HTTP and the terminal. A panic of a blocking task is not
-- modelled, nor mpv's own copy of the gain settings for a restart, nor the refreshes and the
-- announcement that follow new credentials. Of the library the refreshes,
-- playlists and the music folder are not modelled, of the frames the servers around them.
pub mod Prelude
pub mod Float
pub mod Subsonic
pub mod Config
pub mod SecretStore
pub mod Files
pub mod Ipc
pub mod Daemon
pub mod Tests
