-- ===== src/Lib.antt =====
-- sessionhub is a daemon that keeps terminals running and shows them to pages in browsers. One
-- thread, the actor, owns the clients, the terminals and what is sent to whom (src/state.rs); a
-- command reaches it from a page's socket, from the thread that reads a terminal's process, from
-- the samplers of the machine, or from a script. Around it stand the ring buffer of what a
-- terminal printed (src/ring.rs), the filter that answers a terminal's queries (src/pty.rs), the
-- frames that carry terminal bytes (src/proto.rs), and the tracker of the line that is typed
-- (src/typed.rs). In front of it stand the gate of the HTTP server (src/http.rs) and the machines
-- that it is paired with (src/remote.rs); beside it the text that is captured of a terminal
-- (src/ansi.rs), the bundles that the frontend is updated from (src/webpack.rs), versions
-- (src/update.rs) and dates.
--
-- The parts and their files:
--   Base, Utf8, Strings: shared names, lists, maps and results; what is used of the texts of
--     Rust's standard library.
--   Ring: src/ring.rs. Ring/History states what a ring holds of the stream pushed into it, and
--     Ring/Replay what a client that resumes is given.
--   Query: `DsrFilter` of src/pty.rs, a byte at a time, its inner loop as recursion on what is
--     held.
--   Frames: `encode_frame`, `decode_frame` and `decode_drop` of src/proto.rs.
--   Typed: src/typed.rs, one function for each group of arms of `TypedLine::byte`.
--   Ansi: src/ansi.rs. Ansi/Rendering describes the streams that its main theorem is about.
--   Bundle: `pack` and `unpack` of src/webpack.rs and the check of the names in a bundle.
--   Http: requests taken apart, `percent_decode` and `token_ok` of src/http.rs; Http/Gate has
--     `handle`, `forward` and the routes, up to the call of what answers.
--   Remote: names, percent and base64 encoding of src/remote.rs, and `reordered` of
--     src/state.rs; Remote/Address has the addresses and the pairing links.
--   Drops: `safe_name` of src/drops.rs, the part of a stored file's name that a client has a say in.
--   Versions: `is_newer` of src/update.rs, and what src/webpack.rs decides by it.
--   Dates: the arithmetic of `iso8601` and `epoch_of` of src/registry.rs and of `parse_iso` of
--     src/tasks.rs, between a time and its fields.
--   Hub: the actor. Hub/Types has its records, Hub/Queue `send_to` and the bounded queues,
--     Hub/Sizes the negotiation of a terminal's size, Hub/State the whole state and `send_state`,
--     Hub/Viewers the commands by which pages come, go and look, Hub/Spawn those that start
--     terminals, Hub/Process what processes and samplers say, Hub/Script what scripts ask,
--     Hub/Saved the tags and the forgetting of saved terminals, Hub/Opened their opening, and Hub/Step the loop's turn as a
--     function of the command.
--
-- The actor's state is the record `Hub`; a handler is a function from it to it, and so is a turn
-- of the loop, in `Option`: `none` stands for a panic. What a handler reads of the world outside
-- is the record `World`: two clocks, what the terminal backend answers to a new size and to the
-- start of a process, the system built for, Unicode's lower case and which files a folder holds.
-- None of it is given a definition. Work that is handed to other threads is a list of the state. A
-- `HashMap` is an association list. Numbers keep the wrap-around of their width where the code can
-- reach it. A text is the list of its characters. Of the source's own loops five are on fuel: the
-- one that replaces a pattern in a text, the one of `path_key` that cuts separators and the one that
-- takes a character off the typed line have a turn for each character or byte, of which each of
-- their turns takes one away; those of `unpack` and `strip_ansi`, whose results are in `Option` for
-- it, have a turn for each byte, which Bundle/Termination and Ansi/Termination are about. All else
-- is structural, or counts down a number that the source counts up to. Of Rust's library the lossy
-- decoder and the digits of a number are on fuel. What reads the body of a request, which
-- machines the actor has, what is an IP address and Unicode's lower case are parameters of what
-- uses them.
--
-- Not modelled: threads, sockets, files and processes themselves, the JSON of the messages (a
-- message is the value that is made JSON), logging and telemetry; a client whose socket closed
-- before the actor heard of it; the sentences beside error codes. The loop's turn leaves out
-- `UpdateAgentCli`, `Registry` and the commands of src/state.rs that edit the configuration, of
-- which Hub/Saved has some. Of src/http.rs, what the routes do; of
-- src/webpack.rs, the installing; of src/drops.rs, the writing and the sweeping of files.
pub mod Ansi
pub mod Base
pub mod Bundle
pub mod Dates
pub mod Drops
pub mod Frames
pub mod Http
pub mod Hub
pub mod Query
pub mod Remote
pub mod Ring
pub mod Strings
pub mod Typed
pub mod Utf8
pub mod Versions
