-- ===== src/Lib.antt =====
-- Breeze Core: a server that controls air conditioners on the local network.
--
-- The program's parts, and how they interact. A client pairs with the server once and then signs
-- each request; a request that is allowed changes a unit through the device manager, or stores a
-- timer that a background pass fires. The manager talks to the units in frames of bytes.
--
--   Proto    crates/breeze-proto. Proto/Frame: the 0xAA frames (src/frame.rs, `build` and `parse`).
--            Proto/Crc8: the CRC of commands (src/crc8.rs). Proto/Ac: the wire enums (src/ac/types.rs),
--            the state report (src/ac/response.rs, `State::parse` is `Response.parse`) and the commands
--            (src/ac/command.rs, `set_state` and its kin; `Setpoint::temperature_bytes`).
--            Proto/Ac/Capabilities: src/ac/capabilities.rs, the 0xB5 reply (`Capabilities::parse`, `merge`)
--            and what a client may offer.
--            Proto/Security: src/security.rs, the cipher modes. Proto/Packet: src/packet.rs, the V2
--            packet. Proto/Lan: src/lan.rs, the V3 session. Proto/Layers: one on top of the other.
--   Auth     crates/breeze-auth. Auth/Nonce: src/nonce.rs, the timestamp window and the single-use
--            nonces. Auth/Signing: src/signing.rs, the canonical string and the signature. Auth/Reject:
--            src/reject.rs. Auth/Verify: src/verify.rs, the two schemes and their decision. Auth/Enroll:
--            src/enroll.rs, the pairing. Auth/Net: src/net.rs, who is on the local network. Auth/Clock:
--            the times these share.
--   Store    crates/breeze-store. Store/Devices and Store/Config: src/models.rs, the enrolled devices
--            and the configured units. Store/Control: src/control.rs, the control payload and its
--            bounds. Store/Timers: src/timers.rs. Store/Programs: src/programs.rs, with what is
--            checked of a program (Ingest, `into_program`) and what a curve asks for (Curve).
--   Device   crates/breeze-device. Device/Change and Device/Control: src/manager.rs, the merging of
--            changes and the queue of a unit. Device/Control/Interleaved has the steps of requests
--            that run side by side. Device/Error: src/error.rs. Device/Session: src/session.rs, packets
--            cut from a stream, resending, and the clearing of late replies. Device/Connection:
--            src/device.rs, the connection to a unit and (Exchange) the attempts of a command.
--   Http     crates/breeze-http. Http/Timers: src/timer_routes.rs, storing and firing timers.
--            Http/Routing and Http/Admission: src/server.rs, `resolve`, `authorise` and `handle`.
--   Common   what these share: tests, lists, dictionaries, bytes, texts, outcomes.
--
-- How the code corresponds. An operation that changes an object takes it and returns the new one. A
-- Result is an Outcome, whose third case is a panic. A hash map is an association list. Bytes are
-- numbers below 256, with the wrap-around written out. Times are microseconds (Auth) or nanoseconds
-- (Store/Timers), temperatures tenths of a degree (Proto) or millionths (Store/Control), where the
-- program uses f64, f32 or chrono: numbers that are not multiples of these are left out. The point of
-- a curve between two of its points is an exact fraction, where the program rounds each step to an
-- f64, and so the last bit of a tie may round the other way there. Every function is structurally
-- recursive. Three loops of Device/Session can turn without a read of their own and have fuel: the
-- number of sends and one, and one more than the bytes that there are; Session/Waiting,
-- Session/Resending and Session/Draining show that this is enough. The attempts of an exchange have
-- fuel, two as in the code, and Connection/Settled shows that more changes nothing. The network of
-- Device/Connection is what its coming connections will do. Its clock, like that of a session, counts
-- milliseconds.
--
-- Parameters. The cryptographic crates (the block cipher, where the key's length says which, and the
-- digests), base64, `f64::from_str`, chrono's formatting, `to_uppercase` on text, the parsing of an
-- address and the random bytes are arguments of the definitions that use them. Where the truth of a
-- statement rests on one of them, the statement says what it uses of it.
--
-- Not modelled: crates/breeze-cloud (clients of third-party services), crates/breeze-core (command
-- line and process start), the HTTP server's worker pool and its other routes, the files of the
-- stores, the texts of the errors, sockets, discovery, and locks other than a unit's queue and device
-- lock. A panic while a command is being sent is not a step of Device/Control/Interleaved.
pub mod Common
pub mod Proto
pub mod Store
pub mod Auth
pub mod Device
pub mod Http
