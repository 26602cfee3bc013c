-- ===== src/Lib.antt =====
-- The mesh protocol of styrene-rs: the packets of the Reticulum network stack in
-- crates/libs/styrene-rns, the framing that carries them over serial lines and streams, the
-- tables by which a transport node forwards them, the channels over a link, the Styrene envelope
-- of crates/libs/styrene-mesh, the sessions of crates/libs/styrene-tunnel and the access policy
-- of crates/libs/styrene-rbac.
--
-- Parts. Bytes come in from an interface, where `Framing` cuts them into frames; `Packet` reads a
-- frame as a packet; `Transport` looks it up in the packet cache (a duplicate is dropped), and
-- sends it on by the path table or the link table; `Channel` numbers and tracks the messages of a
-- link, and `Transport.Resource` moves data too large for a packet over it, encrypted by `Crypt`;
-- `Mesh` is the envelope of the application messages, and `Tunnel` the encrypted session
-- whose messages it carries; `Rbac` decides what a peer may ask for. Packets and HDLC frames are
-- written through the buffers of `Buffer`.
--
-- - Base, Error, Hash: shared lists, results, keyed maps and bytes; error.rs; hash.rs. A map of
--   the source (`HashMap`, `HashSet`) is an association list that is read by `lookup`. Bits are
--   the binary digits of a word; Ordered is a `BTreeMap`, kept in the order of its keys; Stateful
--   is a method that changes an object and may fail.
-- - Buffer: crates/libs/styrene-rns/src/buffer.rs. StaticBuffer (the capacity is an argument, and
--   the bytes past the length are kept), OutputBuffer (a method gives the buffer back after an
--   error too), InputBuffer.
-- - Crypt: crates/libs/styrene-rns/src/crypt/fernet.rs (Fernet: Fernet and CachedFernet).
-- - Framing: crates/libs/styrene-rns/src/transport/iface/hdlc.rs (Hdlc: encode, find, decode) and
--   kiss.rs (Kiss: kiss_encode, KissDecoder).
-- - Packet: crates/libs/styrene-rns/src/packet.rs. Header (flags, to_meta, from_meta), Context
--   (the context byte), Codec (from_bytes, to_bytes), Digest (hash, fragment_for_lxmf); and
--   serde.rs (Serde: serialize; Deserialize: deserialize).
-- - Transport: crates/libs/styrene-rns/src/transport/core_transport/path_table.rs (PathTable),
--   link_table.rs (LinkTable), packet_cache.rs (PacketCache), announce_table.rs (AnnounceEntry,
--   AnnounceCache, AnnounceTable) and crates/libs/styrene-rns/src/transport/utils/cache_set.rs
--   (CacheSet). Link is the encryption of crates/libs/styrene-rns/src/transport/destination_ext/link.rs
--   and of identity.rs; Resource is crates/libs/styrene-rns/src/transport/resource: Messages
--   (mod.rs), Utils (utils.rs), Sender (sender.rs), Receiver (receiver.rs; Assembly is the end of
--   its `handle_part`) and Manager (manager.rs; Polling its timers, Handlers its packets).
--   Transfer follows one resource from the sender to the receiver and back.
-- - Channel: crates/libs/styrene-rns/src/transport/channel.rs (Envelope: pack, unpack; Delivery:
--   handlers, sequence numbers, states) and the messages of channel_buffer.rs (StreamData).
-- - Mesh: crates/libs/styrene-mesh/src/wire.rs (MessageType: the bytes of the types; Wire:
--   encode, decode). The feature `pqc` of the build is an argument.
-- - Tunnel: crates/libs/styrene-tunnel/src. Crypto (crypto/aead.rs, kdf.rs, kem.rs), Replay (the
--   window of session/mod.rs), Session (session/mod.rs: PqcSession; its child modules Handshake,
--   Frames and Close prove what two sessions do together), CloseMessage (the close inside a data
--   frame), and Payloads (crates/libs/styrene-mesh/src/pqc.rs).
-- - Rbac: crates/libs/styrene-rbac/src. Role (role.rs), Capability (capability.rs), RosterEntry
--   and Policy (policy.rs; Normalize is its `normalize`), the records of signed.rs and
--   warning.rs.
-- - Tests: concrete runs, and the theorems at concrete inputs.
--
-- Conventions. A byte is a number, below 256 where a theorem needs that. Machine words keep their
-- wrap-around and saturation written out (hop counts and retries saturate at 255, sequence
-- numbers wrap at 2 ^ 16, handler identifiers at 2 ^ 64). An address and a digest are byte lists;
-- that they have 16 and 32 bytes is a hypothesis where it matters. A clock reading is a number
-- that is an argument of the operation; the difference of two readings stops at 0, as
-- `duration_since` does. Loops are structural recursion on the bytes or the entries they walk; no
-- fuel is used, but in the cut of long data into packets, parts and hashes, whose fuel is the length
-- of the data, and each round cuts at least one byte.
--
-- Parameters. AES-CBC with its padding and HMAC are the fields of a record of functions
-- (Crypt/Fernet), and what is relied on is its record `IsLawful`: decryption undoes encryption, a tag
-- has 32 bytes. A link is seen by the transfer of resources as the record `LinkCipher`, whose laws
-- the modelled encryption keeps. MessagePack is a record of functions. X25519, ML-KEM-768, HKDF and AES-256-GCM are the fields of a record of functions
-- (Tunnel/Crypto), and what is relied on is the record `Laws` (Tunnel/Crypto/Laws): a key
-- exchange agrees, a capsule and a sealed text are opened again by the holder of the key, and the
-- sizes are those of the standards. The test for UTF-8 is a function of which nothing is assumed.
-- SHA-256 is a function on byte lists of which nothing is assumed; the bzip2 decompressor is a
-- function that may fail; the outlet of a channel and the handlers are functions on states of
-- their own; random identifiers are arguments.
--
-- Not modelled: the transport's tasks and locks, the state machine of links, interfaces (sockets and
-- serial ports), identities, the CBOR payloads of the envelope, the WireGuard and strongSwan
-- backends of a tunnel and their orchestrator, the signatures and the configuration of a policy,
-- content distribution, LXMF, Micron, IPC, the daemon and the applications.
pub mod Base
pub mod Error
pub mod Buffer
pub mod Framing
pub mod Hash
pub mod Packet
pub mod Transport
pub mod Mesh
pub mod Channel
pub mod Tunnel
pub mod Rbac
pub mod Tests
pub mod Crypt
