-- ===== src/Lib.antt =====
-- The core of OffDrop: files that go encrypted, chunk by chunk, over a Bluetooth transport. A
-- sender offers a file (its name, size, SHA-256 and number of chunks), encrypts each block of
-- 16 KB under the session key, frames the chunk as a message and gives it to its transport. The
-- receiver parses the message, decrypts the chunk, writes it at its place, in whatever order
-- the chunks come, and tests the hash of the whole file at the end.
--
-- Protocol models core/include/protocol.hpp and core/src/protocol.cpp: `put_u32` is PutU32,
-- `read_bytes` is ReadBytes, `encode_chunk` is EncodeChunk, and so on. A decoder returns a
-- `Result`: a value, an exception of Base/Result, or `fault`, which stands for a read that C++
-- leaves undefined. The parts are Protocol/Words (numbers in little-endian order), Format and
-- Fields (fields that are read one behind another), Codec (what each payload has in common),
-- Payloads and Frame.
--
-- Crypto models core/include/crypto.hpp and core/src/crypto.cpp: chunks and hashes. The calls
-- of libcrypto are the fields of the record `OpenSsl` in OpenSsl; each may fail, and then
-- crypto.cpp throws. `Documented` in OpenSsl/Documented says what the manual of OpenSSL states
-- of these calls: they succeed, and the contexts compute AES-256-GCM and SHA-256, whose
-- functions are a record `Standard`. Each of these laws asks for the `Stage` of the context
-- that the manual asks for, so that the calls have to come in its order, and none may be left
-- out. The theorems on encryption have these two as parameters. Crypto/Overflow is on a text
-- whose length is no `int`.
--
-- KeyAgreement models GenerateKeyPair and DeriveSessionKey of the same files, over a record of
-- the calls for X25519 and HKDF and what their manual and RFC 7748 say of them, again of calls
-- in their order (KeyAgreement/Documented).
--
-- Files models the files that std::filesystem and the streams reach. Chunking models
-- core/include/chunking.hpp and core/src/chunking.cpp: `prepare_file_offer`, `send_file_chunks`
-- with a sink, and the class FileReceiver as a record with `file_receiver` (the constructor),
-- `receive_chunk`, `is_complete` and `verify_integrity`. What an operation changes is passed
-- through it: `Machine` holds the library's state and the files, and a receiver or the state of
-- a sink stands beside it. What is changed before an exception stays changed.
--
-- Transport models LoopbackTransport of core/include/transport.hpp in a store of transports,
-- where a pointer is a place. Transport/Interface has ITransport as a record of operations and
-- LoopbackTransport as an instance of it; Transport/Bluetooth has the callbacks that
-- BluetoothTransportAdapter of platform/macos/BluetoothBridge.mm keeps, and the adapter as an
-- instance. EndToEnd models what core/tests/test_chunking_e2e.cpp installs on two loopback
-- transports; EndToEnd/Bluetooth puts the same handler behind the adapter.
--
-- CApi models core/include/c_api.h and core/src/c_api.cpp: `caught` is the `try` with its
-- `catch`, `make_buffer` is MakeBuffer, and the six functions have their names. They work on a
-- `Memory`: a pointer is null or the start of a block, a block has a number that is never given
-- again, and the caller's `airdrop_buffer` structures have numbers too. `malloc` is a
-- parameter, which may fail. CApi/Handing has the buffers that are handed out, Decrypting and
-- Chunks the calls on chunks, Hashing the hash of a file, RoundTrip and Keys several calls one
-- after the other, and Returns any library and any `malloc`.
--
-- Chunking/Refine sets FileReceiver against an abstract receiver that has a mark for each chunk
-- and nothing else, and Chunking/Canvas says what file belongs to the marks; Chunking/Arrivals
-- is the quotient in which the order of the chunks and their repetitions are forgotten.
-- Chunking/Channel puts a receiver behind a channel that loses, repeats and reorders chunks and
-- damages what their tags protect, as a relation of the states that are reached: `IsUnforged`
-- says of each chunk that the channel neither forged it nor changed the index of one that the
-- key opens, since no tag protects the index. Chunking/Reindex is on a changed index.
-- Crypto/Defined and Chunking/Defined are on any library, whatever its calls return; Base/Ends
-- says there that a call returns or throws. EndToEnd/Session is the test as a whole, from the
-- key exchange on.
--
-- A disk may take less of a write than it is given: `takes` of a `FileSystem` says how much,
-- and `IsWritable` that it takes each write whole. Chunking/AnyDisk is on a disk of any kind.
--
-- Daemon models cmd/daemon/bridge.go, function by function, over CApi, and Daemon/Main the run
-- of cmd/daemon/main.go. A Go variable whose address goes to C is a block, or a structure, of
-- the `Memory` until its function returns; a slice is a block only for that time. A panic is an
-- exception, and `Returned` is Go's value or error. Daemon/Locals, Arrays and Strings have what
-- the variables leave behind; Encrypting, Sealing, Decrypting, Opening, Keys and Hashing have
-- one function each, with and without its variables, and Runs several one after the other.
--
-- Tests has libraries that keep to the manuals, and the theorems at concrete data.
--
-- The loops over a stream, `digest_loop` and `send_loop`, take two rounds more than the stream
-- has bytes as fuel: each round but the last two takes a byte at least. Without fuel they would
-- `fault`, and the theorems show that they return. A session key is any sequence of bytes. A
-- `size_t` has 64 bits; the theorems on buffers take them below 2^63 bytes, those on files
-- below 2^45, the size whose chunks a `uint32_t` counts with one bit to spare.
--
-- Not modelled: the memory that the C++ core frees, a `std::bad_alloc` of its containers,
-- callbacks that call a transport back, what the daemon prints, the requests to CoreBluetooth
-- (which the source leaves open), and the applications.
pub mod Base
pub mod Protocol
pub mod OpenSsl
pub mod Files
pub mod Crypto
pub mod Chunking
pub mod Transport
pub mod EndToEnd
pub mod KeyAgreement
pub mod Memory
pub mod CApi
pub mod Daemon
pub mod Tests
