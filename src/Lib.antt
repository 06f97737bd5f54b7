-- ===== src/Lib.antt =====
-- librtcbase, a C++ base library for network services ported from WebRTC: byte buffers and their
-- number formats, containers of bytes, text encodings, checksums, time, safe integers, random numbers
-- and addresses, statistics, signals and slots, and streams over TLS. The library is a set of
-- components with few calls between them: byte_buffer uses byte_order, buffer_queue uses buffer,
-- safe_compare and safe_conversions share the integral types, ipaddress uses byte_order, and the
-- median filter uses the percentile filter. The adapter for TLS uses a timer of the event loop and
-- the signals of a stream, and is driven by both.
--
-- Where each part is modelled, one definition for each function under the name of the function:
--   ByteOrder: src/byte_order.h. Memory is the list of its bytes; the byte order of the machine is
--     the parameter `Host`, and `load` and `store` are the object representation of an integer.
--   ByteBuffer.Writer, ByteBuffer.Reader: src/byte_buffer.cpp. The members of a class are the
--     fields of a record, an operation returns the object after it, an out-pointer is an `Option`
--     in the result. ByteBuffer.Fields is a client that writes and reads messages.
--   Buffer: BufferT of src/buffer.h, at bytes. BufferQueue: src/buffer_queue.cpp; each method holds
--     the lock from its first line to its last, so that a method is a step.
--   StringEncode.Hex, StringEncode.Split: src/string_encode.cpp.
--   Crc32: src/crc32.cpp, with the static table passed in and out.
--   TimeUtils: src/time_utils.cpp, with what the clocks say as arguments.
--   SafeConversions, SafeCompare: src/safe_conversions.h, src/safe_conversions_impl.h and
--     src/safe_compare.h, at the integral types of 8 to 64 bits as values of
--     `IntType`, for the conversions also at bool.
--   IpAddress: src/ipaddress.cpp. An address is its family with its bytes in network order.
--   Random: src/random.h and src/random.cpp. The bytes that OpenSSL fills in are a parameter, of
--     which the theorems assume only how many they are.
--   SslStream: src/openssl_stream_adapter.cpp. The adapter is a record with its state, a pointer is a
--     Boolean that says that it is not null, and `none` is the dereference of a null pointer. Setup
--     has setup_SSL_context, Handshake the handshake and the verify callback, Reactions the events,
--     the timer and the digest of the certificate, Settings the setters and getters and the type
--     `Input` of all that can happen to an adapter while it lives. OpenSSL is the record `OpenSsl` of the answers
--     to the calls; each input has its own, so that a theorem holds whatever OpenSSL answers.
--   Sigslot: src/sigslot.h. Signals and objects are numbers in a `World` that says what each holds;
--     the nodes of a list of connections have numbers, so that an iterator is one. Actions has the
--     type `Action` of all that can be done, also between two turns of an emission.
--   Base64: src/base64.cpp. Filters: src/percentile_filter.h and src/moving_median_filter.h.
--     RateStatistics: src/rate_statistics.cpp.
--   MessageDigest: src/message_digest.cpp, over the interface of a digest as a record with laws.
--   Optional: the class of src/optional.h, in storage that it constructs and destroys by hand.
--   Streams: write_all of src/stream.cpp and the BIO methods of src/openssl_stream_adapter.cpp.
-- Prelude holds the shared names: lists measured by native numbers, words of 8 to 64 bits, the bit
-- operations as arithmetic, the integers, and memcmp. Tests holds the theorems at concrete inputs.
--
-- Bounds: a size_t has 64 bits, an int is an unbounded integer where the code does not reach its
-- limits (the year and the day of tm_to_seconds, which can, wrap around at 32 bits), and a char is signed, as on the platforms that the README names. Loops are recursion on
-- the data that they walk over. Some count: write_uvarint recurses on the accessibility of the value,
-- which gets smaller in each round, read_uvarint has the ten rounds that the test `i < 64` allows,
-- and erase_old of the rate statistics as many as the oldest time is behind. disconnect_all of an
-- object has fuel for two rounds, of which the second finds nothing left, and an emission has fuel
-- for one round more than there are nodes to call. A product with a floating point number, as a
-- percentile or a scale, is a parameter. The decoder of base64 has fuel for a round more than the
-- text has characters.
--
-- Memory from new[] is modelled as zeros. Allocation is taken to succeed. Not modelled: MD5 and
-- SHA-1, string_to_number, socket addresses, networks, the event loop with its sockets, logging,
-- and the adapters for OpenSSL other than that of streams. What a slot or a signal of a stream does
-- when it is called is not part of the adapter for TLS: its signals are recorded. Text output and
-- name lookup belong to the system's libraries, and libev, in deps, is another project.
pub mod Prelude
pub mod ByteOrder
pub mod ByteBuffer
pub mod StringEncode
pub mod Crc32
pub mod Buffer
pub mod BufferQueue
pub mod TimeUtils
pub mod SafeConversions
pub mod SafeCompare
pub mod IpAddress
mod Tests
pub mod Random
pub mod SslStream
pub mod Sigslot
pub mod Filters
pub mod RateStatistics
pub mod Base64
pub mod MessageDigest
pub mod Streams
pub mod Optional
