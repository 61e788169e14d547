-- ===== src/Lib.antt =====
-- A model of websocket-c, a client-side WebSocket library in C, and theorems about it.
--
-- The program. A client (src/websocket.c) is made from a URL, connects over src/net.c with an HTTP
-- handshake (src/http.c, src/encode.c), and then exchanges messages. A message goes out as one
-- masked frame (src/protocol.c, the masking in src/simd.c). A reader (src/reader.c) takes frames
-- off the connection, keeps the fragments of a message in one queue and whole messages in another,
-- and the client's listener hands each message to a callback, answers PING and ends at CLOSE.
--
-- The files, each with its children in the folder of its name:
--   Common    lists over native numbers, Boolean tests, bit operations, the int that a size_t
--             becomes, and memory blocks: a block
--             is the list of its bytes, and an access outside of it is the outcome `fault`
--   Cstd      byte_array of the cstd library, and in Text its Unicode strings, string builders and
--             hash maps, as parameters with laws
--   CString   the string functions of the C standard library, and where their scans stop
--   System    sockets, OpenSSL, malloc, random numbers, str_dup and the queues of cstd, as parameters
--             with laws, and struct ws_message_t; Calls has the calls that open a connection, Opened
--             says which calls open and close sockets and sessions
--   Frame     headers/protocol.h: codes, struct ws_frame_t and its bit-fields
--   Simd      src/simd.c: apply_mask_to_buffer, by bytes and by vectors of 16 lanes; Simd.Spec says
--             what masking is
--   Protocol  src/protocol.c: ws_frame_read_header and ws_frame_read_body in Header and Body,
--             ws_frame_write in Write; Wire is the frame format of RFC 6455 as a function
--   Http      src/http.c: methods and messages; from text in Parse, to text in Print
--   Net       src/net.c: net_peek, net_read, net_write, net_close; net_connect and the static
--             context in Connect
--   Reader    src/reader.c: the queues and construct_msg_from_frames; ws_reader_handle in Handle;
--             Inbox is the abstract specification, fragments and messages without representation
--   Encode    src/encode.c: populate_rand, base64_encode, check_response_noonce
--   Client    src/websocket.c: the client; ws_client_from_str in Url, the opening handshake in
--             Handshake and Connect, ws_client_write in Write, ws_client_on_msg in Listen
--   Tests     concrete libraries that meet the laws, and the theorems at concrete inputs
-- A definition has the name of the C function, type or macro that it models; a part of a function
-- that has a name of its own says so in its comment.
--
-- Numbers. size_t and uint64_t are native numbers with the wrap-around written out (u64, sub64);
-- bytes are numbers, and what stores a computed byte reduces it. The bit-fields have the layout of
-- gcc and clang on a little-endian target. An offset into a text does not wrap, since a block is
-- smaller than 2 ^ 63 bytes. The length that net_peek, net_read and net_write hand to
-- OpenSSL is narrowed to an int of 32 bits (to_int). The int that snprintf returns in src/http.c and
-- the int that BIO_write takes in src/encode.c are not narrowed, which matters from 2 ^ 31 bytes on.
--
-- Loops. `for` loops recurse on the rounds left. The vector loop of apply_mask_to_buffer_simd has
-- the length as its fuel: each round moves 16 bytes on, so there are fewer rounds than bytes. The
-- loop over header lines has one round more than the text has bytes, and each round moves on. The
-- listener loop has a number of rounds as its fuel, since it ends only when the peer or the
-- callback ends it; without rounds left its outcome is `timeout`.
--
-- Memory. A pointer into a block is the block and a position. malloc, byte_array_init,
-- byte_array_insert and the queues may fail; malloc of a structure of fixed size is taken to
-- succeed. The release of memory changes nothing in the model. Where a theorem speaks of memory
-- enough, no allocation below 2 ^ 63 bytes fails. Memory that the code reads or releases before it is
-- set is an argument; the release of a byte array that is not set is a `fault`. Where a theorem says
-- `if it returns`, a fault is left open.
--
-- Receiving. The bytes that wait on a connection come in pieces, and one receive never goes past the
-- end of a piece: over TLS a piece is what is left of one record, at most 2 ^ 14 bytes, and over a
-- socket it is what has arrived. A receive returns as many bytes of the first piece as asked for and
-- there are (IsStream in System). So over TLS a frame that is larger than a record is never whole in
-- one piece. What an SSL call does with a length that is not positive is left open, except where a
-- theorem says it.
--
-- Not modelled: the NEON and SSE2 branches of src/simd.c, which gcc and clang do not compile;
-- ws_frame_print and the debug output; net_accept, a stub; lib_version; main.c, the test server and
-- the build files.
mod Common
pub mod Cstd
pub mod Frame
pub mod Simd
pub mod Protocol
pub mod CString
pub mod System
pub mod Net
pub mod Reader
pub mod Encode
pub mod Http
pub mod Client
mod Tests
