-- ===== src/System.antt =====
-- The libraries outside of the repository that the program calls, as parameters: sockets (libc),
-- OpenSSL, malloc, and the queues of cstd (simple_queue). The world that a call reads and
-- changes is a type of its own. `none` stands for -1 from recv, send, SSL_read and the like, and
-- for a null pointer from malloc.
pub mod Calls
pub mod Opened
use websocket_c.Common.{
  ℕ, ◌+◌, ◌*◌, ◌/◌, ◌^◌, ◌<◌, ◌≡◌, ◌≢◌, Bool, List, [], ◌∷◌, ◌++◌, Option, none, some, length, take,
  drop, ℤ, pos,
}
use websocket_c.Cstd.{ByteArray, ByteArrays, IsByteArrays}
use websocket_c.Cstd.Text.{
  Unicodes, Builders, HashMaps, IsUnicodes, IsBuilders, IsHashMaps, is_base64, is_nul_free,
}
use websocket_c.CString.{decimal}
use websocket_c.Frame.{Frame}
use websocket_c.System.Calls.{Network, Tls}

-- struct ws_message_t of reader.h; `type` is the opcode's number.
pub record Message : Type 0 where
  pub type : ℕ
  pub body : ByteArray

pub record Sockets (World : Type 0) : Type 0 where
  -- recv(socket, buf, len, flags), flags being MSG_PEEK or 0: the bytes received
  pub recv : World → ℕ → ℕ → Bool → World × Option (List ℕ)
  -- send(socket, buf, len, 0): the number of bytes sent
  pub send : World → ℕ → List ℕ → World × Option ℕ
  pub close : World → ℕ → World
  -- SSL_peek and SSL_read(ssl, buf, num), num being an int
  pub ssl_peek : World → ℕ → ℤ → World × Option (List ℕ)
  pub ssl_read : World → ℕ → ℤ → World × Option (List ℕ)
  -- SSL_write(ssl, buf, num): the bytes at buf, and the int num
  pub ssl_write : World → ℕ → List ℕ → ℤ → World × Option ℕ
  pub ssl_shutdown : World → ℕ → World
  pub ssl_free : World → ℕ → World

-- simple_queue_create, simple_queue_push, simple_queue_pop and simple_queue_len, with `none` for
-- the result false; `items` are the queue's elements, the oldest first.
pub record Queues (A : Type 0) : Type 1 where
  pub Queue : Type 0
  pub create : Queue
  pub push : Queue → A → Option Queue
  pub pop : Queue → Option (A × Queue)
  pub len : Queue → ℕ
  pub items : Queue → List A

pub record IsQueues {A : Type 0} (ops : Queues A) : Type 0 where
  pub create_items : ops.items ops.create ≡ []
  pub push_items :
      (q q' : ops.Queue) (x : A) → ops.push q x ≡ some q' → ops.items q' ≡ ops.items q ++ x ∷ []
  pub pop_items :
      (q : ops.Queue) (x : A) (rest : List A)
      → ops.items q ≡ x ∷ rest
      → (q' : ops.Queue) × (ops.pop q ≡ some (x, q')) × (ops.items q' ≡ rest)
  pub pop_empty : (q : ops.Queue) → ops.items q ≡ [] → ops.pop q ≡ none
  pub len_items : (q : ops.Queue) → ops.len q ≡ length (ops.items q)

pub record System : Type 1 where
  pub World : Type 0
  pub sockets : Sockets World
  pub network : Network World
  pub tls : Tls World
  -- srand(time(NULL))
  pub srand_time : World → World
  pub rand : World → World × ℕ
  pub unicodes : Unicodes
  pub builders : Builders
  pub headers : HashMaps
  -- to_str(n) of cstd, in decimal
  pub to_str : ℕ → Option (List ℕ)
  -- concat(s, t, &len) of cstd
  pub concat : List ℕ → List ℕ → Option (List ℕ)
  -- what the base64 filter of OpenSSL makes of some bytes, without newlines
  pub bio_base64 : List ℕ → List ℕ
  -- SHA1 of OpenSSL
  pub sha1 : List ℕ → Option (List ℕ)
  -- str_dup(s, n) of cstd: a copy of the n bytes
  pub str_dup : List ℕ → Option (List ℕ)
  -- malloc(n): a block of n bytes
  pub malloc : ℕ → Option (List ℕ)
  pub arrays : ByteArrays
  pub frames : Queues Frame
  pub messages : Queues Message
  -- whether the build has the vector routine for masking
  pub use_simd : Bool
  -- whether the build has WEBC_USE_SSL
  pub use_ssl : Bool

-- The pieces that are left when the first one has lost some bytes at its start.
abbrev pub left_of : List ℕ → List (List ℕ) → List (List ℕ)
left_of [] more = more
left_of (x ∷ xs) more = (x ∷ xs) ∷ more

-- One connection with bytes waiting, in the pieces that one receive can give at most: over TLS a
-- piece is what is left of one record, which has at most 2 ^ 14 bytes, and SSL_read never goes past
-- the end of a record; over a socket it is what has arrived. A receive returns as many bytes of the
-- first piece as asked for and there are, a peek leaves them there. Nothing is said of an SSL
-- call whose num is not positive.
pub record IsStream (sys : System) (pieces : sys.World → List (List ℕ)) : Type 0 where
  pub recv_bytes :
      (w : sys.World) (socket len : ℕ) (peek : Bool) (piece : List ℕ) (more : List (List ℕ))
      → pieces w ≡ piece ∷ more
      → piece ≢ []
      → (sys.sockets.recv w socket len peek).1 ≡ some (take len piece)
  pub recv_peek :
      (w : sys.World) (socket len : ℕ)
      → pieces (sys.sockets.recv w socket len Bool.true).0 ≡ pieces w
  pub recv_left :
      (w : sys.World) (socket len : ℕ) (piece : List ℕ) (more : List (List ℕ))
      → pieces w ≡ piece ∷ more
      → piece ≢ []
      → pieces (sys.sockets.recv w socket len Bool.false).0 ≡ left_of (drop len piece) more
  pub ssl_peek_bytes :
      (w : sys.World) (ssl len : ℕ) (piece : List ℕ) (more : List (List ℕ))
      → pieces w ≡ piece ∷ more
      → piece ≢ []
      → 0 < len
      → (sys.sockets.ssl_peek w ssl (pos len)).1 ≡ some (take len piece)
  pub ssl_peek_left :
      (w : sys.World) (ssl : ℕ) (num : ℤ) → pieces (sys.sockets.ssl_peek w ssl num).0 ≡ pieces w
  pub ssl_read_bytes :
      (w : sys.World) (ssl len : ℕ) (piece : List ℕ) (more : List (List ℕ))
      → pieces w ≡ piece ∷ more
      → piece ≢ []
      → 0 < len
      → (sys.sockets.ssl_read w ssl (pos len)).1 ≡ some (take len piece)
  pub ssl_read_left :
      (w : sys.World) (ssl len : ℕ) (piece : List ℕ) (more : List (List ℕ))
      → pieces w ≡ piece ∷ more
      → piece ≢ []
      → 0 < len
      → pieces (sys.sockets.ssl_read w ssl (pos len)).0 ≡ left_of (drop len piece) more

-- The laws of the libraries, and memory enough: no allocation below 2 ^ 63 bytes fails.
pub record HasMemory (sys : System) : Type 0 where
  pub array_laws : IsByteArrays sys.arrays
  pub frame_laws : IsQueues sys.frames
  pub message_laws : IsQueues sys.messages
  pub malloc_size : (n : ℕ) (b : List ℕ) → sys.malloc n ≡ some b → length b ≡ n
  pub malloc_grants : (n : ℕ) → n < 2 ^ 63 → (b : List ℕ) × (sys.malloc n ≡ some b)
  pub init_grants : (n : ℕ) → n < 2 ^ 63 → (a : ByteArray) × (sys.arrays.init n ≡ some a)
  pub insert_grants : (a : ByteArray) (x : ℕ) → (b : ByteArray) × (sys.arrays.insert a x ≡ some b)
  pub push_frame :
      (q : sys.frames.Queue) (x : Frame) → (q' : sys.frames.Queue) × (sys.frames.push q x ≡ some q')
  pub push_message :
      (q : sys.messages.Queue) (x : Message)
      → (q' : sys.messages.Queue) × (sys.messages.push q x ≡ some q')

-- The laws of the libraries that work on texts, and memory enough for them.
pub record HasTextMemory (sys : System) : Type 0 where
  pub unicode_laws : IsUnicodes sys.unicodes
  pub builder_laws : IsBuilders sys.builders
  pub header_laws : IsHashMaps sys.headers
  pub str_dup_copy : (s : List ℕ) → is_nul_free s ≡ Bool.true → sys.str_dup s ≡ some s

-- The documented behaviour of OpenSSL and of concat and to_str of cstd, with memory enough: a
-- digest has 20 bytes, base64 is 4 characters of its alphabet for each 3 bytes begun, and numbers of up to
-- five digits are printed in decimal.
pub record HasEncoding (sys : System) : Type 0 where
  pub concat_append : (s t : List ℕ) → sys.concat s t ≡ some (s ++ t)
  pub sha1_digest : (s : List ℕ) → (d : List ℕ) × (sys.sha1 s ≡ some d) × (length d ≡ 20)
  pub base64_length : (s : List ℕ) → length (sys.bio_base64 s) ≡ (length s + 2) / 3 * 4
  pub base64_letters : (s : List ℕ) → is_base64 (sys.bio_base64 s) ≡ Bool.true
  pub to_str_decimal : (n : ℕ) → n < 10 ^ 5 → sys.to_str n ≡ some (decimal n)
