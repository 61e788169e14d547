-- ===== src/Tests/Plain.antt =====
-- A concrete system that satisfies the laws: one connection, and a queue is a list.
use websocket_c.Common.{
  ℕ, zero, suc, ◌*◌, ◌/◌, length-take, length-append, ◌+◌, ◌==◌, ◌≡◌, refl, sym, ap, ◌∙◌, Bool,
  true, Option, none, some, List, [], ◌∷◌, ◌++◌, length, take, replicate, length-replicate, ltb,
  ◌^◌, arith,
}
use mathlib.Core.Option.{some-injective}
use websocket_c.System.{Queues, IsQueues, System, HasMemory, HasTextMemory, HasEncoding, IsStream}
use websocket_c.System.Calls.{Network, Tls}
use websocket_c.System.Opened.{HasHandles, remove, socket_opened, session_opened}
use websocket_c.Cstd.Text.{is_base64}
use websocket_c.CString.{decimal}
use websocket_c.Tests.Texts.{
  plain_unicodes, plain_builders, list_maps, plain-IsUnicodes, plain-IsBuilders, list-IsHashMaps,
}
use websocket_c.Tests.Fixtures.{plain_arrays, plain-IsByteArrays, zeros, appended}
pub use websocket_c.Tests.Connection.{Bytes, waiting_bytes, waiting_pieces, plain_ssl_write-all}
use websocket_c.Tests.Connection.{
  first_piece, shorten, plain_sockets, plain_ssl_keeps, plain_ssl_write_keeps, plain_ssl_peek_left,
}

-- Every name has two addresses; the second one can be connected to. A certificate file without a
-- name is refused.
abbrev pub plain_network : Network Bytes
plain_network = record {
  Address = ℕ;
  getaddrinfo = λ w host port. (w, some (1 ∷ 2 ∷ []));
  socket = λ w address.
      (record w { opened = socket_opened (some w.next) w.opened; next = w.next + 1 }, some w.next);
  connect = λ w socket address. (w, address == 2);
}

abbrev pub plain_tls : Tls Bytes
plain_tls = record {
  library_init = λ w. w;
  ctx_new = λ w. (record w { contexts = 1 ∷ w.contexts }, some 1);
  ctx_free = λ w ctx. record w { contexts = remove ctx w.contexts };
  load_verify_locations = λ w ctx cert path. (w, true);
  set_verify_peer = λ w ctx. w;
  set_verify_depth = λ w ctx depth. w;
  set_min_proto = λ w ctx. w;
  use_certificate_file = λ w ctx cert. (w, ltb 0 (length cert));
  use_private_key_file = λ w ctx key. (w, true);
  check_private_key = λ w ctx. (w, true);
  evp_cleanup = λ w. w;
  ssl_new = λ w ctx.
      (record w { opened = session_opened (some w.next) w.opened; next = w.next + 1 }, some w.next);
  set_fd = λ w ssl socket. w;
  set_host_name = λ w ssl host. w;
  ssl_connect = λ w ssl. (w, some 1);
}

module _ {A : Type 0} where
  abbrev list_pop : List A → Option (A × List A)
  list_pop [] = none
  list_pop (x ∷ xs) = some (x, xs)

  abbrev pub list_queues : Queues A
  list_queues = record {
    Queue = List A;
    create = [];
    push = λ q x. some (q ++ x ∷ []);
    pop = list_pop;
    len = length;
    items = λ q. q;
  }

  pub list-IsQueues : IsQueues list_queues
  list-IsQueues = record {
    create_items = refl;
    push_items = λ q q' x e. sym (some-injective (q ++ x ∷ []) q' e);
    pop_items = λ q x rest e. (rest, ap list_pop e, refl);
    pop_empty = λ q e. ap list_pop e;
    len_items = λ q. refl;
  }

abbrev pub plain_system : System
plain_system = record {
  World = Bytes;
  sockets = plain_sockets;
  network = plain_network;
  tls = plain_tls;
  srand_time = λ w. w;
  rand = λ w. (w, 300 + length w.waiting);
  unicodes = plain_unicodes;
  builders = plain_builders;
  headers = list_maps;
  to_str = λ n. some (decimal n);
  concat = λ s t. some (s ++ t);
  bio_base64 = λ s. replicate ((length s + 2) / 3 * 4) 65;
  sha1 = λ s. some (take 20 (s ++ replicate 20 0));
  str_dup = λ s. some s;
  malloc = λ n. some (replicate n 0);
  arrays = plain_arrays;
  frames = list_queues;
  messages = list_queues;
  use_simd = true;
  use_ssl = true;
}

letters_base64 : (n : ℕ) → is_base64 (replicate n 65) ≡ true
letters_base64 zero = refl
letters_base64 (suc n) = letters_base64 n

pub plain-HasEncoding : HasEncoding plain_system
plain-HasEncoding = record {
  concat_append = λ s t. refl;
  sha1_digest = λ s. (
    take 20 (s ++ replicate 20 0),
    refl,
    omega (
      arith,
      length-take 20 (s ++ replicate 20 0),
      length-append s (replicate 20 0),
      length-replicate {A = ℕ} 20 0,
    ),
  );
  base64_length = λ s. length-replicate ((length s + 2) / 3 * 4) 65;
  base64_letters = λ s. letters_base64 ((length s + 2) / 3 * 4);
  to_str_decimal = λ n h. refl;
}

pub plain-HasHandles : HasHandles plain_system (λ w. w.opened)
plain-HasHandles = record {
  socket_opens = λ w a. refl;
  close_closes = λ w s. refl;
  new_opens = λ w ctx. refl;
  free_closes = λ w s. refl;
  getaddrinfo_keeps = λ w host port. refl;
  connect_keeps = λ w s a. refl;
  set_fd_keeps = λ w ssl s. refl;
  set_host_name_keeps = λ w ssl host. refl;
  ssl_connect_keeps = λ w ssl. refl;
  ssl_shutdown_keeps = λ w ssl. refl;
  recv_keeps = λ w s n peek. refl;
  send_keeps = λ w s bytes. refl;
  ssl_read_keeps = λ w ssl num. plain_ssl_keeps w ssl num Bool.false;
  ssl_write_keeps = plain_ssl_write_keeps;
  srand_keeps = λ w. refl;
  rand_keeps = λ w. refl;
}

pub plain-IsStream : IsStream plain_system (λ w. w.waiting)
plain-IsStream = record {
  recv_bytes = λ w socket len peek piece more e some_bytes.
      ap (λ (ps : List (List ℕ)). some (take len (first_piece ps))) e;
  recv_peek = λ w socket len. refl;
  recv_left = λ w socket len piece more e some_bytes. ap (shorten len) e;
  ssl_peek_bytes = λ w ssl len piece more e some_bytes positive.
      ap (λ (ps : List (List ℕ)). some (take len (first_piece ps))) e;
  ssl_peek_left = plain_ssl_peek_left;
  ssl_read_bytes = λ w ssl len piece more e some_bytes positive.
      ap (λ (ps : List (List ℕ)). some (take len (first_piece ps))) e;
  ssl_read_left = λ w ssl len piece more e some_bytes positive. ap (shorten len) e;
}

plain_grants : (n : ℕ) → ltb n (2 ^ 63) ≡ true → plain_arrays.init n ≡ some (zeros n)
plain_grants n h = rw h refl

pub plain-HasMemory : HasMemory plain_system
plain-HasMemory = record {
  array_laws = plain-IsByteArrays;
  frame_laws = list-IsQueues;
  message_laws = list-IsQueues;
  malloc_size =
      λ n b e. ap length (sym (some-injective (replicate n 0) b e)) ∙ length-replicate n 0;
  malloc_grants = λ n h. (replicate n 0, refl);
  init_grants = λ n h. (zeros n, plain_grants n (ground arith));
  insert_grants = λ a x. (appended a x, refl);
  push_frame = λ q x. (q ++ x ∷ [], refl);
  push_message = λ q x. (q ++ x ∷ [], refl);
}

pub plain-HasTextMemory : HasTextMemory plain_system
plain-HasTextMemory = record {
  unicode_laws = plain-IsUnicodes;
  builder_laws = plain-IsBuilders;
  header_laws = list-IsHashMaps;
  str_dup_copy = λ s h. refl;
}
