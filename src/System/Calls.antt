-- ===== src/System/Calls.antt =====
-- The interface of the calls that open a connection: getaddrinfo, socket and connect of libc, and
-- the contexts and sessions of OpenSSL. A pointer, a socket and a session are numbers; `none` is a
-- null pointer, -1, or an error number.
use websocket_c.Common.{ℕ, Bool, List, Option}

pub record Network (World : Type 0) : Type 1 where
  -- struct addrinfo without `ai_next`
  pub Address : Type 0
  -- getaddrinfo(host, port, &hints, &res): the entries of `res`
  pub getaddrinfo : World → List ℕ → List ℕ → World × Option (List Address)
  -- socket(ai_family, ai_socktype, ai_protocol)
  pub socket : World → Address → World × Option ℕ
  -- connect(sock, ai_addr, ai_addrlen) == 0
  pub connect : World → ℕ → Address → World × Bool

pub record Tls (World : Type 0) : Type 0 where
  -- SSL_library_init, SSL_load_error_strings and OpenSSL_add_all_algorithms
  pub library_init : World → World
  -- SSL_CTX_new(TLS_client_method())
  pub ctx_new : World → World × Option ℕ
  pub ctx_free : World → ℕ → World
  -- SSL_CTX_load_verify_locations(ctx, cert, path)
  pub load_verify_locations : World → ℕ → List ℕ → Option (List ℕ) → World × Bool
  -- SSL_CTX_set_verify(ctx, SSL_VERIFY_PEER, NULL) and SSL_CTX_set_verify_depth(ctx, depth)
  pub set_verify_peer : World → ℕ → World
  pub set_verify_depth : World → ℕ → ℕ → World
  -- SSL_CTX_set_min_proto_version(ctx, TLS1_2_VERSION)
  pub set_min_proto : World → ℕ → World
  -- SSL_CTX_use_certificate_file(ctx, cert, SSL_FILETYPE_PEM) > 0
  pub use_certificate_file : World → ℕ → List ℕ → World × Bool
  -- SSL_CTX_use_PrivateKey_file(ctx, key, SSL_FILETYPE_PEM) > 0
  pub use_private_key_file : World → ℕ → List ℕ → World × Bool
  pub check_private_key : World → ℕ → World × Bool
  -- EVP_cleanup
  pub evp_cleanup : World → World
  -- SSL_new(ctx)
  pub ssl_new : World → Option ℕ → World × Option ℕ
  -- SSL_set_fd(ssl, socket)
  pub set_fd : World → ℕ → ℕ → World
  -- SSL_set_tlsext_host_name(ssl, host), whose result is only reported
  pub set_host_name : World → ℕ → List ℕ → World
  -- SSL_connect(ssl)
  pub ssl_connect : World → ℕ → World × Option ℕ
