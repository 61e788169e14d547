-- ===== src/Encode.antt =====
-- src/encode.c: the random bytes, base64, and the check of the server's answer to them. What OpenSSL
-- makes of bytes is a parameter.
pub mod Key
pub mod Bytes
pub mod Accept
use websocket_c.Common.{
  ℕ, zero, suc, ◌+◌, ◌%◌, Bool, true, false, ◌||◌, List, Option, none, some, length, take, ◌==◌,
  if◌then◌else◌, Run, done, fault, ◌>>=◌, load_bytes, store, store_bytes,
}
use websocket_c.CString.{text, strncmp_equal}
use websocket_c.System.{System}

-- REQUEST_NOONCE, RESPONSE_NOONCE and WS_KEY_UUID
abbrev pub request_noonce : List ℕ
request_noonce = text "7Wrl5Wp3kkEaYOVhio4o6w=="

abbrev pub response_noonce : List ℕ
response_noonce = text "mj/2Q6QlJ3Y5pun3vzHGmTO/xgs="

abbrev pub ws_key_uuid : List ℕ
ws_key_uuid = text "258EAFA5-E914-47DA-95CA-C5AB0DC85B11"

module _ (sys : System) where
  -- for (size_t i = 0; i < len; ++i) buf[i] = (rand() % max), with the rounds left
  unfoldable pub rand_loop : ℕ → ℕ → sys.World → List ℕ → Run (sys.World × List ℕ)
  rand_loop zero i w buf = done (w, buf)
  rand_loop (suc left) i w buf = do
    let (w', n) = sys.rand w
    out ← store buf i (n % 256)
    rand_loop left (i + 1) w' out

  unfoldable pub populate_rand : sys.World → Option (List ℕ) → ℕ → Run (sys.World × Option (List ℕ))
  unfolding rand_loop
  populate_rand w none len = done (w, none)
  populate_rand w (some buf) len =
      if len == 0
      then done (w, some buf)
      else (do (w', out) ← rand_loop len 0 (sys.srand_time w) buf; done (w', some out))

  -- The copy of what the base64 filter made, in a block of its own with a NUL behind it. The result
  -- has no NUL.
  unfoldable pub copy_encoded : List ℕ → Run (Option (List ℕ) × ℕ)
  copy_encoded encoded = elim (sys.malloc (length encoded + 1)) [
    | none ↦ fault
    | some buffer ↦ do
      copied ← store_bytes buffer 0 encoded
      ended ← store copied (length encoded) 0
      done (some (take (length encoded) ended), length encoded)
  ]

  -- The result is the string and `*output_length`, which is `output_length` before.
  unfoldable pub base64_encode : Option (List ℕ) → ℕ → ℕ → Run (Option (List ℕ) × ℕ)
  base64_encode none len output_length = done (none, output_length)
  base64_encode (some buf) len output_length =
      if len == 0
      then done (none, output_length)
      else if sys.use_ssl
      then (do bytes ← load_bytes buf 0 len; copy_encoded (sys.bio_base64 bytes))
      else done (sys.str_dup request_noonce, length request_noonce)

  -- With WEBC_USE_SSL: base64 of the SHA-1 digest of base64 of the bytes and the key of the RFC.
  unfoldable pub check_accept : List ℕ → ℕ → List ℕ → ℕ → Run Bool
  check_accept buf buf_len answer noonce_len = do
    (req_noonce, req_len) ← base64_encode (some buf) buf_len 0
    elim req_noonce [
      | none ↦ done false
      | some req ↦ elim (sys.concat req ws_key_uuid) [
        | none ↦ done false
        | some resp_noonce ↦
            if length resp_noonce == 0 then done false else elim (sys.sha1 resp_noonce) [
              | none ↦ done false
              | some digest ↦ do
                (base64_resp_noonce, base64_resp_len) ← base64_encode (some digest) 20 0
                elim base64_resp_noonce [
                  | none ↦ done false
                  | some base64_resp ↦
                      if base64_resp_len == 0
                      then done false
                      else done (strncmp_equal noonce_len base64_resp answer)
                ]
            ]
      ]
    ]

  unfoldable pub check_response_noonce : Option (List ℕ) → ℕ → Option (List ℕ) → ℕ → Run Bool
  check_response_noonce none buf_len answer noonce_len = done false
  check_response_noonce (some buf) buf_len none noonce_len = done false
  check_response_noonce (some buf) buf_len (some answer) noonce_len =
      if (buf_len == 0) || (noonce_len == 0)
      then done false
      else if sys.use_ssl
      then check_accept buf buf_len answer noonce_len
      else done (strncmp_equal (length response_noonce) answer response_noonce)
