-- ===== src/Http.antt =====
-- src/http.c and headers/http.h: methods, messages and their headers. A `char *` is the string
-- that it points to, or `none`.
pub mod Parse
pub mod Print
pub mod Methods
pub mod Headers
pub mod Lines
pub mod HeaderLoop
pub mod Text
pub mod StartLine
pub mod StatusLine
pub mod ResponseText
pub mod Ends
pub mod ResponseStatus
pub mod Written
pub mod Table
pub mod RequestText
pub mod RoundTrip
use websocket_c.Common.{
  ℕ, zero, suc, ◌+◌, Bool, true, false, Option, none, some, List, [], ◌∷◌, ◌++◌, length, ltb,
  if◌then◌else◌, Run, done, fault, ◌>>=◌, load,
}
use websocket_c.Cstd.{ByteArray}
use websocket_c.CString.{text, starts_with}
use websocket_c.System.{System}

-- enum http_method_t
pub data HttpMethod : Type 0 where
  invalid_method get post put delete options : HttpMethod

unfoldable pub http_method_get_string : HttpMethod → List ℕ
http_method_get_string get = text "GET"
http_method_get_string post = text "POST"
http_method_get_string put = text "PUT"
http_method_get_string delete = text "DELETE"
http_method_get_string options = text "OPTIONS"
http_method_get_string invalid_method = []

-- `method` is the block with the string and its NUL.
unfoldable pub http_method_get_enum : List ℕ → Run HttpMethod
http_method_get_enum method = do
  is_get ← starts_with (text "GET") method
  if is_get then done get else (do
    is_post ← starts_with (text "POST") method
    if is_post then done post else (do
      is_put ← starts_with (text "PUT") method
      if is_put then done put else (do
        is_delete ← starts_with (text "DELETE") method
        if is_delete then done delete else (do
          is_options ← starts_with (text "OPTIONS") method
          if is_options then done options else done invalid_method))))

-- struct http_message_t; the table of the headers may be a null pointer.
pub record HttpMessage (sys : System) : Type 0 where
  pub protocol : Option (List ℕ)
  pub method : HttpMethod
  pub host : Option (List ℕ)
  pub path : Option (List ℕ)
  pub status_text : Option (List ℕ)
  pub port : ℕ
  pub status_code : ℕ
  pub headers : Option (sys.headers.HashMap)
  pub body : ByteArray

pub record HttpResponse (sys : System) : Type 0 where
  pub message : HttpMessage sys

pub record HttpRequest (sys : System) : Type 0 where
  pub message : HttpMessage sys

-- `*out` and the result of hash_map_get(map, key, out)
abbrev pub found_header : Option (List ℕ) → Option (Option (List ℕ)) → Option (List ℕ) × Bool
found_header out none = (out, false)
found_header out (some value) = (value, true)

module _ (sys : System) where
  -- Through a Unicode string to lower case.
  unfoldable pub normalized_cstr : List ℕ → Option (List ℕ)
  normalized_cstr str =
      let (uni_str, count) = sys.unicodes.set_char sys.unicodes.create str in
      if ltb count (length str) then none else elim (sys.unicodes.to_lower uni_str) [
        | none ↦ none
        | some new_str ↦ sys.unicodes.to_cstr new_str
      ]

  -- `protocol` and `status_text` are not set.
  unfoldable pub http_message_init : HttpMessage sys → HttpMessage sys × Bool
  http_message_init msg =
      let fresh = record msg { host = none; path = none; method = get; port = 80 } in
      elim (sys.headers.create 1000) [
        | none ↦ (record fresh { headers = none }, false)
        | some map ↦ elim (sys.arrays.init 5) [
          | none ↦ (record fresh { headers = some map }, false)
          | some body ↦ (record fresh { headers = some map; body = body }, true)
        ]
      ]

  -- For `protocol` the code frees the path again, which is null by then.
  unfoldable pub http_message_free : HttpMessage sys → HttpMessage sys
  http_message_free msg = record msg {
    host = none;
    path = none;
    protocol = none;
    method = invalid_method;
    headers = none;
    body = sys.arrays.free msg.body;
  }

  -- The result is `*out` and the Boolean returned. The map takes no null pointer.
  unfoldable pub http_message_get_header :
      HttpMessage sys → List ℕ → Option (List ℕ) → Run (Option (List ℕ) × Bool)
  http_message_get_header msg key out = elim msg.headers [
    | none ↦ fault
    | some map ↦ elim (normalized_cstr key) [
      | none ↦ fault
      | some normalized_key ↦ done (found_header out (sys.headers.get map normalized_key))
    ]
  ]

  -- The value found before is freed.
  unfoldable pub http_message_set_header :
      HttpMessage sys → List ℕ → List ℕ → Run (HttpMessage sys × Bool)
  http_message_set_header msg key value = do
    (out, found) ← http_message_get_header msg key none
    elim msg.headers [
      | none ↦ fault
      | some map ↦ elim (normalized_cstr key) [
        | none ↦ fault
        | some normalized_key ↦ elim (sys.headers.set map normalized_key (sys.str_dup value)) [
          | none ↦ done (msg, false)
          | some map' ↦ done (record msg { headers = some map' }, true)
        ]
      ]
    ]

  -- for (; index < len; ++index) byte_array_insert(&body, str[index]), with the rounds left; the
  -- Boolean says whether all were inserted
  unfoldable pub insert_body : List ℕ → ℕ → ℕ → ByteArray → Run (ByteArray × Bool)
  insert_body str zero index body = done (body, true)
  insert_body str (suc left) index body = do
    b ← load str index
    elim (sys.arrays.insert body b) [
      | none ↦ done (body, false)
      | some longer ↦ insert_body str left (index + 1) longer
    ]

  -- http_request_write and http_request_write_cstr, which differ in the type of the buffer
  unfoldable pub http_request_write : HttpRequest sys → List ℕ → ℕ → Run (HttpRequest sys × Bool)
  http_request_write r buf len = do
    (body, ok) ← insert_body buf len 0 r.message.body
    done (record r { message = record r.message { body = body } }, ok)

  unfoldable pub http_request_write_cstr :
      HttpRequest sys → List ℕ → ℕ → Run (HttpRequest sys × Bool)
  http_request_write_cstr r str len = do
    (body, ok) ← insert_body str len 0 r.message.body
    done (record r { message = record r.message { body = body } }, ok)

  unfoldable pub http_response_init : HttpResponse sys → HttpResponse sys × Bool
  http_response_init r =
      let (message, ok) = http_message_init r.message in (record { message = message }, ok)

  unfoldable pub http_request_init : HttpRequest sys → HttpRequest sys × Bool
  http_request_init r =
      let (message, ok) = http_message_init r.message in (record { message = message }, ok)

  unfoldable pub http_response_set_header :
      HttpResponse sys → List ℕ → List ℕ → Run (HttpResponse sys × Bool)
  http_response_set_header r key value = do
    (message, ok) ← http_message_set_header r.message key value
    done (record { message = message }, ok)

  unfoldable pub http_request_set_header :
      HttpRequest sys → List ℕ → List ℕ → Run (HttpRequest sys × Bool)
  http_request_set_header r key value = do
    (message, ok) ← http_message_set_header r.message key value
    done (record { message = message }, ok)

  unfoldable pub http_response_get_header :
      HttpResponse sys → List ℕ → Option (List ℕ) → Run (Option (List ℕ) × Bool)
  http_response_get_header r key out = http_message_get_header r.message key out

  unfoldable pub http_request_get_header :
      HttpRequest sys → List ℕ → Option (List ℕ) → Run (Option (List ℕ) × Bool)
  http_request_get_header r key out = http_message_get_header r.message key out

  -- `r == NULL` is `none`.
  unfoldable pub http_response_free : Option (HttpResponse sys) → Option (HttpResponse sys)
  http_response_free none = none
  http_response_free (some r) = some (record { message = http_message_free r.message })

  unfoldable pub http_request_free : Option (HttpRequest sys) → Option (HttpRequest sys)
  http_request_free none = none
  http_request_free (some r) = some (record { message = http_message_free r.message })
