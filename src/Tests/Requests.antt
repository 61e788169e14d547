-- ===== src/Tests/Requests.antt =====
-- HTTP texts that are written and read.
use websocket_c.Common.{
  ℕ, ◌+◌, ◌≡◌, ◌≢◌, ◌↔◌, refl, sym, ap, true, none, some, List, [], ◌∷◌, ◌++◌, length, done, fault,
  arith,
}
use mathlib.Core.Option.{some-injective}
use websocket_c.Cstd.{ByteArray, contents}
use websocket_c.Cstd.Text.{lower}
use websocket_c.CString.{text, decimal_digits}
use websocket_c.CString.Scan.{is_clear-Clear}
use websocket_c.Http.{
  HttpMethod, invalid_method, get, post, put, delete, options, HttpMessage, HttpRequest,
  http_method_get_enum, http_method_get_string, http_message_get_header, http_message_set_header,
}
use websocket_c.Http.HeaderLoop.{last_value}
use websocket_c.Http.Headers.{http_message_set_header-get}
use websocket_c.Http.Lines.{Line, head_text, head_size, AllLines, no_lines, more_lines}
use websocket_c.Http.Methods.{http_method_get_enum-string}
use websocket_c.Http.Parse.{http_message_from_str, http_request_from_str}
use websocket_c.Http.Print.{http_request_to_str}
use websocket_c.Http.RequestText.{host_value, IsPrintable}
use websocket_c.Http.RoundTrip.{request_to_str-from_str}
use websocket_c.Http.StartLine.{IsStart}
use websocket_c.Http.Text.{http_message_from_str-text, http_message_from_str-no_colon}
use websocket_c.Http.Written.{entries_of}
use websocket_c.Reader.Concat.{Fits}
use websocket_c.Tests.Plain.{plain_system, plain-HasMemory, plain-HasTextMemory}
use websocket_c.Tests.Texts.{list_maps}

abbrev pub blank : HttpMessage plain_system
blank = record {
  protocol = none;
  method = get;
  host = none;
  path = none;
  status_text = none;
  port = 80;
  status_code = 0;
  headers = some [];
  body = record { byte_data = []; len = 0; cap = 0 };
}

abbrev number : HttpMethod → ℕ
number invalid_method = 0
number get = 1
number post = 2
number put = 3
number delete = 4
number options = 5

post_valid : post ≢ invalid_method
post_valid e = absurd (omega (arith, ap number e))

http_method_get_enum-string_example :
    (http_method_get_enum (text "POSTS") ≡ done post)
    ↔ ((rest : List ℕ) × (text "POSTS" ≡ http_method_get_string post ++ rest))
http_method_get_enum-string_example = http_method_get_enum-string post (text "POSTS") post_valid

http_message_set_header-get_example :
    (map' : plain_system.headers.HashMap) × (http_message_set_header plain_system blank
        (text "Host")
        (text "a")
      ≡ done (record blank { headers = some map' }, true))
    × (http_message_get_header plain_system
          (record blank { headers = some map' })
          (text "hOST")
          none
        ≡ done (some (text "a"), true))
http_message_set_header-get_example =
    http_message_set_header-get plain_system plain-HasTextMemory blank [] (text "Host") (text "a")
      (text "hOST") none refl refl refl refl

abbrev lines : List Line
lines = (text "Upgrade", text "websocket") ∷ (text "host", text "b") ∷ []

lines-AllLines : AllLines lines
lines-AllLines =
    more_lines
      (record {
        key_ascii = refl;
        key_colon = is_clear-Clear (text ":") (text "Upgrade") refl;
        key_feed = is_clear-Clear (text "\n") (text "Upgrade") refl;
        value_nul = refl;
        value_return = is_clear-Clear (text "\r") (text "websocket") refl;
        value_feed = is_clear-Clear (text "\n") (text "websocket") refl;
      })
      (more_lines
        (record {
          key_ascii = refl;
          key_colon = is_clear-Clear (text ":") (text "host") refl;
          key_feed = is_clear-Clear (text "\n") (text "host") refl;
          value_nul = refl;
          value_return = is_clear-Clear (text "\r") (text "b") refl;
          value_feed = is_clear-Clear (text "\n") (text "b") refl;
        })
        no_lines)

abbrev status : List ℕ
status = text "HTTP/1.1 101 Switching\r\n"

http_message_from_str-text_example :
    (map' : plain_system.headers.HashMap) × (body : ByteArray) × (http_message_from_str plain_system
        blank
        (status ++ head_text lines (text "hi" ++ 0 ∷ []))
        (length status + head_size lines + 2)
        (length status)
      ≡ done (record blank { headers = some map'; body = body }, true))
    × ((asked : List ℕ)
        → list_maps.get map' asked ≡ last_value plain_system plain-HasTextMemory lines asked none)
    × Fits body
    × (contents body ≡ text "hi")
http_message_from_str-text_example =
    http_message_from_str-text plain_system plain-HasMemory plain-HasTextMemory blank [] lines
      (text "hi") status (0 ∷ []) (length status + head_size lines + 2) refl (omega arith)
      lines-AllLines refl

http_message_from_str-no_colon_example :
    http_message_from_str plain_system blank
      (status ++ (text "foo" ++ 0 ∷ []))
      (length status + 3)
      (length status)
    ≡ fault
http_message_from_str-no_colon_example =
    http_message_from_str-no_colon plain_system plain-HasMemory blank status (text "foo")
      (is_clear-Clear (text ":") (text "foo") refl) (is_clear-Clear (text "\n") (text "foo") refl)
      (omega arith) (λ e. absurd (omega arith))

abbrev request : HttpRequest plain_system
request = record {
  message = record blank {
    method = post;
    path = some (text "/ws");
    protocol = some (text "HTTP/1.1");
    host = some (text "h");
    body = record { byte_data = text "hi"; len = 2; cap = 2 };
  };
}

request-IsPrintable : IsPrintable plain_system request (text "/ws") (text "HTTP/1.1") (text "h") []
unfolding decimal_digits
request-IsPrintable = record {
  a_method = post_valid;
  the_path = refl;
  the_protocol = refl;
  the_host = refl;
  the_headers = refl;
  body_fits = omega arith;
  host_nul = refl;
  host_size = omega arith;
}

-- The lines that the table has with "Host" set.
abbrev hosted : List Line
hosted = (text "host", text "h:80") ∷ []

hosted-AllLines : AllLines hosted
hosted-AllLines =
    more_lines
      (record {
        key_ascii = refl;
        key_colon = is_clear-Clear (text ":") (text "host") refl;
        key_feed = is_clear-Clear (text "\n") (text "host") refl;
        value_nul = refl;
        value_return = is_clear-Clear (text "\r") (text "h:80") refl;
        value_feed = is_clear-Clear (text "\n") (text "h:80") refl;
      })
      no_lines

request-IsStart : IsStart (text "/ws") (text "HTTP/1.1")
request-IsStart = record {
  path_space = is_clear-Clear (text " ") (text "/ws") refl;
  path_feed = is_clear-Clear (text "\n") (text "/ws") refl;
  protocol_return = is_clear-Clear (text "\r") (text "HTTP/1.1") refl;
  protocol_feed = is_clear-Clear (text "\n") (text "HTTP/1.1") refl;
}

listed :
    (map' : plain_system.headers.HashMap)
    → list_maps.set [] (lower (text "Host")) (some (host_value (text "h") 80)) ≡ some map'
    → list_maps.entries map' ≡ entries_of hosted
unfolding decimal_digits
listed map' e =
    ap list_maps.entries (sym (some-injective ((text "host", some (text "h:80")) ∷ []) map' e))

request_to_str-from_str_example :
    (again : HttpRequest plain_system) × (str : List ℕ) × (read : HttpRequest plain_system)
    × (map' : plain_system.headers.HashMap) × (http_request_to_str plain_system request
        ≡ done (again, some str))
    × (http_request_from_str plain_system (record { message = blank }) (str ++ 0 ∷ []) (length str)
        ≡ done (read, true))
    × (read.message.method ≡ post)
    × (read.message.path ≡ some (text "/ws"))
    × (read.message.protocol ≡ some (text "HTTP/1.1"))
    × (read.message.headers ≡ some map')
    × ((asked : List ℕ)
        → list_maps.get map' asked ≡ last_value plain_system plain-HasTextMemory hosted asked none)
    × (contents read.message.body ≡ text "hi\r\n")
request_to_str-from_str_example =
    request_to_str-from_str plain_system plain-HasMemory plain-HasTextMemory request
      (record { message = blank }) (text "/ws") (text "HTTP/1.1") (text "h") [] [] hosted
      request-IsPrintable request-IsStart hosted-AllLines listed refl (λ asked. refl) refl
