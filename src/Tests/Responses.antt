-- ===== src/Tests/Responses.antt =====
-- Responses that are written, and texts that are refused.
use websocket_c.Common.{◌+◌, ◌/◌, ◌%◌, ◌≡◌, ◌≢◌, refl, some, [], ◌∷◌, ◌++◌, done, timeout, arith}
use websocket_c.CString.{text}
use websocket_c.Http.{HttpResponse}
use websocket_c.Http.Ends.{http_message_from_str-no_timeout}
use websocket_c.Http.Lines.{head_text}
use websocket_c.Http.Parse.{http_message_from_str}
use websocket_c.Http.Print.{http_response_to_str}
use websocket_c.Http.ResponseStatus.{http_response_to_str-text}
use websocket_c.Tests.Plain.{plain_system, plain-HasTextMemory}
use websocket_c.Tests.Requests.{blank}

abbrev not_found : HttpResponse plain_system
not_found = record {
  message = record blank {
    protocol = some (text "HTTP/1.1");
    status_text = some (text "Not Found");
    status_code = 404;
  };
}

http_response_to_str-text_example :
    http_response_to_str plain_system not_found
    ≡ done (
        some (
          text "HTTP/1.1"
          ++ 32
            ∷ (48 + 404 / 10 / 10)
            ∷ (48 + 404 / 10 % 10)
            ∷ 0
            ∷ 32
            ∷ (text "Not Found" ++ 13 ∷ 10 ∷ head_text [] [])))
http_response_to_str-text_example =
    http_response_to_str-text plain_system plain-HasTextMemory not_found [] (text "HTTP/1.1")
      (text "Not Found") [] refl refl refl refl (omega arith) (omega arith) (omega arith)

http_message_from_str-no_timeout_example :
    http_message_from_str plain_system blank (text "Host: a\r\nfoo" ++ 0 ∷ []) 12 0 ≢ timeout
http_message_from_str-no_timeout_example =
    http_message_from_str-no_timeout plain_system blank (text "Host: a\r\nfoo" ++ 0 ∷ []) 12 0
