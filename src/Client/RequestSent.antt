-- ===== src/Client/RequestSent.antt =====
-- The request of the opening handshake, read back.
use websocket_c.Common.{
  ◌/◌, ℕ, zero, suc, ◌+◌, ◌%◌, ◌^◌, ◌<◌, ◌≡◌, refl, true, some, List, [], ◌∷◌, ◌++◌, length, arith,
}
use websocket_c.Client.{Client}
use websocket_c.Client.Handshake.{path_or_empty, protocol_text}
use websocket_c.CString.{text, decimal}
use websocket_c.CString.Scan.{Clear, clear_next, is_clear, is_clear-Clear}
use websocket_c.Cstd.Text.{is_ascii, is_base64, is_nul_free}
use websocket_c.Http.Lines.{Line, IsLine, AllLines, no_lines, more_lines}
use websocket_c.Http.RequestText.{host_value}
use websocket_c.Http.StartLine.{IsStart}
use websocket_c.System.{System}
use websocket_c.Client.HandshakeText.{key_headers, is_base64-Clear}
use websocket_c.CString.{decimal_digits}
use websocket_c.Http.Lines.{Clear-append}
use websocket_c.Http.RequestText.{nul_free-append}

base64-append : (s t : List ℕ) → is_base64 s ≡ true → is_base64 t ≡ true → is_base64 (s ++ t) ≡ true
base64-append [] t hs ht = ht
base64-append (c ∷ s) t hs ht = ground (arith, base64-append s t)

pub decimal_digits-base64 : (fuel n : ℕ) → is_base64 (decimal_digits fuel n) ≡ true
unfolding decimal_digits
decimal_digits-base64 zero n = refl
decimal_digits-base64 (suc fuel) n = ground (
  arith,
  base64-append (decimal_digits fuel (n / 10)) ((48 + n % 10) ∷ []),
  decimal_digits-base64 fuel (n / 10),
)

-- A client whose address can stand in a request.
pub record IsAddress (sys : System) (client : Client sys) (host : List ℕ) : Type 0 where
  pub the_host : client.host ≡ some host
  pub path_start : IsStart (path_or_empty client.path) protocol_text
  pub host_return : Clear (text "\r") host
  pub host_feed : Clear (text "\n") host
  pub host_nul : is_nul_free host ≡ true
  pub host_size : length host < 2 ^ 62
  pub version_size : client.version < 10 ^ 5

-- All headers of the request.
abbrev pub request_headers : List ℕ → ℕ → List ℕ → ℕ → List Line
request_headers host port key version =
    (text "host", host_value host (port % 2 ^ 16)) ∷ key_headers key version

plain-IsLine :
    (key value : List ℕ)
    → is_ascii key ≡ true
    → is_clear (text ":") key ≡ true
    → is_clear (text "\n") key ≡ true
    → is_base64 value ≡ true
    → IsLine (key, value)
plain-IsLine key value a b c d =
    let (r, n, f) = is_base64-Clear value d in
    record {
      key_ascii = a;
      key_colon = is_clear-Clear (text ":") key b;
      key_feed = is_clear-Clear (text "\n") key c;
      value_nul = f;
      value_return = r;
      value_feed = n;
    }

pub request_headers-AllLines :
    (host key : List ℕ) (port version : ℕ)
    → Clear (text "\r") host
    → Clear (text "\n") host
    → is_nul_free host ≡ true
    → is_base64 key ≡ true
    → AllLines (request_headers host port key version)
unfolding decimal_digits
request_headers-AllLines host key port version r n f k =
    let digits = decimal (port % 2 ^ 16) in
    let (dr, dn, df) = is_base64-Clear digits (decimal_digits-base64 5 (port % 2 ^ 16)) in
    more_lines
      (record {
        key_ascii = refl;
        key_colon = is_clear-Clear (text ":") (text "host") refl;
        key_feed = is_clear-Clear (text "\n") (text "host") refl;
        value_nul = nul_free-append host (text ":" ++ digits) f df;
        value_return = Clear-append (text "\r") host (text ":" ++ digits) r (clear_next refl dr);
        value_feed = Clear-append (text "\n") host (text ":" ++ digits) n (clear_next refl dn);
      })
      (more_lines
        (plain-IsLine (text "sec-websocket-version") (decimal version) refl refl refl
          (decimal_digits-base64 5 version))
        (more_lines (plain-IsLine (text "sec-websocket-key") key refl refl refl k) (
          more_lines (plain-IsLine (text "connection") (text "Upgrade") refl refl refl refl) (
            more_lines (plain-IsLine (text "upgrade") (text "websocket") refl refl refl refl)
              no_lines))))
