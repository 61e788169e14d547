-- ===== src/Client/UrlParse.antt =====
-- `ws_client_from_str` on a URL with a port.
use websocket_c.Common.{
  ℕ, ◌+◌, ◌^◌, ◌≤◌, ◌<◌, ◌≡◌, refl, sym, ap, ◌∙◌, true, false, ◌||◌, none, List, [], ◌∷◌, ◌++◌,
  append_assoc, length, length-append, drop, leb, ◌==◌, u64, sub64, done, fault, ◌>>=◌, load,
  load-append, load_bytes, load_bytes-append, arith,
}
use websocket_c.Client.{Client}
use websocket_c.Client.Url.{ws_prefix, read_port, read_path, read_host, ws_client_from_str}
use websocket_c.CString.{is_one_of, strcspn, digits_value}
use websocket_c.CString.Scan.{Clear, Digits, strcspn-stop}
use websocket_c.Client.UrlPort.{read_port-Digits, read_port-long}
use websocket_c.System.{System}

module _ (sys : System) where
  -- At ':', the port is read next.
  read_host-port :
      (host tail : List ℕ) (len : ℕ) (client : Client sys) {url : List ℕ}
      → url ≡ ws_prefix ++ (host ++ 58 ∷ tail)
      → Clear (58 ∷ 47 ∷ []) host
      → length host + 5 < len
      → len < 2 ^ 64
      → let named = record client { host = sys.str_dup host } in
        read_host sys url len client 5 ≡ (do
          (port, behind) ← read_port url (5 + length host + 1)
          read_path sys url len (record named { port = port }) behind)
  unfolding read_host
  read_host-port host tail len client {url} e d more big =
      let n = length host in
      rw
        (
          let t : strcspn (58 ∷ 47 ∷ []) (drop 5 url) ≡ done n =
                rw e (strcspn-stop (58 ∷ 47 ∷ []) host 58 tail d refl) in
              t,
          let t : load_bytes url 5 n ≡ done host =
                rw e (load_bytes-append ws_prefix host (58 ∷ tail) 5 n refl refl) in
              t,
          let t : leb len (u64 (n + 5)) ≡ false = ground arith in t,
          let t : load url (5 + n) ≡ done 58 =
                rw (e, append_assoc ws_prefix host (58 ∷ tail))
                  (load-append (ws_prefix ++ host) 58 tail (5 + n)
                    (omega (arith, length-append ws_prefix host))) in
              t,
        )
        refl

  -- A URL "ws://host:port/path" in memory behind which a NUL stands, with a host without NUL, ':'
  -- and '/', a port of one to five digits, and `len` the length of the whole: `ws_client_from_str`
  -- returns true, and the client has copies of the host and of the path from its '/' on, the port's
  -- value, version 13 and no TLS, and the connection state that it had.
  pub ws_client_from_str-url :
      (host port path after : List ℕ) (len : ℕ) (client : Client sys)
      → Clear (58 ∷ 47 ∷ []) host
      → Digits port
      → 0 < length port
      → length port ≤ 5
      → len ≡ 7 + length host + length port + length path
      → len < 2 ^ 64
      → ws_client_from_str sys
          (ws_prefix ++ (host ++ 58 ∷ (port ++ 47 ∷ (path ++ 0 ∷ after))))
          len
          client
        ≡ done (
          record client {
            host = sys.str_dup host;
            path = sys.str_dup (47 ∷ path);
            port = digits_value 0 port;
            version = 13;
            use_tls = false;
          },
          true,
        )
  unfolding ws_client_from_str read_path
  ws_client_from_str-url host port path after len client clear digits some_port small size big =
      let n = length host in
      let m = length port in
      let tail = port ++ 47 ∷ (path ++ 0 ∷ after) in
      let url = ws_prefix ++ (host ++ 58 ∷ tail) in
      let head = ws_prefix ++ (host ++ 58 ∷ []) in
      let head_size : length head ≡ 6 + n = omega (arith, length-append host (58 ∷ [])) in
      let cut : url ≡ head ++ tail = ap (◌++◌ ws_prefix) (sym (append_assoc host (58 ∷ []) tail)) in
      let behind = 5 + n + 1 + m in
      let cut' : url ≡ (head ++ port) ++ ((47 ∷ path) ++ 0 ∷ after) =
        cut ∙ sym (append_assoc head port (47 ∷ (path ++ 0 ∷ after))) in
      let at : behind ≡ length (head ++ port) = omega (arith, head_size, length-append head port) in
      let reset : Client sys = record client {
        host = none;
        path = none;
        port = 80;
        version = 13;
        use_tls = false;
      } in
      rw
        (
          let t : leb len 5 ≡ false = ground arith in t,
          let t : leb len 6 ≡ false = ground arith in t,
          read_host-port host tail len reset refl clear (omega arith) big,
          read_port-Digits head port 47 (path ++ 0 ∷ after) (5 + n + 1) cut
              (omega (arith, head_size)) digits small refl (omega arith),
          let t : (behind == len) ≡ false = ground arith in t,
          let t : load url behind ≡ done 47 =
                rw cut' (load-append (head ++ port) 47 (path ++ 0 ∷ after) behind at) in
              t,
          let t : load_bytes url behind (sub64 len behind) ≡ done (47 ∷ path) = rw cut' (
                load_bytes-append (head ++ port) (47 ∷ path) (0 ∷ after) behind (sub64 len behind)
                  at (omega arith)) in
              t,
        )
        refl

  -- A URL "ws://host:port" with a port of six characters or more, which a NUL or '/' ends: the
  -- port is copied past the end of its buffer of 6 bytes.
  pub ws_client_from_str-long_port :
      (host port : List ℕ) (c : ℕ) (after : List ℕ) (len : ℕ) (client : Client sys)
      → Clear (58 ∷ 47 ∷ []) host
      → Clear (47 ∷ []) port
      → 6 ≤ length port
      → ((c == 0) || is_one_of c (47 ∷ [])) ≡ true
      → 6 + length host + length port ≤ len
      → len < 2 ^ 64
      → ws_client_from_str sys (ws_prefix ++ (host ++ 58 ∷ (port ++ c ∷ after))) len client ≡ fault
  unfolding ws_client_from_str
  ws_client_from_str-long_port host port c after len client clear clear' long stop size big =
      let tail = port ++ c ∷ after in
      let head = ws_prefix ++ (host ++ 58 ∷ []) in
      let reset : Client sys = record client {
        host = none;
        path = none;
        port = 80;
        version = 13;
        use_tls = false;
      } in
      rw
        (
          let t : leb len 5 ≡ false = ground arith in t,
          let t : leb len 6 ≡ false = ground arith in t,
          read_host-port host tail len reset refl clear (omega arith) big,
          read_port-long head port c after (5 + length host + 1)
              (ap (◌++◌ ws_prefix) (sym (append_assoc host (58 ∷ []) tail)))
              (omega (arith, length-append host (58 ∷ []))) clear' long stop,
        )
        refl
