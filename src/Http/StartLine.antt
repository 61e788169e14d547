-- ===== src/Http/StartLine.antt =====
-- The start line of a request.
use websocket_c.Common.{
  ℕ, ◌+◌, ◌≤◌, ◌<◌, ◌≡◌, ◌≢◌, refl, sym, ap, ◌∙◌, true, false, some, List, [], ◌∷◌, ◌++◌,
  append_assoc, length, length-append, drop, ltb, le→not-ltb, ◌==◌, done, load_bytes,
  load_bytes-append, arith,
}
use websocket_c.Cstd.Text.{is_nul_free}
use websocket_c.CString.{text, strcspn}
use websocket_c.CString.Scan.{Clear, clear_end, clear_next, strcspn-stop, is_clear, is_clear-Clear}
use websocket_c.Http.{
  HttpMethod, invalid_method, get, post, put, delete, options, HttpMessage, http_method_get_string,
  http_method_get_enum,
}
use websocket_c.Http.HeaderLoop.{drop-prefix}
use websocket_c.Http.Lines.{Clear-append}
use websocket_c.Http.Methods.{enum_prefix}
use websocket_c.Http.Parse.{parse_request_start_line}
use websocket_c.System.{System, HasTextMemory}

-- "<method> <path> <protocol>\r\n" with what comes behind it.
abbrev pub start_line : HttpMethod → List ℕ → List ℕ → List ℕ → List ℕ
start_line method path protocol rest =
    http_method_get_string method ++ 32 ∷ (path ++ 32 ∷ (protocol ++ 13 ∷ 10 ∷ rest))

abbrev pub start_line_size : HttpMethod → List ℕ → List ℕ → ℕ
start_line_size method path protocol =
    length (http_method_get_string method) + length path + length protocol + 3

-- A path without space and line feed, and a protocol without carriage return and line feed.
pub record IsStart (path protocol : List ℕ) : Type 0 where
  pub path_space : Clear (text " ") path
  pub path_feed : Clear (text "\n") path
  pub protocol_return : Clear (text "\r") protocol
  pub protocol_feed : Clear (text "\n") protocol

pub Clear-nul_free : (reject s : List ℕ) → Clear reject s → is_nul_free s ≡ true
Clear-nul_free reject [] clear_end = refl
Clear-nul_free reject (c ∷ s) (clear_next h hs) =
    let rest = Clear-nul_free reject s hs in
    let some_char : (c == 0) ≡ false = ground arith in ground arith

method_clear :
    (m : HttpMethod)
    → (is_clear (text " ") (http_method_get_string m) ≡ true)
      × (is_clear (text "\n") (http_method_get_string m) ≡ true)
unfolding http_method_get_string
method_clear invalid_method = (refl, refl)
method_clear get = (refl, refl)
method_clear post = (refl, refl)
method_clear put = (refl, refl)
method_clear delete = (refl, refl)
method_clear options = (refl, refl)

method_nul_free : (m : HttpMethod) → is_nul_free (http_method_get_string m) ≡ true
method_nul_free m =
    Clear-nul_free (text " ") (http_method_get_string m)
      (is_clear-Clear (text " ") (http_method_get_string m) (method_clear m).0)

pub length-start_line :
    (method : HttpMethod) (path protocol rest : List ℕ)
    → length (start_line method path protocol rest)
      ≡ start_line_size method path protocol + 1 + length rest
length-start_line method path protocol rest = omega (
  arith,
  length-append (http_method_get_string method) (32 ∷ (path ++ 32 ∷ (protocol ++ 13 ∷ 10 ∷ rest))),
  length-append path (32 ∷ (protocol ++ 13 ∷ 10 ∷ rest)),
  length-append protocol (13 ∷ 10 ∷ rest),
)

-- The line feed is at the end of the line.
pub start_line_feed :
    (method : HttpMethod) (path protocol rest : List ℕ)
    → IsStart path protocol
    → strcspn (text "\n") (start_line method path protocol rest)
      ≡ done (start_line_size method path protocol)
start_line_feed method path protocol rest h =
    let m = http_method_get_string method in
    let q = protocol ++ 13 ∷ [] in
    let line = m ++ 32 ∷ (path ++ 32 ∷ q) in
    let split : start_line method path protocol rest ≡ line ++ 10 ∷ rest =
      ap (λ (t : List ℕ). m ++ 32 ∷ (path ++ 32 ∷ t))
        (sym (append_assoc protocol (13 ∷ []) (10 ∷ rest)))
      ∙ ap (λ (t : List ℕ). m ++ 32 ∷ t) (sym (append_assoc path (32 ∷ q) (10 ∷ rest)))
      ∙ sym (append_assoc m (32 ∷ (path ++ 32 ∷ q)) (10 ∷ rest)) in
    ap (strcspn (text "\n")) split
    ∙ strcspn-stop (text "\n") line 10 rest
        (Clear-append (text "\n") m (32 ∷ (path ++ 32 ∷ q))
          (is_clear-Clear (text "\n") m (method_clear method).1)
          (clear_next refl (
            Clear-append (text "\n") path (32 ∷ q) h.path_feed (
              clear_next refl (
                Clear-append (text "\n") protocol (13 ∷ []) h.protocol_feed
                  (clear_next refl clear_end))))))
        refl
    ∙ ap done (
        let e : length line ≡ start_line_size method path protocol = omega (
          arith,
          length-append m (32 ∷ (path ++ 32 ∷ q)),
          length-append path (32 ∷ q),
          length-append protocol (13 ∷ []),
        ) in
        e)

parse_request_steps :
    (sys : System) (msg : HttpMessage sys) (str : List ℕ) (len : ℕ) {m p q : ℕ}
    {word path protocol path_copy protocol_copy : List ℕ} {method : HttpMethod}
    → strcspn (text " ") str ≡ done m
    → m + 1 + p + 1 + q ≤ len
    → load_bytes str 0 m ≡ done word
    → sys.str_dup word ≡ some word
    → http_method_get_enum (word ++ 0 ∷ []) ≡ done method
    → strcspn (text " ") (drop (m + 1) str) ≡ done p
    → load_bytes str (m + 1) p ≡ done path
    → sys.str_dup path ≡ some path_copy
    → strcspn (text "\r") (drop (m + 1 + p + 1) str) ≡ done q
    → load_bytes str (m + 1 + p + 1) q ≡ done protocol
    → sys.str_dup protocol ≡ some protocol_copy
    → parse_request_start_line sys msg str len
      ≡ done (
        record msg { method = method; path = some path_copy; protocol = some protocol_copy },
        m + 1 + p + 1 + q + 2,
      )
unfolding parse_request_start_line
parse_request_steps sys msg str len {m} {p} {q} s1 fits l1 d1 g s2 l2 d2 s3 l3 d3 =
    rw
      (
        s1,
        let t : ltb len m ≡ false = le→not-ltb len m (omega arith) in t,
        l1,
        d1,
        g,
        s2,
        let t : ltb len (m + 1 + p) ≡ false = le→not-ltb len (m + 1 + p) (omega arith) in t,
        l2,
        d2,
        s3,
        let t : ltb len (m + 1 + p + 1 + q) ≡ false = le→not-ltb len (m + 1 + p + 1 + q) fits in t,
        l3,
        d3,
      )
      refl

pub parse_request-start_line :
    (sys : System) (mem : HasTextMemory sys) (msg : HttpMessage sys) (method : HttpMethod)
    (path protocol rest : List ℕ)
    → method ≢ invalid_method
    → IsStart path protocol
    → (index : ℕ) × (0 < index)
      × (parse_request_start_line sys msg
            (start_line method path protocol rest)
            (start_line_size method path protocol)
          ≡ done
              (record msg { method = method; path = some path; protocol = some protocol }, index))
parse_request-start_line sys mem msg method path protocol rest valid h =
    let m = http_method_get_string method in
    let str = start_line method path protocol rest in
    let behind = protocol ++ 13 ∷ 10 ∷ rest in
    let second = path ++ 32 ∷ behind in
    let before = m ++ 32 ∷ [] in
    let before' = before ++ (path ++ 32 ∷ []) in
    let split : str ≡ before ++ second = sym (append_assoc m (32 ∷ []) second) in
    let split' : str ≡ before' ++ behind =
      split
      ∙ ap (◌++◌ before) (sym (append_assoc path (32 ∷ []) behind))
      ∙ sym (append_assoc before (path ++ 32 ∷ []) behind) in
    let at : length m + 1 ≡ length before = omega (arith, length-append m (32 ∷ [])) in
    let at' : length m + 1 + length path + 1 ≡ length before' =
      omega (arith, at, length-append before (path ++ 32 ∷ []), length-append path (32 ∷ [])) in
    (
      length m + 1 + length path + 1 + length protocol + 2,
      omega arith,
      parse_request_steps sys msg str (start_line_size method path protocol)
          (strcspn-stop (text " ") m 32 second (is_clear-Clear (text " ") m (method_clear method).0)
            refl)
          (omega arith) (load_bytes-append [] m (32 ∷ second) 0 (length m) refl refl)
          (mem.str_dup_copy m (method_nul_free method)) (enum_prefix method (0 ∷ []) valid)
          (ap (strcspn (text " ")) (drop-prefix before second (length m + 1) split at)
            ∙ strcspn-stop (text " ") path 32 behind h.path_space refl)
          (rw split
            (load_bytes-append before path (32 ∷ behind) (length m + 1) (length path) at refl))
          (mem.str_dup_copy path (Clear-nul_free (text " ") path h.path_space))
          (ap (strcspn (text "\r"))
              (drop-prefix before' behind (length m + 1 + length path + 1) split' at')
            ∙ strcspn-stop (text "\r") protocol 13 (10 ∷ rest) h.protocol_return refl)
          (rw split' (
            load_bytes-append before' protocol (13 ∷ 10 ∷ rest) (length m + 1 + length path + 1)
              (length protocol) at' refl))
          (mem.str_dup_copy protocol (Clear-nul_free (text "\r") protocol h.protocol_return)),
    )
