-- ===== src/Client/Answered.antt =====
-- What ws_client_connect makes of a response of the server that has the header
-- "Sec-WebSocket-Accept".
use websocket_c.Common.{
  ℕ, zero, suc, ◌^◌, ◌≤◌, ◌<◌, ◌≡◌, ◌≢◌, refl, ap, ◌∙◌, Bool, true, false, none, some, List, [],
  ◌∷◌, ◌++◌, append-nil, length, take, drop, length-drop, replicate, length-replicate,
  if◌then◌else◌, Run, done, load_bytes-append, store_bytes_next, arith,
}
use websocket_c.Client.{Internal, Client, ws_check_internals, keep_received, ws_client_recv}
use websocket_c.Client.Connect.{Connection, abandon, check_accept_header}
use websocket_c.CString.{text}
use websocket_c.Cstd.{ByteArray}
use websocket_c.Encode.{check_response_noonce}
use websocket_c.Encode.Accept.{empty_list}
use websocket_c.Http.{
  get, HttpResponse, http_message_init, http_response_init, http_response_get_header,
}
use websocket_c.Http.Headers.{get_header-found}
use websocket_c.Net.Stream.{net_read-pieces}
use websocket_c.Reader.{Reader}
use websocket_c.Reader.Concat.{Fits}
use websocket_c.System.{System, HasMemory, HasTextMemory, IsStream}

-- What the client makes of the answer, given the result of check_response_noonce.
abbrev pub verdict : (sys : System) → sys.World → Client sys → Bool → Run (Connection sys)
verdict sys w client accepted =
    if accepted
    then done (record { world = w; client = client; freed = false; ok = true })
    else abandon sys w client

take_long : (n : ℕ) (xs : List ℕ) → length xs ≤ n → take n xs ≡ xs
take_long zero [] h = refl
take_long zero (x ∷ xs) h = absurd (omega arith)
take_long (suc n) [] h = refl
take_long (suc n) (x ∷ xs) h = ap (◌∷◌ x) (take_long n xs (omega arith))

checked :
    {sys : System} (client : Client sys) (inner : Internal sys) (reader : Reader sys)
    → client.internal ≡ some inner
    → inner.reader ≡ some reader
    → ws_check_internals sys client ≡ true
checked client inner reader e f = rw (e, f) refl

module _ (sys : System) (mem : HasMemory sys) where
  keep_received-bytes :
      (w : sys.World) (out : ByteArray) (bytes rest : List ℕ)
      → length bytes < 2 ^ 63
      → (array : ByteArray) × (keep_received sys w out (bytes ++ rest) (some (length bytes))
          ≡ done (w, array, true))
        × (array.byte_data ≡ bytes)
        × (array.len ≡ length bytes)
  unfolding keep_received
  keep_received-bytes w out bytes rest small =
      let n = length bytes in
      let (fresh, granted) = mem.init_grants n small in
      let size = mem.array_laws.init_storage n fresh granted in
      let left : drop n fresh.byte_data ≡ [] =
        empty_list (drop n fresh.byte_data) (omega (arith, length-drop n fresh.byte_data, size)) in
      (
        record fresh { byte_data = bytes ++ drop n fresh.byte_data; len = n },
        rw
            (
              keep_received,
              granted,
              load_bytes-append [] bytes rest 0 n refl refl,
              store_bytes_next [] fresh.byte_data bytes 0 refl refl (omega (arith, size)),
            )
            refl,
        ap (bytes ++◌) left ∙ append-nil bytes,
        refl,
      )

  pub ws_client_recv-pieces :
      (pieces : sys.World → List (List ℕ)) (stream : IsStream sys pieces) (bufsiz : ℕ)
      (w : sys.World) (client : Client sys) (inner : Internal sys) (reader : Reader sys)
      (out : ByteArray) (bytes : List ℕ) (more : List (List ℕ))
      → client.internal ≡ some inner
      → inner.reader ≡ some reader
      → pieces w ≡ bytes ∷ more
      → bytes ≢ []
      → 0 < bufsiz
      → bufsiz < 2 ^ 31
      → length bytes ≤ bufsiz
      → (w' : sys.World) × (array : ByteArray) × (ws_client_recv sys bufsiz w client out
          ≡ done (w', array, true))
        × (array.byte_data ≡ bytes)
        × (array.len ≡ length bytes)
  unfolding ws_client_recv
  ws_client_recv-pieces pieces stream bufsiz w client inner reader out bytes more e f waiting
        some_bytes positive small fits =
      let block : List ℕ = replicate bufsiz 0 in
      let all : take bufsiz bytes ≡ bytes = take_long bufsiz bytes fits in
      let rest = drop (length (take bufsiz bytes)) block in
      let (w', ran, _) =
        net_read-pieces sys pieces stream w inner.info block bufsiz bytes more waiting some_bytes
          positive small (omega (arith, length-replicate {A = ℕ} bufsiz 0)) in
      let (array, kept, stored, len) =
        keep_received-bytes w' out (take bufsiz bytes) rest
          (let h : length (take bufsiz bytes) < 2 ^ 63 = omega (arith, ap length all) in h) in
      (
        w',
        array,
        rw (ws_client_recv, e, checked client inner reader e f, ran, kept) refl,
        stored ∙ all,
        len ∙ ap length all,
      )

module _ (sys : System) (mem : HasMemory sys) (texts : HasTextMemory sys) where
  pub response_init-empty :
      (resp : HttpResponse sys)
      → (r : HttpResponse sys) × (map : sys.headers.HashMap) × (http_response_init sys resp
          ≡ (r, true))
        × (r.message.headers ≡ some map)
        × ((k : List ℕ) → sys.headers.get map k ≡ none)
        × Fits r.message.body
  unfolding http_response_init http_message_init
  response_init-empty resp =
      let (map, made, none_yet) = texts.header_laws.create_grants 1000 in
      let (body, granted) = mem.init_grants 5 (omega arith) in
      let len = mem.array_laws.init_len 5 body granted in
      (
        record {
          message = record resp.message {
            host = none;
            path = none;
            method = get;
            port = 80;
            headers = some map;
            body = body;
          };
        },
        map,
        rw (http_response_init, http_message_init, made, granted) refl,
        refl,
        none_yet,
        (let h : Fits body = omega (arith, len) in h),
      )

  pub check_accept_header-found :
      (w : sys.World) (client : Client sys) (inner : Internal sys) (r : HttpResponse sys)
      (map : sys.headers.HashMap) (answer : List ℕ) (accepted : Bool)
      → client.internal ≡ some inner
      → r.message.headers ≡ some map
      → sys.headers.get map (text "sec-websocket-accept") ≡ some (some answer)
      → check_response_noonce sys (some inner.noonce) 16 (some answer) (length answer)
        ≡ done accepted
      → check_accept_header sys w client r ≡ verdict sys w client accepted
  unfolding check_accept_header http_response_get_header
  check_accept_header-found w client inner r map answer accepted e h found checks =
      simp
        (
          check_accept_header,
          http_response_get_header,
          get_header-found sys texts r.message map (text "sec-websocket-accept") none h refl,
          found,
          e,
          checks,
        )
        refl
