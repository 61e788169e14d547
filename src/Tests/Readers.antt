-- ===== src/Tests/Readers.antt =====
-- Reading of concrete frames from a connection.
use websocket_c.Common.{
  ℕ, ◌-◌, ◌^◌, ◌≡◌, refl, true, false, some, List, [], ◌∷◌, ◌++◌, arith, done, fault,
}
use websocket_c.Net.{NetInfo}
use websocket_c.Protocol.Wire.{header}
use websocket_c.Reader.{Reader}
use websocket_c.Reader.Accept.{IsReady, nil-IsReady}
use websocket_c.Reader.Deliver.{Sent, IsSent, sent_wire}
use websocket_c.Reader.Errors.{
  ws_reader_handle-empty, ws_reader_handle-partial, ws_reader_handle-wrapped,
}
use websocket_c.Reader.Oversized.{ws_reader_handle-oversized}
use websocket_c.Reader.Handle.{ws_reader_handle}
use websocket_c.Reader.Inbox.{view}
use websocket_c.Reader.Sequence.{
  Calls, none_left, next_sent, Waiting, accept_all, ws_reader_handle-accept_all,
}
use websocket_c.Tests.Fixtures.{key, hello}
use websocket_c.Tests.Plain.{
  waiting_bytes, waiting_pieces, Bytes, plain_system, plain-HasMemory, plain-IsStream,
}

abbrev info : NetInfo
info = record { socket = 3; ssl = some 1 }

abbrev fresh : Reader plain_system
fresh = record { frame_queue = []; msg_queue = []; is_open = true }

fresh-IsReady : IsReady plain_system fresh
fresh-IsReady = nil-IsReady plain_system fresh refl refl

abbrev world : List ℕ → Bytes
world bytes = waiting_bytes bytes

-- A text message in two fragments, and a PING between them.
abbrev first : Sent
first = record { codes = 1; mask = false; key = 0 ∷ 0 ∷ 0 ∷ 0 ∷ []; payload = 72 ∷ 101 ∷ [] }

abbrev ping : Sent
ping = record { codes = 137; mask = true; key = key; payload = [] }

abbrev last : Sent
last = record { codes = 128; mask = true; key = key; payload = 108 ∷ 108 ∷ 111 ∷ [] }

first-IsSent : IsSent first
first-IsSent = record { key_size = refl; has_body = omega arith; size_limit = omega arith }

ping-IsSent : IsSent ping
ping-IsSent = record { key_size = refl; has_body = omega arith; size_limit = omega arith }

last-IsSent : IsSent last
last-IsSent = record { key_size = refl; has_body = omega arith; size_limit = omega arith }

abbrev three : List Sent
three = first ∷ ping ∷ last ∷ []

three_join :
    accept_all (record { fragments = []; messages = [] }) three
    ≡ record { fragments = []; messages = (9, []) ∷ (1, hello) ∷ [] }
three_join = refl

-- The first two frames are in one piece, the last one begins the next.
abbrev in_two : List (List ℕ)
in_two = (sent_wire first ++ sent_wire ping) ∷ (sent_wire last ++ 7 ∷ []) ∷ (8 ∷ []) ∷ []

abbrev after_three : List (List ℕ)
after_three = (7 ∷ []) ∷ (8 ∷ []) ∷ []

three-Waiting : Waiting three in_two after_three
three-Waiting = (
  sent_wire ping,
  (sent_wire last ++ 7 ∷ []) ∷ (8 ∷ []) ∷ [],
  refl,
  ([], (sent_wire last ++ 7 ∷ []) ∷ (8 ∷ []) ∷ [], refl, (7 ∷ [], (8 ∷ []) ∷ [], refl, refl)),
)

ws_reader_handle-accept_all_example :
    (w' : Bytes) × (reader' : Reader plain_system) × Calls plain_system info 3
      (waiting_pieces in_two)
      fresh
      w'
      reader'
    × (w'.waiting ≡ after_three)
    × IsReady plain_system reader'
    × (view plain_system reader' ≡ accept_all (view plain_system fresh) three)
ws_reader_handle-accept_all_example =
    ws_reader_handle-accept_all plain_system plain-HasMemory (λ w. w.waiting) plain-IsStream
      (waiting_pieces in_two) fresh info three after_three fresh-IsReady
      (next_sent first-IsSent (next_sent ping-IsSent (next_sent last-IsSent none_left)))
      three-Waiting

ws_reader_handle-empty_example :
    (w' : Bytes) × (ws_reader_handle plain_system (world (137 ∷ 0 ∷ 5 ∷ [])) fresh (some info)
      ≡ done (w', fresh, false))
    × (w'.waiting ≡ (5 ∷ []) ∷ [])
ws_reader_handle-empty_example =
    ws_reader_handle-empty plain_system plain-HasMemory (λ w. w.waiting) plain-IsStream
      (world (137 ∷ 0 ∷ 5 ∷ [])) fresh info 137 (5 ∷ []) [] refl

-- The rest of the frame is in the next piece.
abbrev cut : Bytes
cut = waiting_pieces ((129 ∷ 5 ∷ 72 ∷ 101 ∷ []) ∷ (108 ∷ 108 ∷ 111 ∷ []) ∷ [])

ws_reader_handle-partial_example :
    (w' : Bytes) × (ws_reader_handle plain_system cut fresh (some info) ≡ done (w', fresh, false))
    × (w'.waiting ≡ (108 ∷ 108 ∷ 111 ∷ []) ∷ [])
ws_reader_handle-partial_example =
    ws_reader_handle-partial plain_system plain-HasMemory (λ w. w.waiting) plain-IsStream cut fresh
      info 129 false key hello (72 ∷ 101 ∷ []) ((108 ∷ 108 ∷ 111 ∷ []) ∷ []) refl (omega arith) refl
      (omega arith)

-- A CLOSE frame that announces 2 ^ 31 bytes.
abbrev huge : Bytes
huge = world (header 136 false (2 ^ 31) ++ 3 ∷ [])

ws_reader_handle-oversized_example :
    (w' : Bytes) × (reader' : Reader plain_system) × (ws_reader_handle plain_system huge fresh
        (some info)
      ≡ done (w', reader', true))
    × (w'.waiting ≡ huge.waiting)
    × (view plain_system reader' ≡ record { fragments = []; messages = (8, []) ∷ [] })
ws_reader_handle-oversized_example =
    ws_reader_handle-oversized plain_system plain-HasMemory (λ w. w.waiting) plain-IsStream
      (λ w ssl n. (refl, refl)) huge fresh info 1 136 false (2 ^ 31) (3 ∷ []) [] fresh-IsReady refl
      (omega arith) (omega arith) refl

ws_reader_handle-wrapped_example :
    ws_reader_handle plain_system (world (header 130 true (2 ^ 64 - 12))) fresh (some info) ≡ fault
ws_reader_handle-wrapped_example =
    ws_reader_handle-wrapped plain_system plain-HasMemory (λ w. w.waiting) plain-IsStream
      (world (header 130 true (2 ^ 64 - 12))) fresh info 130 [] [] refl
