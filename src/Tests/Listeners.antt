-- ===== src/Tests/Listeners.antt =====
-- A listener on a concrete connection: a text message, a binary one, and CLOSE.
use websocket_c.Common.{
  ℕ, ◌≡◌, ◌≢◌, refl, true, false, Bool, none, some, List, [], ◌∷◌, ◌++◌, done, inl, inr, arith,
}
use websocket_c.Client.{Internal}
use websocket_c.Client.Conversation.{Talk, last_frame, next_frame, ws_client_on_msg-Talk}
use websocket_c.Client.Fragment.{ws_client_on_msg-fragment}
use websocket_c.Client.Listen.{Session, ws_client_on_msg}
use websocket_c.Reader.{Reader}
use websocket_c.Reader.Accept.{nil-IsReady}
use websocket_c.Reader.Deliver.{Sent, sent_wire}
use websocket_c.Reader.Sequence.{Waiting}
use websocket_c.Net.{net_close}
use websocket_c.Reader.Inbox.{Piece, message_piece}
use websocket_c.System.{Message}
use websocket_c.Tests.Fixtures.{key, hello}
use websocket_c.Tests.Plain.{
  Bytes, waiting_bytes, waiting_pieces, plain_system, plain-HasMemory, plain-IsStream,
}

abbrev log : List Piece → Piece → List Piece
log pieces p = pieces ++ p ∷ []

abbrev recorder :
    Session plain_system (List Piece) → Message → Session plain_system (List Piece) × Bool
recorder s m = (record s { context = log s.context (message_piece m) }, true)

abbrev fresh : Reader plain_system
fresh = record { frame_queue = []; msg_queue = []; is_open = true }

abbrev inner : Internal plain_system
inner = record {
  reader = some fresh;
  info = record { socket = 3; ssl = some 1 };
  noonce = [];
  loop_flag = false;
}

abbrev first : Sent
first = record { codes = 129; mask = false; key = 0 ∷ 0 ∷ 0 ∷ 0 ∷ []; payload = hello }

abbrev second : Sent
second = record { codes = 130; mask = true; key = key; payload = 9 ∷ [] }

abbrev closing : Sent
closing = record { codes = 136; mask = false; key = 0 ∷ 0 ∷ 0 ∷ 0 ∷ []; payload = 3 ∷ 232 ∷ [] }

abbrev three : List Sent
three = first ∷ second ∷ closing ∷ []

three-Talk : Talk three
three-Talk =
    next_frame (record { key_size = refl; has_body = omega arith; size_limit = omega arith })
      (inl refl)
      (next_frame (record { key_size = refl; has_body = omega arith; size_limit = omega arith })
        (inr refl)
        (last_frame (record { key_size = refl; has_body = omega arith; size_limit = omega arith })
          refl))

-- The first two frames come in one piece, CLOSE in the next.
abbrev in_two : List (List ℕ)
in_two = (sent_wire first ++ sent_wire second) ∷ (sent_wire closing ++ 7 ∷ []) ∷ []

three-Waiting : Waiting three in_two ((7 ∷ []) ∷ [])
three-Waiting = (
  sent_wire second,
  (sent_wire closing ++ 7 ∷ []) ∷ [],
  refl,
  ([], (sent_wire closing ++ 7 ∷ []) ∷ [], refl, (7 ∷ [], [], refl, refl)),
)

abbrev session : Session plain_system (List Piece)
session = record {
  world = waiting_pieces in_two;
  client = record {
    internal = some inner;
    path = none;
    host = some (97 ∷ []);
    port = 80;
    version = 13;
    use_tls = false;
  };
  context = [];
}

ws_client_on_msg-Talk_example :
    (left : Session plain_system (List Piece)) × (w' : Bytes) × (ws_client_on_msg plain_system
        recorder 5 session
      ≡ done (left, true))
    × (left.context ≡ (1, hello) ∷ (2, 9 ∷ []) ∷ [])
    × (w'.waiting ≡ (7 ∷ []) ∷ [])
    × (left.world ≡ (net_close plain_system w' (some inner.info)).0)
    × (left.client.internal ≡ none)
    × (left.client.host ≡ none)
    × (left.client.path ≡ none)
ws_client_on_msg-Talk_example =
    ws_client_on_msg-Talk plain_system plain-HasMemory (λ w. w.waiting) plain-IsStream recorder log
      (λ s m. refl) three ((7 ∷ []) ∷ []) 2 session inner fresh refl refl
      (nil-IsReady plain_system fresh refl refl) refl three-Talk three-Waiting

abbrev fragment : Sent
fragment = record { codes = 1; mask = false; key = 0 ∷ 0 ∷ 0 ∷ 0 ∷ []; payload = hello }

abbrev fragmented : Session plain_system (List Piece)
fragmented = record session { world = waiting_bytes (1 ∷ 5 ∷ hello ++ 128 ∷ 0 ∷ []) }

ws_client_on_msg-fragment_example :
    (left : Session plain_system (List Piece)) × (ws_client_on_msg plain_system recorder 4
        fragmented
      ≡ done (left, true))
    × (left.context ≡ [])
    × (left.world.waiting ≡ (128 ∷ 0 ∷ []) ∷ [])
    × (left.client.internal ≢ none)
ws_client_on_msg-fragment_example =
    ws_client_on_msg-fragment plain_system plain-HasMemory (λ w. w.waiting) plain-IsStream recorder
      fragment (128 ∷ 0 ∷ []) [] 3 fragmented inner fresh refl refl
      (nil-IsReady plain_system fresh refl refl) refl
      (record { key_size = refl; has_body = omega arith; size_limit = omega arith }) (omega arith)
      refl
