-- ===== src/Reader/Inbox.antt =====
-- What a reader promises: fragments of a message wait until the final one comes, and a control
-- frame passes them. The queues and the memory blocks are forgotten.
use websocket_c.Common.{ℕ, ◌/◌, ◌%◌, ◌==◌, List, [], ◌∷◌, ◌++◌, map, leb, if◌then◌else◌}
use websocket_c.Cstd.{contents}
use websocket_c.Frame.{Frame}
use websocket_c.Reader.{Reader}
use websocket_c.System.{System, Message}

-- An opcode and the bytes with it.
abbrev pub Piece : Type 0
Piece = ℕ × List ℕ

pub record Inbox : Type 0 where
  pub fragments : List Piece
  pub messages : List Piece

-- The type of a message: the opcode of its last fragment that does not continue another.
abbrev pub pieces_type : ℕ → List Piece → ℕ
pieces_type type [] = type
pieces_type type (p ∷ pieces) = pieces_type (if p.0 == 0 then type else p.0) pieces

abbrev pub pieces_body : List Piece → List ℕ
pieces_body [] = []
pieces_body (p ∷ pieces) = p.1 ++ pieces_body pieces

abbrev pub join : List Piece → Piece
join pieces = (pieces_type 0 pieces, pieces_body pieces)

-- `codes` is the first byte of the frame.
abbrev pub accept : Inbox → ℕ → List ℕ → Inbox
accept inbox codes payload =
    let piece : Piece = (codes % 16, payload) in
    if codes / 128 % 2 == 1
    then (if leb 8 (codes % 16)
        then record inbox { messages = inbox.messages ++ piece ∷ [] }
        else record {
          fragments = [];
          messages = inbox.messages ++ join (inbox.fragments ++ piece ∷ []) ∷ [];
        })
    else record inbox { fragments = inbox.fragments ++ piece ∷ [] }

abbrev pub frame_piece : Frame → Piece
frame_piece f = (f.codes % 16, contents f.payload)

abbrev pub message_piece : Message → Piece
message_piece m = (m.type, contents m.body)

abbrev pub view : (sys : System) → Reader sys → Inbox
view sys reader = record {
  fragments = map frame_piece (sys.frames.items reader.frame_queue);
  messages = map message_piece (sys.messages.items reader.msg_queue);
}
