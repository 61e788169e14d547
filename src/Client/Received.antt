-- ===== src/Client/Received.antt =====
-- `ws_client_next_msg` on a connection where a frame is waiting that is a whole message.
use websocket_c.Common.{
  ℕ, ◌≡◌, refl, ap, ◌∙◌, true, Option, none, some, List, [], ◌∷◌, ◌++◌, map, length, arith, done,
}
use websocket_c.Client.{Internal, Client, ws_client_next_msg}
use websocket_c.Reader.{Reader, ws_reader_next_msg}
use websocket_c.Reader.Accept.{IsReady}
use websocket_c.Reader.Deliver.{Sent, IsSent, sent_wire, ws_reader_handle-accept}
use websocket_c.Reader.Handle.{ws_reader_handle}
use websocket_c.Reader.Inbox.{Inbox, Piece, accept, message_piece, view}
use websocket_c.System.{System, Message, HasMemory, IsStream, left_of}

abbrev pub empty_inbox : Inbox
empty_inbox = record { fragments = []; messages = [] }

abbrev pub one_message : Piece → Inbox
one_message p = record { fragments = []; messages = p ∷ [] }

-- The head and the tail of a list of one piece.
abbrev first_of : Piece → List Piece → Piece
first_of d [] = d
first_of d (p ∷ ps) = p

abbrev rest_of : List Piece → List Piece
rest_of [] = []
rest_of (p ∷ ps) = ps

one_queued :
    (msgs : List Message) (p : Piece)
    → map message_piece msgs ≡ p ∷ []
    → (m : Message) × (left : List Message) × (msgs ≡ m ∷ left)
      × (message_piece m ≡ p)
      × (map message_piece left ≡ [])
one_queued [] p e = absurd (omega (arith, ap length e))
one_queued (m ∷ msgs) p e = (m, msgs, refl, ap (first_of p) e, ap rest_of e)

abbrev pub with_reader : (sys : System) → Client sys → Internal sys → Reader sys → Client sys
with_reader sys client inner reader = record client {
  internal = some (record inner { reader = some reader });
}

module _ (sys : System) (mem : HasMemory sys) where
  next_msg-queued :
      (reader : Reader sys) (p : Piece)
      → IsReady sys reader
      → view sys reader ≡ one_message p
      → (reader' : Reader sys) × (m : Message) × (ws_reader_next_msg sys reader ≡ (reader', some m))
        × (message_piece m ≡ p)
        × IsReady sys reader'
        × (view sys reader' ≡ empty_inbox)
  unfolding ws_reader_next_msg
  next_msg-queued reader p ready seen =
      let (m, left, items, piece, none_left) =
        one_queued (sys.messages.items reader.msg_queue) p (ap (λ (b : Inbox). b.messages) seen) in
      let (q, popped, rest) = mem.message_laws.pop_items reader.msg_queue m left items in
      (
        record reader { msg_queue = q; is_open = true },
        m,
        rw (ready.open_flag, popped)
            (λ i. (record reader { msg_queue = q; is_open = ready.open_flag i }, some m)),
        piece,
        record { open_flag = refl; all_fit = ready.all_fit },
        (λ i. record {
          fragments = (ap (λ (b : Inbox). b.fragments) seen) i;
          messages = (ap (map message_piece) rest ∙ none_left) i;
        }),
      )

  next_msg-steps :
      (w : sys.World) (client : Client sys) (inner : Internal sys) (reader : Reader sys)
      (out : Option Message) {w' : sys.World} {handled left : Reader sys} {m : Message}
      → client.internal ≡ some inner
      → inner.reader ≡ some reader
      → ws_reader_handle sys w reader (some inner.info) ≡ done (w', handled, true)
      → ws_reader_next_msg sys handled ≡ (left, some m)
      → ws_client_next_msg sys w client out
        ≡ done (w', with_reader sys client inner left, some m, true)
  unfolding ws_client_next_msg
  next_msg-steps w client inner reader out i r h n = rw (i, r, h, n) refl

  pub next_msg-frame :
      (pieces : sys.World → List (List ℕ)) (stream : IsStream sys pieces) (w : sys.World)
      (client : Client sys) (inner : Internal sys) (reader : Reader sys) (f : Sent) (rest : List ℕ)
      (more : List (List ℕ)) (p : Piece)
      → client.internal ≡ some inner
      → inner.reader ≡ some reader
      → IsReady sys reader
      → view sys reader ≡ empty_inbox
      → IsSent f
      → accept empty_inbox f.codes f.payload ≡ one_message p
      → pieces w ≡ (sent_wire f ++ rest) ∷ more
      → (w' : sys.World) × (reader' : Reader sys) × (m : Message) × (ws_client_next_msg sys w client
            none
          ≡ done (w', with_reader sys client inner reader', some m, true))
        × (pieces w' ≡ left_of rest more)
        × (message_piece m ≡ p)
        × IsReady sys reader'
        × (view sys reader' ≡ empty_inbox)
  next_msg-frame pieces stream w client inner reader f rest more p i r ready seen sent whole e =
      let (w', handled, ran, left, ready', seen') =
        ws_reader_handle-accept sys mem pieces stream w reader inner.info f rest more ready sent
          e in
      let (reader', m, popped, piece, ready'', seen'') =
        next_msg-queued handled p ready'
          (seen' ∙ ap (λ (b : Inbox). accept b f.codes f.payload) seen ∙ whole) in
      (
        w',
        reader',
        m,
        next_msg-steps w client inner reader none i r ran popped,
        left,
        piece,
        ready'',
        seen'',
      )
