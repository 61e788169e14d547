-- ===== src/Client/Fragment.antt =====
-- `ws_client_on_msg` on the first fragment of a message.
use websocket_c.Common.{
  ℕ, suc, ◌/◌, ◌%◌, ◌<◌, ◌≡◌, ◌≢◌, refl, ap, ◌∙◌, Bool, true, false, Option, none, some, List, [],
  ◌∷◌, ◌++◌, map, length, ◌==◌, arith, done,
}
use websocket_c.Client.{Internal, ws_client_next_msg}
use websocket_c.Client.Listen.{Session, leave, round, listen_loop, ws_client_on_msg}
use websocket_c.Client.Received.{empty_inbox, with_reader}
use websocket_c.Reader.{Reader, ws_reader_next_msg}
use websocket_c.Reader.Accept.{IsReady}
use websocket_c.Reader.Deliver.{Sent, IsSent, sent_wire, ws_reader_handle-accept}
use websocket_c.Reader.Handle.{ws_reader_handle}
use websocket_c.Reader.Inbox.{Inbox, accept, message_piece, view}
use websocket_c.System.{System, Message, HasMemory, IsStream, left_of}

abbrev connections : {sys : System} → Option (Internal sys) → ℕ
connections none = 0
connections (some inner) = 1

none_queued : (msgs : List Message) → map message_piece msgs ≡ [] → msgs ≡ []
none_queued [] e = refl
none_queued (m ∷ msgs) e = absurd (omega (arith, ap length e))

no_message :
    (codes : ℕ) (payload : List ℕ) → codes < 128 → (accept empty_inbox codes payload).messages ≡ []
no_message codes payload h =
    let more : (codes / 128 % 2 == 1) ≡ false = ground arith in rw more refl

module _ (sys : System) (mem : HasMemory sys) where
  next_msg-nothing :
      (reader : Reader sys)
      → IsReady sys reader
      → (view sys reader).messages ≡ []
      → ws_reader_next_msg sys reader ≡ (reader, none)
  unfolding ws_reader_next_msg
  next_msg-nothing reader ready seen =
      rw
        (
          ready.open_flag,
          mem.message_laws.pop_empty reader.msg_queue
              (none_queued (sys.messages.items reader.msg_queue) seen),
        )
        (λ i. (record reader { is_open = ready.open_flag i }, none))

  round-nothing :
      {Context : Type 0} (cb : Session sys Context → Message → Session sys Context × Bool)
      (s : Session sys Context) (inner : Internal sys) (reader : Reader sys) {w' : sys.World}
      {handled : Reader sys}
      → s.client.internal ≡ some inner
      → inner.reader ≡ some reader
      → ws_reader_handle sys s.world reader (some inner.info) ≡ done (w', handled, true)
      → ws_reader_next_msg sys handled ≡ (handled, none)
      → round sys cb s
        ≡ done
            (leave false (record s { world = w'; client = with_reader sys s.client inner handled }))
  unfolding round ws_client_next_msg
  round-nothing cb s inner reader {w' = w'} i r h n =
      rw (i, r, h, n)
        (λ j.
          done (
            leave false (record s { world = w'; client = with_reader sys s.client inner (n j).0 })))

  -- A connected client with an open reader and nothing queued, a frame without FIN that has a body
  -- at the start of what one receive can give, with anything behind it, memory enough, any callback
  -- and at least one round: `ws_client_on_msg` returns true after this frame, without a call of the
  -- callback, with what is behind the frame unread and the client still connected.
  pub ws_client_on_msg-fragment :
      (pieces : sys.World → List (List ℕ)) (stream : IsStream sys pieces) {Context : Type 0}
      (cb : Session sys Context → Message → Session sys Context × Bool) (f : Sent) (rest : List ℕ)
      (more : List (List ℕ)) (extra : ℕ) (s : Session sys Context) (inner : Internal sys)
      (reader : Reader sys)
      → s.client.internal ≡ some inner
      → inner.reader ≡ some reader
      → IsReady sys reader
      → view sys reader ≡ empty_inbox
      → IsSent f
      → f.codes < 128
      → pieces s.world ≡ (sent_wire f ++ rest) ∷ more
      → (left : Session sys Context) × (ws_client_on_msg sys cb (suc extra) s ≡ done (left, true))
        × (left.context ≡ s.context)
        × (pieces left.world ≡ left_of rest more)
        × (left.client.internal ≢ none)
  unfolding ws_client_on_msg listen_loop
  ws_client_on_msg-fragment pieces stream cb f rest more extra s inner reader i r ready idle sent
        unfinished e =
      let flagged = record inner { loop_flag = true } in
      let started : Session sys _ = record s {
        client = record s.client { internal = some flagged };
      } in
      let (w', handled, ran, left, ready', seen) =
        ws_reader_handle-accept sys mem pieces stream s.world reader inner.info f rest more ready
          sent e in
      let nothing = next_msg-nothing handled ready' (
        ap (λ (b : Inbox). b.messages) (seen ∙ ap (λ (b : Inbox). accept b f.codes f.payload) idle)
        ∙ no_message f.codes f.payload unfinished) in
      (
        record started { world = w'; client = with_reader sys started.client flagged handled },
        rw (i, listen_loop, round-nothing cb started flagged reader refl r ran nothing) refl,
        refl,
        left,
        λ z. absurd (omega (arith, ap connections z)),
      )
