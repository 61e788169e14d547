-- ===== src/Client/Conversation.antt =====
-- `ws_client_on_msg` from its first message to CLOSE.
use websocket_c.Common.{
  ℕ, suc, ◌+◌, ◌%◌, arith, ◌≡◌, refl, sym, ap, ◌∙◌, Bool, true, none, some, List, [], ◌∷◌,
  append-nil, done, inl, inr,
}
use mathlib.Core.Path.{subst}
use websocket_c.Net.{NetInfo, net_close}
use websocket_c.Client.{Internal}
use websocket_c.Client.Listen.{Session, listen_loop, ws_client_on_msg}
use websocket_c.Client.Received.{empty_inbox, one_message, with_reader, next_msg-frame}
use websocket_c.Client.Rounds.{
  IsWhole, round-received, dispatch-whole, dispatch-close, listen_loop-leave, listen_loop-again,
  free-closes,
}
use websocket_c.Reader.{Reader}
use websocket_c.Reader.Accept.{IsReady}
use websocket_c.Reader.Deliver.{Sent, IsSent}
use websocket_c.Reader.Inbox.{Piece, accept, message_piece, view}
use websocket_c.Reader.Sequence.{count, Waiting}
use websocket_c.System.{System, Message, HasMemory, IsStream}

-- Frames of whole messages, and a CLOSE frame behind them.
pub data Talk : List Sent → Type 0 where
  last_frame : {f : Sent} → IsSent f → f.codes ≡ 136 → Talk (f ∷ [])
  next_frame : {f : Sent} {fs : List Sent} → IsSent f → IsWhole f.codes → Talk fs → Talk (f ∷ fs)

abbrev pub sent_piece : Sent → Piece
sent_piece f = (f.codes % 16, f.payload)

accept-whole :
    (codes : ℕ) (payload : List ℕ)
    → IsWhole codes
    → accept empty_inbox codes payload ≡ one_message (codes % 16, payload)
accept-whole codes payload (inl e) =
    rw e (λ i. record { fragments = []; messages = (1, append-nil payload i) ∷ [] })
accept-whole codes payload (inr e) =
    rw e (λ i. record { fragments = []; messages = (2, append-nil payload i) ∷ [] })

accept-close :
    (codes : ℕ) (payload : List ℕ)
    → codes ≡ 136
    → accept empty_inbox codes payload ≡ one_message (codes % 16, payload)
accept-close codes payload e = rw e refl

module _ (sys : System) (mem : HasMemory sys) (pieces : sys.World → List (List ℕ))
    (stream : IsStream sys pieces) {Context : Type 0}
    (cb : Session sys Context → Message → Session sys Context × Bool)
    (note : Context → Piece → Context)
    (notes : (s : Session sys Context) (m : Message)
      → cb s m ≡ (record s { context = note s.context (message_piece m) }, true)) where
  -- What the callback's context is after the messages, the CLOSE at the end excepted.
  abbrev pub noted : Context → List Sent → Context
  noted c [] = c
  noted c (f ∷ []) = c
  noted c (f ∷ g ∷ fs) = noted (note c (sent_piece f)) (g ∷ fs)

  -- The client that the loop works on.
  record IsListening (s : Session sys Context) (inner : Internal sys) (reader : Reader sys)
      : Type 0 where
    connected : s.client.internal ≡ some inner
    reads : inner.reader ≡ some reader
    flagged : inner.loop_flag ≡ true
    ready : IsReady sys reader
    idle : view sys reader ≡ empty_inbox

  -- The loop ends at the CLOSE frame with the connection it began with, and what is behind that
  -- frame is unread.
  record IsOver (left : Session sys Context) (info : NetInfo) (behind : List (List ℕ))
      : Type 0 where
    last_inner : Internal sys
    still_connected : left.client.internal ≡ some last_inner
    same_info : last_inner.info ≡ info
    unread : pieces left.world ≡ behind

  listen_loop-Talk :
      (fs : List Sent) (behind : List (List ℕ)) (extra : ℕ) (s : Session sys Context)
      (inner : Internal sys) (reader : Reader sys)
      → IsListening s inner reader
      → Talk fs
      → Waiting fs (pieces s.world) behind
      → (left : Session sys Context) × (listen_loop sys cb (count fs + extra) s ≡ done (true, left))
        × (left.context ≡ noted s.context fs)
        × IsOver left inner.info behind
  listen_loop-Talk [] behind extra s inner reader at talk e = elim talk [ ]
  listen_loop-Talk (f ∷ []) behind extra s inner reader at (next_frame sent whole talk) e =
      elim talk [ ]
  listen_loop-Talk (f ∷ []) behind extra s inner reader at (last_frame sent closing)
        (rest, more, e, last) =
      let (w', reader', m, ran, left, piece, ready', seen) =
        next_msg-frame sys mem pieces stream s.world s.client inner reader f rest more
          (sent_piece f) at.connected at.reads at.ready at.idle sent
          (accept-close f.codes f.payload closing) e in
      let s' = record s { world = w'; client = with_reader sys s.client inner reader' } in
      (
        s',
        ap (λ (n : ℕ). listen_loop sys cb n s) (let t : 1 + extra ≡ suc extra = omega arith in t)
            ∙ listen_loop-leave sys cb note notes s s' true extra (
                round-received sys cb note notes s inner reader at.connected at.reads ran
                ∙ dispatch-close sys cb note notes s' m
                    (ap (λ (p : Piece). p.0) piece ∙ ap (λ (n : ℕ). n % 16) closing)),
        refl,
        record {
          last_inner = record inner { reader = some reader' };
          still_connected = refl;
          same_info = refl;
          unread = left ∙ last;
        },
      )
  listen_loop-Talk (f ∷ g ∷ fs) behind extra s inner reader at (next_frame sent whole talk)
        (rest, more, e, waiting) =
      let (w', reader', m, ran, left, piece, ready', seen) =
        next_msg-frame sys mem pieces stream s.world s.client inner reader f rest more
          (sent_piece f) at.connected at.reads at.ready at.idle sent
          (accept-whole f.codes f.payload whole) e in
      let inner' = record inner { reader = some reader' } in
      let s' : Session sys Context = record s {
        world = w';
        client = with_reader sys s.client inner reader';
      } in
      let next : Session sys Context = record s' { context = note s.context (message_piece m) } in
      let (end, looped, context, over) =
        listen_loop-Talk (g ∷ fs) behind extra next inner' reader'
          (record {
            connected = refl;
            reads = refl;
            flagged = at.flagged;
            ready = ready';
            idle = seen;
          })
          talk (subst (λ ps. Waiting (g ∷ fs) ps behind) (sym left) waiting) in
      (
        end,
        ap (λ (n : ℕ). listen_loop sys cb n s)
              (let t : count (f ∷ g ∷ fs) + extra ≡ suc (count (g ∷ fs) + extra) = omega arith in t)
            ∙ listen_loop-again sys cb note notes s next (count (g ∷ fs) + extra) (
                round-received sys cb note notes s inner reader at.connected at.reads ran
                ∙ dispatch-whole sys cb note notes s' inner' m f.codes refl at.flagged
                    (ap (λ (p : Piece). p.0) piece) whole)
            ∙ looped,
        context ∙ ap (λ (p : Piece). noted (note s.context p) (g ∷ fs)) piece,
        over,
      )

  -- A connected client with an open reader and nothing queued, frames of whole TEXT and BIN
  -- messages and a CLOSE frame behind them waiting on the connection, each masked or with a payload
  -- and whole in what one receive can give, memory enough, a callback that returns true and changes
  -- its own context only, and at least as many rounds as frames: `ws_client_on_msg` ends and returns
  -- true, the callback has been given each message once, in order and whole, and nothing else, the
  -- CLOSE frame is the last that is read, the connection is then closed by `net_close`, and the
  -- client is left without connection, host and path.
  pub ws_client_on_msg-Talk :
      (fs : List Sent) (behind : List (List ℕ)) (extra : ℕ) (s : Session sys Context)
      (inner : Internal sys) (reader : Reader sys)
      → s.client.internal ≡ some inner
      → inner.reader ≡ some reader
      → IsReady sys reader
      → view sys reader ≡ empty_inbox
      → Talk fs
      → Waiting fs (pieces s.world) behind
      → (left : Session sys Context) × (w' : sys.World) × (ws_client_on_msg sys cb
            (count fs + extra)
            s
          ≡ done (left, true))
        × (left.context ≡ noted s.context fs)
        × (pieces w' ≡ behind)
        × (left.world ≡ (net_close sys w' (some inner.info)).0)
        × (left.client.internal ≡ none)
        × (left.client.host ≡ none)
        × (left.client.path ≡ none)
  unfolding ws_client_on_msg
  ws_client_on_msg-Talk fs behind extra s inner reader i r ready idle talk e =
      let flagged = record inner { loop_flag = true } in
      let started : Session sys Context = record s {
        client = record s.client { internal = some flagged };
      } in
      let (left, looped, context, over) =
        listen_loop-Talk fs behind extra started flagged reader
          (record { connected = refl; reads = r; flagged = refl; ready = ready; idle = idle }) talk
          e in
      let closed =
        free-closes sys cb note notes left.world left.client over.last_inner over.still_connected in
      (
        record left {
          world = (net_close sys left.world (some inner.info)).0;
          client = record left.client { host = none; path = none; internal = none };
        },
        left.world,
        rw (i, looped, closed, over.same_info) refl,
        context,
        over.unread,
        refl,
        refl,
        refl,
        refl,
      )
