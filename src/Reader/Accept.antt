-- ===== src/Reader/Accept.antt =====
-- `accept_frame` does to the queues what `accept` does to the inbox.
use websocket_c.Common.{
  ℕ, ◌≡◌, refl, ap, ap₂, ◌∙◌, true, List, [], ◌∷◌, ◌++◌, map, take, leb, done, Bool-cases, arith,
}
use mathlib.Core.Logic.{inl, inr}
use mathlib.Core.Path.{subst}
use websocket_c.Cstd.{contents}
use websocket_c.Frame.{Frame, flags_opcode, flags_fin, opcode_value}
use websocket_c.Reader.{Reader, ws_message_init, push_message, construct_msg_from_frames}
use websocket_c.Reader.Concat.{Fits, AllFit, nil, cons, concat_loop-pieces}
use websocket_c.Reader.Handle.{message_of, push_control, push_frame, accept_frame}
use websocket_c.Reader.Inbox.{Piece, pieces_body, join, accept, frame_piece, message_piece, view}
use websocket_c.System.{System, Message, HasMemory}

-- Open, and every queued frame's length is within its block.
pub record IsReady (sys : System) (reader : Reader sys) : Type 0 where
  pub open_flag : reader.is_open ≡ true
  pub all_fit : AllFit (sys.frames.items reader.frame_queue)

-- An open reader without queued frames.
pub nil-IsReady :
    (sys : System) (reader : Reader sys)
    → reader.is_open ≡ true
    → sys.frames.items reader.frame_queue ≡ []
    → IsReady sys reader
nil-IsReady sys reader e empty = record { open_flag = e; all_fit = rw empty nil }

AllFit-append : (fs : List Frame) (f : Frame) → AllFit fs → Fits f.payload → AllFit (fs ++ f ∷ [])
AllFit-append [] f nil h = cons h nil
AllFit-append (g ∷ fs) f (cons h hs) h' = cons h (AllFit-append fs f hs h')

map_append : {A B : Type 0} (g : A → B) (xs ys : List A) → map g (xs ++ ys) ≡ map g xs ++ map g ys
map_append g [] ys = refl
map_append g (x ∷ xs) ys = ap (g x ∷◌) (map_append g xs ys)

module _ (sys : System) (mem : HasMemory sys) where
  pub push_control-accepted :
      (reader : Reader sys) (msg : Message)
      → IsReady sys reader
      → (reader' : Reader sys) × (push_control sys reader msg ≡ (reader', true))
        × IsReady sys reader'
        × (view sys reader' ≡ record (view sys reader) {
          messages =
              map message_piece (sys.messages.items reader.msg_queue) ++ message_piece msg ∷ [];
        })
  unfolding push_control push_message
  push_control-accepted reader msg ready =
      let (q, granted) = mem.push_message reader.msg_queue msg in
      (
        record reader { msg_queue = q; is_open = true },
        rw (ready.open_flag, granted)
            (λ i. (record reader { msg_queue = q; is_open = ready.open_flag i }, true)),
        record { open_flag = refl; all_fit = ready.all_fit },
        ap (λ (t : List Piece). record (view sys reader) { messages = t })
            (ap (map message_piece) (mem.message_laws.push_items reader.msg_queue q msg granted)
              ∙ map_append message_piece (sys.messages.items reader.msg_queue) (msg ∷ [])),
      )

  push_frame-accepted :
      (reader : Reader sys) (frame : Frame)
      → IsReady sys reader
      → Fits frame.payload
      → (reader' : Reader sys) × (push_frame sys reader frame ≡ (reader', true))
        × IsReady sys reader'
        × (reader'.msg_queue ≡ reader.msg_queue)
        × (sys.frames.items reader'.frame_queue ≡ sys.frames.items reader.frame_queue ++ frame ∷ [])
  unfolding push_frame
  push_frame-accepted reader frame ready fits =
      let (q, granted) = mem.push_frame reader.frame_queue frame in
      let items = mem.frame_laws.push_items reader.frame_queue q frame granted in
      (
        record reader { frame_queue = q; is_open = true },
        rw (ready.open_flag, granted)
            (λ i. (record reader { frame_queue = q; is_open = ready.open_flag i }, true)),
        record {
          open_flag = refl;
          all_fit =
              rw items
                (AllFit-append (sys.frames.items reader.frame_queue) frame ready.all_fit fits);
        },
        refl,
        items,
      )

  construct_msg-joined :
      (reader : Reader sys) (frames : List Frame)
      → sys.frames.items reader.frame_queue ≡ frames
      → IsReady sys reader
      → (reader' : Reader sys) × (construct_msg_from_frames sys reader ≡ done reader')
        × IsReady sys reader'
        × (sys.frames.items reader'.frame_queue ≡ [])
        × (map message_piece (sys.messages.items reader'.msg_queue)
            ≡ map message_piece (sys.messages.items reader.msg_queue)
              ++ join (map frame_piece frames) ∷ [])
  unfolding construct_msg_from_frames ws_message_init push_message
  construct_msg-joined reader frames e ready =
      let (body, granted) = mem.init_grants 1 (omega arith) in
      let laws = mem.array_laws in
      let empty : body.len ≡ 0 = laws.init_len 1 body granted in
      let msg : Message = record { type = 0; body = body } in
      let (q, whole, ran, no_frames, type', holds) =
        concat_loop-pieces sys mem frames reader.frame_queue msg e (subst AllFit e ready.all_fit)
          (omega (arith, empty)) in
      let (mq, pushed) = mem.push_message reader.msg_queue whole in
      (
        record { frame_queue = q; msg_queue = mq; is_open = true },
        rw
            (
              ready.open_flag,
              granted,
              mem.frame_laws.len_items reader.frame_queue,
              e,
              ran,
              push_message,
              pushed,
            )
            (λ i. done (record { frame_queue = q; msg_queue = mq; is_open = ready.open_flag i })),
        record { open_flag = refl; all_fit = rw no_frames nil },
        no_frames,
        ap (map message_piece) (mem.message_laws.push_items reader.msg_queue mq whole pushed)
            ∙ map_append message_piece (sys.messages.items reader.msg_queue) (whole ∷ [])
            ∙ ap (λ (p : Piece). map message_piece (sys.messages.items reader.msg_queue) ++ p ∷ [])
                (λ i. (
                  type' i,
                  (holds
                        ∙ ap
                            (λ (n : ℕ).
                              take n body.byte_data ++ pieces_body (map frame_piece frames))
                            empty)
                      i,
                )),
      )

  -- An open reader whose frames' lengths are within their blocks, memory enough and a frame read
  -- whole: `accept_frame` returns true, and the inbox afterwards is the one that `accept` says.
  -- So a control frame becomes a message at once, without a change of the fragments, a frame
  -- without FIN joins the fragments, and one with FIN makes one message of them all.
  pub accept_frame-accept :
      (reader : Reader sys) (frame : Frame)
      → IsReady sys reader
      → Fits frame.payload
      → (reader' : Reader sys) × (accept_frame sys reader frame ≡ done (reader', true))
        × IsReady sys reader'
        × (view sys reader' ≡ accept (view sys reader) frame.codes (contents frame.payload))
  unfolding accept_frame opcode_value
  accept_frame-accept reader frame ready fits =
      let queued = sys.frames.items reader.frame_queue in
      let (pushed, push, ready', same, items) = push_frame-accepted reader frame ready fits in
      let pieces = ap (map frame_piece) items ∙ map_append frame_piece queued (frame ∷ []) in
      elim (Bool-cases (flags_fin frame)) [
        | inl fin ↦ elim (Bool-cases (leb 8 (flags_opcode frame))) [
          | inl control ↦
              let (r, ran, ready'', seen) = push_control-accepted reader (message_of frame) ready in
              (r, rw (fin, control, ran) refl, ready'', rw (fin, control) seen)
          | inr plain ↦
              let (r, ran, ready'', empty, msgs) =
                construct_msg-joined pushed (queued ++ frame ∷ []) items ready' in
              (
                r,
                rw (fin, plain, push, ran) refl,
                ready'',
                rw (fin, plain)
                    (λ i. record {
                      fragments = map frame_piece (empty i);
                      messages =
                          (msgs
                              ∙ ap₂
                                  (λ (q : sys.messages.Queue) (ps : List Piece).
                                    map message_piece (sys.messages.items q) ++ join ps ∷ [])
                                  same (map_append frame_piece queued (frame ∷ [])))
                            i;
                    }),
              )
        ]
        | inr more ↦ (
          pushed,
          rw (more, push) refl,
          ready',
          rw more (λ i. record {
            fragments = pieces i;
            messages = map message_piece (sys.messages.items (same i));
          }),
        )
      ]
