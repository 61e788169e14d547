-- ===== src/Reader/Concat.antt =====
-- `construct_msg_from_frames` puts the queued frames together, for frames whose length is within
-- their block.
use websocket_c.Common.{
  ℕ, zero, suc, ◌+◌, ◌≤◌, ◌<◌, ◌≡◌, refl, sym, ap, ◌∙◌, some, List, [], ◌∷◌, ◌++◌, append-nil,
  append_assoc, map, length, take, drop, get_or, done, load-get_or, arith,
}
use websocket_c.Cstd.{ByteArray, contents}
use websocket_c.Frame.{Frame, opcode_value}
use websocket_c.Reader.{insert_loop, add_type, concat_loop}
use websocket_c.Reader.Inbox.{pieces_type, pieces_body, frame_piece}
use websocket_c.System.{System, Message, HasMemory}

-- The length is within the block.
abbrev pub Fits : ByteArray → Type 0
Fits a = a.len ≤ length a.byte_data

pub data AllFit : List Frame → Type 0 where
  nil : AllFit []
  cons : {f : Frame} {fs : List Frame} → Fits f.payload → AllFit fs → AllFit (f ∷ fs)

pub drop-get_or :
    (bytes : List ℕ) (i left : ℕ)
    → i < length bytes
    → take (suc left) (drop i bytes) ≡ get_or bytes i 0 ∷ take left (drop (suc i) bytes)
drop-get_or [] i left h = absurd (omega arith)
drop-get_or (x ∷ bytes) zero left h = refl
drop-get_or (x ∷ bytes) (suc i) left h = drop-get_or bytes i left (omega arith)

module _ (sys : System) (mem : HasMemory sys) where
  pub insert_loop-append :
      (bytes : List ℕ) (left i : ℕ) (body : ByteArray)
      → i + left ≤ length bytes
      → Fits body
      → (b : ByteArray) × (insert_loop sys bytes left i body ≡ done (some b))
        × Fits b
        × (contents b ≡ contents body ++ take left (drop i bytes))
  unfolding insert_loop
  insert_loop-append bytes zero i body h fits = (body, refl, fits, sym (append-nil (contents body)))
  insert_loop-append bytes (suc left) i body h fits =
      let x = get_or bytes i 0 in
      let (longer, granted) = mem.insert_grants body x in
      let laws = mem.array_laws in
      let (b, ran, fits', holds) =
        insert_loop-append bytes left (i + 1) longer (omega arith)
          (laws.insert_fits body longer x granted fits) in
      (
        b,
        rw (load-get_or bytes i (omega arith), granted) ran,
        fits',
        holds
            ∙ ap (◌++ take left (drop (i + 1) bytes))
                (laws.insert_contents body longer x granted fits)
            ∙ append_assoc (contents body) (x ∷ []) (take left (drop (i + 1) bytes))
            ∙ ap (contents body ++◌) (
                ap (λ (j : ℕ). get_or bytes i 0 ∷ take left (drop j bytes))
                  (let e : i + 1 ≡ suc i = omega arith in e)
                ∙ sym (drop-get_or bytes i left (omega arith))),
      )

  pub concat_loop-pieces :
      (frames : List Frame) (queue : sys.frames.Queue) (msg : Message)
      → sys.frames.items queue ≡ frames
      → AllFit frames
      → Fits msg.body
      → (queue' : sys.frames.Queue) × (whole : Message) × (concat_loop sys (length frames) queue msg
          ≡ done (queue', some whole))
        × (sys.frames.items queue' ≡ [])
        × (whole.type ≡ pieces_type msg.type (map frame_piece frames))
        × (contents whole.body ≡ contents msg.body ++ pieces_body (map frame_piece frames))
  unfolding concat_loop add_type opcode_value
  concat_loop-pieces [] queue msg e nil fits =
      (queue, msg, refl, e, refl, sym (append-nil (contents msg.body)))
  concat_loop-pieces (f ∷ frames) queue msg e (cons fit fit') fits =
      let (next, popped, left) = mem.frame_laws.pop_items queue f frames e in
      let (body, ran, fits', holds) =
        insert_loop-append f.payload.byte_data f.payload.len 0 msg.body (omega arith) fits in
      let added : Message = record { type = add_type msg.type f; body = body } in
      let (queue', whole, ran', empty, type', holds') =
        concat_loop-pieces frames next added left fit' fits' in
      (
        queue',
        whole,
        rw (popped, ran) ran',
        empty,
        type',
        holds'
            ∙ ap (◌++ pieces_body (map frame_piece frames)) holds
            ∙ append_assoc (contents msg.body) (contents f.payload)
                (pieces_body (map frame_piece frames)),
      )
