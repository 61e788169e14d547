-- ===== src/Reader.antt =====
-- src/reader.c and headers/reader.h: frames from a connection, put together to messages.
-- The release of memory is not part of the state; a pointer handed on counts as its contents.
pub mod Handle
pub mod Inbox
pub mod Concat
pub mod Accept
pub mod Stream
pub mod Deliver
pub mod Sequence
pub mod Errors
pub mod Oversized
use websocket_c.Common.{
  ℕ, zero, suc, ◌+◌, Bool, true, false, Option, none, some, List, [], ◌∷◌, ◌==◌, if◌then◌else◌, Run,
  done, ◌>>=◌, load,
}
use websocket_c.Cstd.{ByteArray, null_array}
use websocket_c.Frame.{Frame, Opcode, opcode_value, cont, flags_opcode}
use websocket_c.System.{System, Message}

-- struct ws_reader_t
pub record Reader (sys : System) : Type 0 where
  pub frame_queue : sys.frames.Queue
  pub msg_queue : sys.messages.Queue
  pub is_open : Bool

-- if (frame->codes.flags.opcode != OPCODE_CONT) msg->type = frame->codes.flags.opcode
unfoldable pub add_type : ℕ → Frame → ℕ
add_type type frame = if flags_opcode frame == opcode_value cont then type else flags_opcode frame

module _ (sys : System) where
  abbrev type_cont : ℕ
  type_cont = 0

  unfoldable pub ws_message_init : Message → Option Message
  ws_message_init msg = elim (sys.arrays.init 1) [
    | none ↦ none
    | some body ↦ some (record { type = type_cont; body = body })
  ]

  unfoldable pub ws_message_free : Message → Message
  ws_message_free msg = elim msg.body.byte_data [
    | [] ↦ msg
    | x ∷ rest ↦ record msg { body = sys.arrays.free msg.body }
  ]

  unfoldable pub ws_reader_create : Reader sys
  ws_reader_create = record {
    frame_queue = sys.frames.create;
    msg_queue = sys.messages.create;
    is_open = true;
  }

  -- for (size_t i = 0; i < frame->payload.len; ++i), with the rounds left; `none` is a failed
  -- insertion
  unfoldable pub insert_loop : List ℕ → ℕ → ℕ → ByteArray → Run (Option ByteArray)
  insert_loop bytes zero i body = done (some body)
  insert_loop bytes (suc left) i body = do
    b ← load bytes i
    elim (sys.arrays.insert body b) [
      | none ↦ done none
      | some longer ↦ insert_loop bytes left (i + 1) longer
    ]

  -- for (; frame_count > 0; --frame_count); `none` is a return from the middle of the loop
  unfoldable pub concat_loop :
      ℕ → sys.frames.Queue → Message → Run (sys.frames.Queue × Option Message)
  unfolding insert_loop add_type
  concat_loop zero queue msg = done (queue, some msg)
  concat_loop (suc count) queue msg = elim (sys.frames.pop queue) [
    | none ↦ done (queue, none)
    | some popped ↦ (do
      added ← insert_loop popped.0.payload.byte_data popped.0.payload.len 0 msg.body
      elim added [
        | none ↦ done (popped.1, none)
        | some body ↦
            concat_loop count popped.1 (record { type = add_type msg.type popped.0; body = body })
      ])
  ]

  unfoldable pub push_message : Reader sys → Message → Option (Reader sys)
  push_message reader msg = elim (sys.messages.push reader.msg_queue msg) [
    | none ↦ none
    | some queue ↦ some (record reader { msg_queue = queue })
  ]

  -- The reader when the message cannot be pushed keeps the queues as they are.
  abbrev pub or_unchanged : Reader sys → Option (Reader sys) → Reader sys
  or_unchanged reader none = reader
  or_unchanged reader (some pushed) = pushed

  -- The message structure before ws_message_init.
  abbrev raw_message : Message
  raw_message = record { type = 0; body = null_array }

  unfoldable pub construct_msg_from_frames : Reader sys → Run (Reader sys)
  unfolding ws_message_init concat_loop push_message
  construct_msg_from_frames reader =
      if reader.is_open
      then elim (ws_message_init raw_message) [
        | none ↦ done reader
        | some msg ↦ (do
          (queue, built) ← concat_loop (sys.frames.len reader.frame_queue) reader.frame_queue msg
          let popped = record reader { frame_queue = queue }
          elim built [
            | none ↦ done popped
            | some whole ↦ done (or_unchanged popped (push_message popped whole))
          ])
      ]
      else done reader

  -- `none` is the result NULL. In a closed reader the queues are not touched.
  unfoldable pub ws_reader_next_msg : Reader sys → Reader sys × Option Message
  ws_reader_next_msg reader =
      if reader.is_open
      then elim (sys.messages.pop reader.msg_queue) [
        | none ↦ (reader, none)
        | some popped ↦ (record reader { msg_queue = popped.1 }, some popped.0)
      ]
      else (reader, none)

  -- The value of the pointer afterwards; the two queues are destroyed with it.
  unfoldable pub ws_reader_destroy : Option (Reader sys) → Option (Reader sys)
  ws_reader_destroy reader = none
