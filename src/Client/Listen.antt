-- ===== src/Client/Listen.antt =====
-- src/websocket.c: the listener loop of ws_client_on_msg.
use websocket_c.Common.{
  ℕ, zero, suc, Bool, true, false, none, some, ◌==◌, if◌then◌else◌, Run, done, fault, timeout,
  ◌>>=◌,
}
use websocket_c.Client.{Client, ws_check_internals, ws_client_next_msg, ws_client_free}
use websocket_c.Client.Write.{ws_client_write}
use websocket_c.Frame.{opcode_value, close, ping, pong, bin, text}
use websocket_c.System.{System, Message}

-- What the loop works on; `context` is what the callback keeps.
pub record Session (sys : System) (Context : Type 0) : Type 0 where
  pub world : sys.World
  pub client : Client sys
  pub context : Context

-- How a round of the loop ends: it leaves the loop with `close_sock`, or goes on.
pub data Round (sys : System) (Context : Type 0) : Type 0 where
  leave : Bool → Session sys Context → Round sys Context
  again : Session sys Context → Round sys Context

module _ (sys : System) {Context : Type 0}
    (cb : Session sys Context → Message → Session sys Context × Bool) where
  -- The check of the loop flag at the end of a round.
  unfoldable pub next_round : Bool → Bool → Session sys Context → Run (Round sys Context)
  next_round false close_sock s = done (leave close_sock s)
  next_round true close_sock s = elim s.client.internal [
    | none ↦ fault
    | some inner ↦ if inner.loop_flag then done (again s) else done (leave close_sock s)
  ]

  -- The switch on the message's type.
  unfoldable pub dispatch : Session sys Context → Message → Run (Round sys Context)
  dispatch s msg =
      if msg.type == opcode_value close
      then next_round false true s
      else if msg.type == opcode_value ping
      then (do
        (w, ok) ← ws_client_write sys s.world s.client (opcode_value pong) msg.body
        next_round ok false (record s { world = w }))
      else if msg.type == opcode_value bin
      then (let called = cb s msg in next_round called.1 false called.0)
      else if msg.type == opcode_value text
      then (let called = cb s msg in next_round called.1 false called.0)
      else next_round true false s

  unfoldable pub round : Session sys Context → Run (Round sys Context)
  round s =
      if ws_check_internals sys s.client
      then (do
        (w, client, msg, ok) ← ws_client_next_msg sys s.world s.client none
        let received = record s { world = w; client = client }
        if ok
            then elim msg [
              | none ↦ done (leave false received)
              | some found ↦ dispatch received found
            ]
            else done (leave false received))
      else done (leave false s)

  -- The loop with the rounds allowed.
  unfoldable pub listen_loop : ℕ → Session sys Context → Run (Bool × Session sys Context)
  listen_loop zero s = timeout
  listen_loop (suc fuel) s = do
    r ← round s
    elim r [ leave close_sock left ↦ done (close_sock, left) | again next ↦ listen_loop fuel next ]

  unfoldable pub ws_client_on_msg : ℕ → Session sys Context → Run (Session sys Context × Bool)
  ws_client_on_msg fuel s = elim s.client.internal [
    | none ↦ done (s, false)
    | some inner ↦ (do
      let started = record s.client { internal = some (record inner { loop_flag = true }) }
      (close_sock, left) ← listen_loop fuel (record s { client = started })
      if close_sock
          then (do
            let (w, freed) = ws_client_free sys left.world left.client
            done (record left { world = w; client = freed }, true))
          else done (left, true))
  ]
