-- ===== src/Client/Rounds.antt =====
-- The rounds of the listener loop: a message for the callback, CLOSE, and the loop around them.
use websocket_c.Common.{
  ℕ, suc, ◌%◌, ◌≡◌, refl, ap, ◌∙◌, Bool, true, none, some, done, inl, inr, ◌⊎◌,
}
use websocket_c.Client.{Internal, Client, ws_client_next_msg, ws_client_free}
use websocket_c.Client.Listen.{Session, leave, again, next_round, dispatch, round, listen_loop}
use websocket_c.Cstd.{contents}
use websocket_c.Frame.{opcode_value}
use websocket_c.Net.{net_close}
use websocket_c.Reader.{Reader}
use websocket_c.Reader.Inbox.{Piece, message_piece}
use websocket_c.System.{System, Message}

-- A message in one frame with FIN and the opcode TEXT or BIN.
abbrev pub IsWhole : ℕ → Type 0
IsWhole codes = (codes ≡ 129) ⊎ (codes ≡ 130)

module _ (sys : System) {Context : Type 0}
    (cb : Session sys Context → Message → Session sys Context × Bool)
    (note : Context → Piece → Context)
    (notes : (s : Session sys Context) (m : Message)
      → cb s m ≡ (record s { context = note s.context (message_piece m) }, true)) where
  pub round-received :
      (s : Session sys Context) (inner : Internal sys) (reader : Reader sys) {w : sys.World}
      {client : Client sys} {m : Message}
      → s.client.internal ≡ some inner
      → inner.reader ≡ some reader
      → ws_client_next_msg sys s.world s.client none ≡ done (w, client, some m, true)
      → round sys cb s ≡ dispatch sys cb (record s { world = w; client = client }) m
  unfolding round
  round-received s inner reader i r n = rw (n, i, r) refl

  settled :
      (s : Session sys Context) (m : Message) (inner : Internal sys) {type : ℕ}
      → s.client.internal ≡ some inner
      → inner.loop_flag ≡ true
      → m.type ≡ type
      → done (again (record s { context = note s.context (message_piece m) }))
        ≡ done (
            again (record s {
              client = record s.client { internal = some (record inner { loop_flag = true }) };
              context = note s.context (type, contents m.body);
            }))
  settled s m inner i l t =
      let flagged : s.client.internal ≡ some (record inner { loop_flag = true }) =
        i ∙ ap (λ (b : Bool). some (record inner { loop_flag = b })) l in
      λ j. done (
        again (record s {
          client = record s.client { internal = flagged j };
          context = note s.context (t j, contents m.body);
        }))

  pub dispatch-whole :
      (s : Session sys Context) (inner : Internal sys) (m : Message) (codes : ℕ)
      → s.client.internal ≡ some inner
      → inner.loop_flag ≡ true
      → m.type ≡ codes % 16
      → IsWhole codes
      → dispatch sys cb s m ≡ done (again (record s { context = note s.context (message_piece m) }))
  unfolding dispatch next_round opcode_value
  dispatch-whole s inner m codes i l t (inl e) =
      let type : m.type ≡ 1 = t ∙ ap (λ (n : ℕ). n % 16) e in
      rw (notes s m, type, i, l) (settled s m inner i l type)
  dispatch-whole s inner m codes i l t (inr e) =
      let type : m.type ≡ 2 = t ∙ ap (λ (n : ℕ). n % 16) e in
      rw (notes s m, type, i, l) (settled s m inner i l type)

  pub dispatch-close :
      (s : Session sys Context) (m : Message)
      → m.type ≡ 8
      → dispatch sys cb s m ≡ done (leave true s)
  unfolding dispatch next_round opcode_value
  dispatch-close s m t = rw t refl

  pub listen_loop-leave :
      (s left : Session sys Context) (close_sock : Bool) (fuel : ℕ)
      → round sys cb s ≡ done (leave close_sock left)
      → listen_loop sys cb (suc fuel) s ≡ done (close_sock, left)
  unfolding listen_loop
  listen_loop-leave s left close_sock fuel e = rw (listen_loop, e) refl

  pub listen_loop-again :
      (s next : Session sys Context) (fuel : ℕ)
      → round sys cb s ≡ done (again next)
      → listen_loop sys cb (suc fuel) s ≡ listen_loop sys cb fuel next
  unfolding listen_loop
  listen_loop-again s next fuel e = rw (listen_loop, e) refl

  -- The session after ws_client_free of its client.
  pub free-closes :
      (w : sys.World) (client : Client sys) (inner : Internal sys)
      → client.internal ≡ some inner
      → ws_client_free sys w client ≡ (
        (net_close sys w (some inner.info)).0,
        record client { host = none; path = none; internal = none },
      )
  unfolding ws_client_free
  free-closes w client inner e = rw e refl
