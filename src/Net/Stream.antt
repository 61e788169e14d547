-- ===== src/Net/Stream.antt =====
-- src/net.c: what the two receiving functions do on a connection with bytes waiting, with or
-- without a TLS session.
use websocket_c.Common.{
  ℕ, ◌≤◌, ◌≡◌, ◌≢◌, refl, ap, ◌∙◌, Option, some, Option-cases, List, [], ◌++◌, length, length-take,
  take, drop, done, store_bytes_next, true, false, arith, ◌<◌, ◌^◌, ◌∷◌, pos, to_int-pos,
}
use mathlib.Core.Logic.{inl, inr}
use websocket_c.Net.{NetInfo, net_peek, net_read, received}
use websocket_c.System.{System, IsStream, left_of}

module _ (sys : System) (pieces : sys.World → List (List ℕ)) (stream : IsStream sys pieces) where
  received-filled :
      (block bytes : List ℕ) (answer : sys.World × Option (List ℕ))
      → answer.1 ≡ some bytes
      → length bytes ≤ length block
      → received sys block answer
        ≡ done (answer.0, some (bytes ++ drop (length bytes) block), some (length bytes))
  received-filled block bytes answer e fits =
      ap (received sys block) (let p : answer ≡ (answer.0, some bytes) = λ i. (answer.0, e i) in p)
      ∙ rw (store_bytes_next [] block bytes 0 refl refl fits) refl

  pub net_peek-pieces :
      (w : sys.World) (info : NetInfo) (block : List ℕ) (len : ℕ) (piece : List ℕ)
      (more : List (List ℕ))
      → pieces w ≡ piece ∷ more
      → piece ≢ []
      → 0 < len
      → len < 2 ^ 31
      → len ≤ length block
      → let bytes = take len piece in
        (w' : sys.World) × (net_peek sys w (some info) (some block) len
          ≡ done (w', some (bytes ++ drop (length bytes) block), some (length bytes)))
        × (pieces w' ≡ pieces w)
  unfolding net_peek
  net_peek-pieces w info block len piece more waiting some_bytes positive small fits =
      let bytes = take len piece in
      let short = length-take len piece in
      elim (Option-cases info.ssl) [
        | inl plain ↦ (
          (sys.sockets.recv w info.socket len true).0,
          rw plain (
              received-filled block bytes (sys.sockets.recv w info.socket len true)
                (stream.recv_bytes w info.socket len true piece more waiting some_bytes)
                (omega (arith, short))),
          stream.recv_peek w info.socket len,
        )
        | inr (ssl, tls) ↦ (
          (sys.sockets.ssl_peek w ssl (pos len)).0,
          rw (tls, to_int-pos len small)
              (received-filled block bytes (sys.sockets.ssl_peek w ssl (pos len))
                (stream.ssl_peek_bytes w ssl len piece more waiting some_bytes positive)
                (omega (arith, short))),
          stream.ssl_peek_left w ssl (pos len),
        )
      ]

  pub net_read-pieces :
      (w : sys.World) (info : NetInfo) (block : List ℕ) (len : ℕ) (piece : List ℕ)
      (more : List (List ℕ))
      → pieces w ≡ piece ∷ more
      → piece ≢ []
      → 0 < len
      → len < 2 ^ 31
      → len ≤ length block
      → let bytes = take len piece in
        (w' : sys.World) × (net_read sys w (some info) (some block) len
          ≡ done (w', some (bytes ++ drop (length bytes) block), some (length bytes)))
        × (pieces w' ≡ left_of (drop len piece) more)
  unfolding net_read
  net_read-pieces w info block len piece more waiting some_bytes positive small fits =
      let bytes = take len piece in
      let short = length-take len piece in
      elim (Option-cases info.ssl) [
        | inl plain ↦ (
          (sys.sockets.recv w info.socket len false).0,
          rw plain (
              received-filled block bytes (sys.sockets.recv w info.socket len false)
                (stream.recv_bytes w info.socket len false piece more waiting some_bytes)
                (omega (arith, short))),
          stream.recv_left w info.socket len piece more waiting some_bytes,
        )
        | inr (ssl, tls) ↦ (
          (sys.sockets.ssl_read w ssl (pos len)).0,
          rw (tls, to_int-pos len small)
              (received-filled block bytes (sys.sockets.ssl_read w ssl (pos len))
                (stream.ssl_read_bytes w ssl len piece more waiting some_bytes positive)
                (omega (arith, short))),
          stream.ssl_read_left w ssl len piece more waiting some_bytes positive,
        )
      ]
