-- ===== src/Client/Sends.antt =====
-- `ws_client_write` sends the frame format of RFC 6455.
use websocket_c.Common.{
  ℕ, ◌+◌, ◌/◌, ◌%◌, ◌^◌, ◌≤◌, ◌<◌, ◌≡◌, ◌≢◌, refl, sym, ap, ◌∙◌, true, not, some, List, [], ◌∷◌,
  ◌++◌, length, length-take, take, drop, take-append-drop, take_all, ltb, ◌==◌, Bool-cases, done,
  load_bytes, store_bytes_next, load_bytes-append, arith, pos, to_int, to_int-pos,
}
use mathlib.Core.Logic.{inl, inr}
use websocket_c.Client.{Internal, Client}
use websocket_c.Client.Write.{is_failure, ws_client_write_blob, copy_body, framed, ws_client_write}
use websocket_c.Cstd.{ByteArray, contents, null_array}
use websocket_c.Encode.{populate_rand}
use websocket_c.Encode.Key.{populate_rand-key}
use websocket_c.Frame.{Frame, success, flags_mask}
use websocket_c.Net.{net_write}
use websocket_c.Protocol.Header.{zero_frame}
use websocket_c.Protocol.Wire.{wire}
use websocket_c.Protocol.WireFormat.{IsWritable, ws_frame_write-wire}
use websocket_c.Protocol.Write.{ws_frame_output_size, ws_frame_write}
use websocket_c.Reader.Concat.{Fits}
use websocket_c.Reader.Stream.{length-wire_le}
use websocket_c.System.{System, HasMemory}

load_all : (bytes : List ℕ) (n : ℕ) → n ≤ length bytes → load_bytes bytes 0 n ≡ done (take n bytes)
load_all bytes n h =
    ap (λ (t : List ℕ). load_bytes t 0 n) (sym (take-append-drop n bytes))
    ∙ load_bytes-append [] (take n bytes) (drop n bytes) 0 n refl
        (omega (arith, length-take n bytes))

output_size_le :
    (f : Frame) → f.payload.len + 32 < 2 ^ 64 → ws_frame_output_size f ≤ 14 + f.payload.len
unfolding ws_frame_output_size
output_size_le f h = ground arith

write-steps :
    (sys : System) (w : sys.World) (client : Client sys) (type : ℕ) (body : ByteArray)
    {w' : sys.World} {key : List ℕ} {f g : Frame} {out : ByteArray}
    → populate_rand sys w (some zero_frame.masking_key) 4 ≡ done (w', some key)
    → copy_body sys (record (framed type) { masking_key = key }) body ≡ done (some f)
    → ws_frame_write sys.arrays sys.use_simd f null_array ≡ done (g, out, success)
    → ws_client_write sys w client type body ≡ ws_client_write_blob sys w' client out
unfolding ws_client_write
write-steps sys w client type body r c t = rw (r, c, t) refl

module _ (sys : System) (mem : HasMemory sys) where
  copy_body-IsWritable :
      (frame : Frame) (body : ByteArray)
      → frame.payload ≡ null_array
      → length frame.masking_key ≡ 4
      → frame.info < 256
      → Fits body
      → body.len < 2 ^ 62
      → (f : Frame) × (copy_body sys frame body ≡ done (some f))
        × IsWritable f (contents body)
        × (f.codes ≡ frame.codes)
        × (f.info ≡ frame.info)
        × (f.masking_key ≡ frame.masking_key)
        × (f.payload.len ≡ body.len)
  unfolding copy_body
  copy_body-IsWritable frame body empty k info fits small =
      let size : length (contents body) ≡ body.len =
        omega (arith, length-take body.len body.byte_data) in
      elim (Bool-cases (ltb 0 body.len)) [
        | inl some_bytes ↦
            let (payload, granted) = mem.init_grants body.len (omega arith) in
            let cap = mem.array_laws.init_cap body.len payload granted in
            let room = mem.array_laws.init_storage body.len payload granted in
            let rest = drop (length (contents body)) payload.byte_data in
            let f : Frame = record frame {
              payload = record payload { byte_data = contents body ++ rest; len = payload.cap };
            } in
            (
              f,
              rw
                  (
                    some_bytes,
                    granted,
                    let t : (payload.cap == body.len) ≡ true = ground (arith, cap) in t,
                    ap (load_bytes body.byte_data 0) cap ∙ load_all body.byte_data body.len fits,
                    store_bytes_next [] payload.byte_data (contents body) 0 refl refl
                        (omega (arith, size, room)),
                  )
                  refl,
              record {
                unused = rest;
                holds = refl;
                counts = cap ∙ sym size;
                key_size = k;
                info_byte = info;
                no_wrap = omega (arith, size);
              },
              refl,
              refl,
              refl,
              cap,
            )
        | inr none_left ↦
            let zero_len : body.len ≡ 0 = ground arith in
            (
              frame,
              rw none_left refl,
              record {
                unused = [];
                holds =
                    ap (λ (a : ByteArray). a.byte_data) empty
                    ∙ ap (λ (n : ℕ). take n body.byte_data ++ []) (sym zero_len);
                counts = ap (λ (a : ByteArray). a.len) empty ∙ sym (size ∙ zero_len);
                key_size = k;
                info_byte = info;
                no_wrap = omega (arith, size);
              },
              refl,
              refl,
              refl,
              ap (λ (a : ByteArray). a.len) empty ∙ sym zero_len,
            )
      ]

  write_blob-sent :
      (w : sys.World) (client : Client sys) (inner : Internal sys) (out : ByteArray) (b : ℕ)
      (bytes : List ℕ)
      → client.internal ≡ some inner
      → out.byte_data ≡ b ∷ bytes
      → out.len ≡ length out.byte_data
      → ws_client_write_blob sys w client out
        ≡ done (
          (net_write sys w (some inner.info) (some (b ∷ bytes))).0,
          not (is_failure (net_write sys w (some inner.info) (some (b ∷ bytes))).1),
        )
  unfolding ws_client_write_blob
  write_blob-sent w client inner out b bytes i e full =
      rw
        (
          i,
          e,
          full ∙ ap length e,
          load_all (b ∷ bytes) (length (b ∷ bytes)) (omega arith),
          take_all (b ∷ bytes),
        )
        refl

  -- A connected client, an opcode, a body whose length is within its block, is not 65536 and is
  -- more than 14 below 2 ^ 31, and memory enough: `ws_client_write` gives net_write one whole masked
  -- frame of RFC 6455, with FIN, the opcode, a key of 4 bytes and the body as its payload, the
  -- number of its bytes is not changed where it becomes the int of SSL_write, and it returns
  -- whether sending did not fail.
  pub ws_client_write-sends :
      (w : sys.World) (client : Client sys) (inner : Internal sys) (type : ℕ) (body : ByteArray)
      → client.internal ≡ some inner
      → type < 16
      → Fits body
      → body.len + 14 < 2 ^ 31
      → body.len ≢ 65536
      → (w' : sys.World) × (key : List ℕ) × (length key ≡ 4)
        × (to_int (length (wire (128 + type) true key (contents body)))
            ≡ pos (length (wire (128 + type) true key (contents body))))
        × (ws_client_write sys w client type body
            ≡ let bytes = wire (128 + type) true key (contents body) in
              let sent = net_write sys w' (some inner.info) (some bytes) in
              done (sent.0, not (is_failure sent.1)))
  ws_client_write-sends w client inner type body i small fits size other =
      let (w', key, random, k) = populate_rand-key sys w in
      let (f, copied, writable, codes, info, keyed, counted) =
        copy_body-IsWritable (record (framed type) { masking_key = key }) body refl k (omega arith)
          fits (omega arith) in
      let (fresh, granted) =
        mem.init_grants (ws_frame_output_size f)
          (omega (arith, output_size_le f (omega (arith, counted)), counted)) in
      let (g, o, written, bytes, full, _, _) =
        ws_frame_write-wire sys.arrays mem.array_laws sys.use_simd f null_array (contents body)
          writable fresh granted (λ e. other (sym counted ∙ e)) in
      let sent : o.byte_data ≡ wire (128 + type) true key (contents body) =
        bytes
        ∙ ap (λ (c : ℕ). wire c (flags_mask f) f.masking_key (contents body))
            (codes ∙ (let c : 128 + (0 + type % 16) % 128 ≡ 128 + type = omega arith in c))
        ∙ ap (λ (n : ℕ). wire (128 + type) (n / 128 % 2 == 1) f.masking_key (contents body)) info
        ∙ ap (λ (t : List ℕ). wire (128 + type) true t (contents body)) keyed in
      (
        w',
        key,
        k,
        to_int-pos (length (wire (128 + type) true key (contents body))) (
            omega (
              arith,
              length-wire_le (128 + type) true key (contents body) k,
              length-take body.len body.byte_data,
            )),
        write-steps sys w client type body random copied written
            ∙ write_blob-sent w' client inner o (128 + type) _ i sent full,
      )
