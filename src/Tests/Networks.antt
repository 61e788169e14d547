-- ===== src/Tests/Networks.antt =====
-- Connections that are opened and closed, and the static context.
use websocket_c.Common.{◌≡◌, refl, ap, true, false, none, some, [], ◌∷◌}
use websocket_c.CString.{text}
use websocket_c.Net.{NetInfo}
use websocket_c.Net.Connect.{net_init_client, net_init_server, net_deinit, net_connect}
use websocket_c.Net.Contexts.{
  HasContexts, listed, ClientCalls, no_calls, then_init, then_deinit, ClientCalls-listed,
  net_init_server-refused,
}
use websocket_c.Net.Opened.{Connected, net_connect-opened}
use websocket_c.Tests.Plain.{Bytes, waiting_bytes, plain_system, plain-HasHandles}

abbrev pub no_info : NetInfo
no_info = record { socket = 0; ssl = none }

net_connect-opened_example :
    Connected plain_system
      (λ w. w.opened)
      plain-HasHandles
      (waiting_bytes [])
      no_info
      (net_connect plain_system
        (some 1)
        (waiting_bytes [])
        (some (text "h"))
        (some (text "80"))
        no_info)
net_connect-opened_example =
    net_connect-opened plain_system (λ w. w.opened) plain-HasHandles (some 1) (waiting_bytes [])
      (some (text "h")) (some (text "80")) no_info

plain-HasContexts : HasContexts plain_system (λ w. w.contexts)
plain-HasContexts = record {
  new_makes = λ w e. ap (◌∷◌ 1) e;
  free_frees = λ w ctx. refl;
  library_init_keeps = λ w. refl;
  locations_keeps = λ w ctx cert path. refl;
  peer_keeps = λ w ctx. refl;
  depth_keeps = λ w ctx n. refl;
  proto_keeps = λ w ctx. refl;
  certificate_keeps = λ w ctx cert. refl;
  cleanup_keeps = λ w. refl;
}

abbrev made : Bytes
made = record (waiting_bytes []) { contexts = 1 ∷ [] }

-- A context is made, freed and made again.
three_calls :
    ClientCalls plain_system
      (λ w. w.contexts)
      plain-HasContexts
      (waiting_bytes [])
      none
      made
      (some 1)
unfolding net_init_client net_deinit
three_calls = then_init (some (text "ca.pem")) none (then_deinit (then_init none none no_calls))

ClientCalls-listed_example : made.contexts ≡ listed (some 1)
ClientCalls-listed_example =
    ClientCalls-listed plain_system (λ w. w.contexts) plain-HasContexts (waiting_bytes []) none made
      (some 1) refl three_calls

net_init_server-refused_example :
    (w' : Bytes) × (net_init_server plain_system
        (waiting_bytes [])
        none
        (some (text "key.pem"))
        (some [])
      ≡ (w', some 1, false))
    × (net_init_server plain_system w' (some 1) none none ≡ (w', some 1, true))
    × (w'.contexts ≡ [])
net_init_server-refused_example =
    net_init_server-refused plain_system (λ w. w.contexts) plain-HasContexts (waiting_bytes []) 1
      (text "key.pem") [] none none refl refl refl
