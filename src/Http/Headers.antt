-- ===== src/Http/Headers.antt =====
-- The headers of a message are looked up without regard to the case of their keys.
use websocket_c.Common.{
  ℕ, ◌≡◌, refl, sym, ap, ◌∙◌, Bool, true, false, Option, none, some, List, length, ltb, le→not-ltb,
  if◌then◌else◌, Run, done, arith,
}
use websocket_c.Cstd.Text.{is_ascii, is_nul_free, lower, text_equal}
use websocket_c.Http.{
  HttpMessage, found_header, normalized_cstr, http_message_get_header, http_message_set_header,
}
use websocket_c.System.{System, HasTextMemory}

chosen :
    (out : Option (List ℕ)) (b : Bool) (value : Option (List ℕ)) (before : Option (Option (List ℕ)))
    → done (found_header out (if b then some value else before))
      ≡ (if b then done (value, true) else done (found_header out before))
chosen out true value before = refl
chosen out false value before = refl

module _ (sys : System) (mem : HasTextMemory sys) where
  pub normalized_cstr-lower :
      (key : List ℕ) → is_ascii key ≡ true → normalized_cstr sys key ≡ some (lower key)
  unfolding normalized_cstr
  normalized_cstr-lower key ascii =
      let (u, lowered, out) = mem.unicode_laws.lower_ascii key ascii in
      let all = mem.unicode_laws.set_all key ascii in
      let set : ltb ((sys.unicodes.set_char sys.unicodes.create key).1) (length key) ≡ false =
        le→not-ltb _ (length key) (omega (arith, all)) in
      rw (set, lowered) out

  pub get_header-found :
      (msg : HttpMessage sys) (map : sys.headers.HashMap) (key : List ℕ) (out : Option (List ℕ))
      → msg.headers ≡ some map
      → is_ascii key ≡ true
      → http_message_get_header sys msg key out
        ≡ done (found_header out (sys.headers.get map (lower key)))
  unfolding http_message_get_header
  get_header-found msg map key out e ascii =
      rw (http_message_get_header, e, normalized_cstr-lower key ascii) refl

  pub set_header-set :
      (msg : HttpMessage sys) (map : sys.headers.HashMap) (key value : List ℕ)
      → msg.headers ≡ some map
      → is_ascii key ≡ true
      → is_nul_free value ≡ true
      → (map' : sys.headers.HashMap) × (sys.headers.set map (lower key) (some value) ≡ some map')
        × (http_message_set_header sys msg key value
            ≡ done (record msg { headers = some map' }, true))
  unfolding http_message_set_header
  set_header-set msg map key value e ascii free =
      let (map', granted) = mem.header_laws.set_grants map (lower key) (some value) in
      (
        map',
        granted,
        rw
            (
              http_message_set_header,
              get_header-found msg map key none e ascii,
              e,
              normalized_cstr-lower key ascii,
              mem.str_dup_copy value free,
              granted,
            )
            refl,
      )

  -- A message with a table of headers, ASCII keys, a value without NUL, and memory enough: setting
  -- a header returns true and changes nothing but the table, and a header read afterwards is the
  -- value set if the two keys differ at most in case, else what it was before.
  pub http_message_set_header-get :
      (msg : HttpMessage sys) (map : sys.headers.HashMap) (key value asked : List ℕ)
      (out : Option (List ℕ))
      → msg.headers ≡ some map
      → is_ascii key ≡ true
      → is_ascii asked ≡ true
      → is_nul_free value ≡ true
      → (map' : sys.headers.HashMap) × (http_message_set_header sys msg key value
          ≡ done (record msg { headers = some map' }, true))
        × (http_message_get_header sys (record msg { headers = some map' }) asked out ≡ (
            if text_equal (lower asked) (lower key)
            then done (some value, true)
            else http_message_get_header sys msg asked out))
  http_message_set_header-get msg map key value asked out e ascii ascii' free =
      let (map', granted, ran) = set_header-set msg map key value e ascii free in
      let msg' = record msg { headers = some map' } in
      (
        map',
        ran,
        get_header-found msg' map' asked out refl ascii'
            ∙ ap (λ (o : Option (Option (List ℕ))). done (found_header out o))
                (mem.header_laws.get_set map map' (lower key) (some value) granted (lower asked))
            ∙ chosen out (text_equal (lower asked) (lower key)) (some value)
                (sys.headers.get map (lower asked))
            ∙ ap
                (λ (t : Run (Option (List ℕ) × Bool)).
                  if text_equal (lower asked) (lower key) then done (some value, true) else t)
                (sym (get_header-found msg map asked out e ascii')),
      )
