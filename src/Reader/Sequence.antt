-- ===== src/Reader/Sequence.antt =====
-- Many calls of `ws_reader_handle`, one for each frame that comes.
use websocket_c.Common.{ℕ, ◌≡◌, refl, sym, ap, ◌∙◌, true, some, List, [], ◌∷◌, ◌++◌, done}
use mathlib.Core.Path.{subst}
use websocket_c.Net.{NetInfo}
use websocket_c.Reader.{Reader}
use websocket_c.Reader.Accept.{IsReady}
use websocket_c.Reader.Deliver.{Sent, IsSent, sent_wire, ws_reader_handle-accept}
use websocket_c.Reader.Handle.{ws_reader_handle}
use websocket_c.Reader.Inbox.{Inbox, accept, view}
use websocket_c.System.{System, HasMemory, IsStream, left_of}

-- A number of calls in a row that return true.
pub data Calls (sys : System) (info : NetInfo)
    : ℕ → sys.World → Reader sys → sys.World → Reader sys → Type 0 where
  stop : {w : sys.World} {r : Reader sys} → Calls sys info 0 w r w r
  call :
      {n : ℕ} {w w' w'' : sys.World} {r r' r'' : Reader sys}
      → ws_reader_handle sys w r (some info) ≡ done (w', r', true)
      → Calls sys info n w' r' w'' r''
      → Calls sys info (ℕ.suc n) w r w'' r''

pub data AllSent : List Sent → Type 0 where
  none_left : AllSent []
  next_sent : {f : Sent} {fs : List Sent} → IsSent f → AllSent fs → AllSent (f ∷ fs)

-- The frames wait on a connection, each one whole in the piece that it is in, a frame at the start
-- of a piece or behind another; `last` are the pieces left behind them.
abbrev pub Waiting : List Sent → List (List ℕ) → List (List ℕ) → Type 0
Waiting [] pieces last = pieces ≡ last
Waiting (f ∷ fs) pieces last =
    (rest : List ℕ) × (more : List (List ℕ)) × (pieces ≡ (sent_wire f ++ rest) ∷ more)
    × Waiting fs (left_of rest more) last

abbrev pub accept_all : Inbox → List Sent → Inbox
accept_all inbox [] = inbox
accept_all inbox (f ∷ fs) = accept_all (accept inbox f.codes f.payload) fs

abbrev pub count : List Sent → ℕ
count [] = 0
count (f ∷ fs) = ℕ.suc (count fs)

-- Frames with bodies waiting on the connection, in any number and order, each whole in what one
-- receive can give, with anything behind them, an open reader and memory enough: as many calls of
-- `ws_reader_handle` as there are frames all return true, take just these frames off the
-- connection, and do to the inbox what `accept` says, frame by frame.
pub ws_reader_handle-accept_all :
    (sys : System) (mem : HasMemory sys) (pieces : sys.World → List (List ℕ))
    (stream : IsStream sys pieces) (w : sys.World) (reader : Reader sys) (info : NetInfo)
    (fs : List Sent) (behind : List (List ℕ))
    → IsReady sys reader
    → AllSent fs
    → Waiting fs (pieces w) behind
    → (w' : sys.World) × (reader' : Reader sys) × Calls sys info (count fs) w reader w' reader'
      × (pieces w' ≡ behind)
      × IsReady sys reader'
      × (view sys reader' ≡ accept_all (view sys reader) fs)
ws_reader_handle-accept_all sys mem pieces stream w reader info [] behind ready none_left e =
    (w, reader, stop, e, ready, refl)
ws_reader_handle-accept_all sys mem pieces stream w reader info (f ∷ fs) behind ready
      (next_sent sent all) (rest, more, e, waiting) =
    let (w', reader', ran, left, ready', seen) =
      ws_reader_handle-accept sys mem pieces stream w reader info f rest more ready sent e in
    let (w'', reader'', calls, left', ready'', seen') =
      ws_reader_handle-accept_all sys mem pieces stream w' reader' info fs behind ready' all
        (subst (λ ps. Waiting fs ps behind) (sym left) waiting) in
    (
      w'',
      reader'',
      call ran calls,
      left',
      ready'',
      seen' ∙ ap (λ (i : Inbox). accept_all i fs) seen,
    )
