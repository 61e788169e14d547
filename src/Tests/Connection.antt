-- ===== src/Tests/Connection.antt =====
-- A concrete connection: the pieces of bytes that wait on it, the bytes sent on it, and what is open.
use websocket_c.Common.{
  ℕ, ◌≡◌, refl, Bool, true, Option, none, some, List, [], ◌∷◌, ◌++◌, if◌then◌else◌, length, take,
  drop, ◌^◌, ℤ, to_int, to_int-pos, take_all, ◌<◌, pos, negsuc,
}
use websocket_c.System.{Sockets, left_of}
use websocket_c.System.Opened.{Handles, remove}

pub record Bytes : Type 0 where
  pub waiting : List (List ℕ)
  pub sent : List ℕ
  pub opened : Handles
  pub next : ℕ
  pub contexts : List ℕ

-- A connection with pieces of bytes waiting, and nothing sent yet.
abbrev pub waiting_pieces : List (List ℕ) → Bytes
waiting_pieces pieces = record {
  waiting = pieces;
  sent = [];
  opened = record { open_sockets = []; open_sessions = [] };
  next = 5;
  contexts = [];
}

abbrev pub waiting_bytes : List ℕ → Bytes
waiting_bytes bytes = waiting_pieces (left_of bytes [])

abbrev pub first_piece : List (List ℕ) → List ℕ
first_piece [] = []
first_piece (piece ∷ more) = piece

abbrev pub shorten : ℕ → List (List ℕ) → List (List ℕ)
shorten n [] = []
shorten n (piece ∷ more) = left_of (drop n piece) more

abbrev pub plain_recv : Bytes → ℕ → ℕ → Bool → Bytes × Option (List ℕ)
plain_recv w socket len peek = (
  record w { waiting = if peek then w.waiting else shorten len w.waiting },
  some (take len (first_piece w.waiting)),
)

-- A negative number of bytes is an error.
abbrev pub plain_ssl : Bytes → ℕ → ℤ → Bool → Bytes × Option (List ℕ)
plain_ssl w ssl (pos len) peek = plain_recv w ssl len peek
plain_ssl w ssl (negsuc n) peek = (w, none)

abbrev pub plain_ssl_write : Bytes → ℕ → List ℕ → ℤ → Bytes × Option ℕ
plain_ssl_write w ssl bytes (pos len) =
    (record w { sent = w.sent ++ take len bytes }, some (length (take len bytes)))
plain_ssl_write w ssl bytes (negsuc n) = (w, none)

abbrev pub plain_sockets : Sockets Bytes
plain_sockets = record {
  recv = plain_recv;
  send = λ w socket bytes. (record w { sent = w.sent ++ bytes }, some (length bytes));
  close = λ w socket. record w {
    opened = record w.opened { open_sockets = remove socket w.opened.open_sockets };
  };
  ssl_peek = λ w ssl num. plain_ssl w ssl num Bool.true;
  ssl_read = λ w ssl num. plain_ssl w ssl num Bool.false;
  ssl_write = plain_ssl_write;
  ssl_shutdown = λ w ssl. w;
  ssl_free = λ w ssl. record w {
    opened = record w.opened { open_sessions = remove ssl w.opened.open_sessions };
  };
}

pub plain_ssl_keeps :
    (w : Bytes) (ssl : ℕ) (num : ℤ) (peek : Bool) → (plain_ssl w ssl num peek).0.opened ≡ w.opened
plain_ssl_keeps w ssl (pos len) peek = refl
plain_ssl_keeps w ssl (negsuc n) peek = refl

pub plain_ssl_write_keeps :
    (w : Bytes) (ssl : ℕ) (bytes : List ℕ) (num : ℤ)
    → (plain_ssl_write w ssl bytes num).0.opened ≡ w.opened
plain_ssl_write_keeps w ssl bytes (pos len) = refl
plain_ssl_write_keeps w ssl bytes (negsuc n) = refl

pub plain_ssl_write-all :
    (w : Bytes) (ssl : ℕ) (bytes : List ℕ)
    → length bytes < 2 ^ 31
    → plain_ssl_write w ssl bytes (to_int (length bytes))
      ≡ (record w { sent = w.sent ++ bytes }, some (length bytes))
plain_ssl_write-all w ssl bytes small = rw (to_int-pos (length bytes) small, take_all bytes) refl

pub plain_ssl_peek_left :
    (w : Bytes) (ssl : ℕ) (num : ℤ) → (plain_ssl w ssl num true).0.waiting ≡ w.waiting
plain_ssl_peek_left w ssl (pos len) = refl
plain_ssl_peek_left w ssl (negsuc n) = refl
