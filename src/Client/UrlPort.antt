-- ===== src/Client/UrlPort.antt =====
-- The port of a URL, copied into a buffer of 6 bytes and read.
use websocket_c.Common.{
  ℕ, ◌+◌, ◌^◌, ◌≤◌, ◌<◌, ◌≡◌, refl, ap, ◌∙◌, true, false, ◌||◌, List, [], ◌∷◌, ◌++◌, append_assoc,
  length, length-append, length-drop, drop, drop-append, replicate, leb, ◌==◌, Bool-cases, u64,
  done, fault, load_bytes, load_bytes-append, store_bytes, store_bytes_next, arith,
}
use mathlib.Core.Logic.{inl, inr}
use websocket_c.Client.Url.{read_port}
use websocket_c.CString.{is_one_of, strcspn, digits_value, atoi}
use websocket_c.CString.Scan.{Clear, Digits, Digits-Clear, strcspn-stop, atoi-Digits}

abbrev zeros : List ℕ
zeros = replicate 6 0

pub read_port-Digits :
    (before digits : List ℕ) (c : ℕ) (after : List ℕ) (offset : ℕ) {url : List ℕ}
    → url ≡ before ++ (digits ++ c ∷ after)
    → offset ≡ length before
    → Digits digits
    → length digits ≤ 5
    → ((c == 0) || is_one_of c (47 ∷ [])) ≡ true
    → offset + length digits < 2 ^ 64
    → read_port url offset ≡ done (digits_value 0 digits, offset + length digits)
unfolding read_port
read_port-Digits before digits c after offset {url} e p d small stop big =
    let n = length digits in
    let wrap : u64 (offset + n) ≡ offset + n = omega arith in
    rw
      (
        let t : strcspn (47 ∷ []) (drop offset url) ≡ done n =
              rw (e, p, drop-append before (digits ++ c ∷ after))
                (strcspn-stop (47 ∷ []) digits c after (Digits-Clear digits d) stop) in
            t,
        let t : load_bytes url offset n ≡ done digits =
              rw e (load_bytes-append before digits (c ∷ after) offset n p refl) in
            t,
        store_bytes_next [] zeros digits 0 refl refl (omega arith),
        store_bytes_next digits (drop n zeros) (0 ∷ []) n refl refl
            (omega (arith, length-drop n zeros)),
        wrap,
      )
      (ap (λ (t : List ℕ). done (atoi t, offset + n))
          (append_assoc digits (0 ∷ []) (drop 1 (drop n zeros)))
        ∙ ap (λ (v : ℕ). done (v, offset + n)) (atoi-Digits digits (drop 1 (drop n zeros)) d))

store_bytes_outside :
    (buf : List ℕ) (i : ℕ) (new : List ℕ)
    → length buf < i + length new
    → store_bytes buf i new ≡ fault
unfolding store_bytes
store_bytes_outside buf i new h =
    let outside : leb (i + length new) (length buf) ≡ false = ground arith in rw outside refl

pub read_port-long :
    (before port : List ℕ) (c : ℕ) (after : List ℕ) (offset : ℕ) {url : List ℕ}
    → url ≡ before ++ (port ++ c ∷ after)
    → offset ≡ length before
    → Clear (47 ∷ []) port
    → 6 ≤ length port
    → ((c == 0) || is_one_of c (47 ∷ [])) ≡ true
    → read_port url offset ≡ fault
unfolding read_port
read_port-long before port c after offset {url} e p d long stop =
    let n = length port in
    let found : strcspn (47 ∷ []) (drop offset url) ≡ done n =
      rw (e, p, drop-append before (port ++ c ∷ after))
        (strcspn-stop (47 ∷ []) port c after d stop) in
    let copied : load_bytes url offset n ≡ done port =
      rw e (load_bytes-append before port (c ∷ after) offset n p refl) in
    elim (Bool-cases (leb n 6)) [
      | inl fits ↦
          let six : n ≡ 6 = ground arith in
          rw
            (
              found,
              copied,
              store_bytes_next [] zeros port 0 refl refl (omega (arith, six)),
              store_bytes_outside (port ++ drop n zeros) n (0 ∷ [])
                  (omega (arith, six, length-append port (drop n zeros), length-drop n zeros)),
            )
            refl
      | inr over ↦ rw (found, copied, store_bytes_outside zeros 0 port (ground arith)) refl
    ]
