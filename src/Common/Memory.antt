-- ===== src/Common/Memory.antt =====
-- The outcome of running C code on memory blocks, and the loads and stores on one block.
-- A block is the list of its bytes. An access outside of it is undefined behaviour in C, here
-- the outcome `fault`; `timeout` is a loop that runs out of its fuel.
use Prim.Native.Nat.{ℕ, zero, suc, ◌+◌, ◌≤◌, ◌<◌}
use mathlib.Core.Path.{◌≡◌, refl, sym, ap, ◌∙◌}
use mathlib.Core.List.{List, [], ◌∷◌, ◌++◌, append_assoc}
use mathlib.Core.Option.{none, some}
use native.Mathlib.Omega.{arith}
use websocket_c.Common.Lists.{
  length, get_elem?, get_or, take, drop, length-append, length-take, take-append-drop, take-append,
  drop-append, get_elem?-append,
}
use websocket_c.Common.Tests.{leb, if◌then◌else◌, le→leb}

pub data Run {ℓ} (A : Type ℓ) : Type ℓ where
  done : A → Run A
  fault : Run A
  timeout : Run A

infixl 5 ◌>>=◌ ◌>>◌
abbrev pub ◌>>=◌ {ℓ κ} : {A : Type ℓ} {B : Type κ} → Run A → (A → Run B) → Run B
done a >>= k = k a
fault >>= k = fault
timeout >>= k = timeout

abbrev pub ◌>>◌ {ℓ κ} : {A : Type ℓ} {B : Type κ} → Run A → Run B → Run B
m >> k = m >>= λ _. k

-- buf[i], read.
unfoldable pub load : List ℕ → ℕ → Run ℕ
load buf i = elim (get_elem? buf i) [ none ↦ fault | some b ↦ done b ]

-- The source of memcpy(_, &buf[i], n).
unfoldable pub load_bytes : List ℕ → ℕ → ℕ → Run (List ℕ)
load_bytes buf i n = if leb (i + n) (length buf) then done (take n (drop i buf)) else fault

-- memcpy(&buf[i], new, length new), and the stores buf[i] = new[0]; buf[i + 1] = new[1]; ...
unfoldable pub store_bytes : List ℕ → ℕ → List ℕ → Run (List ℕ)
store_bytes buf i new =
    if leb (i + length new) (length buf)
    then done (take i buf ++ (new ++ drop (i + length new) buf))
    else fault

-- buf[i] = v.
abbrev pub store : List ℕ → ℕ → ℕ → Run (List ℕ)
store buf i v = store_bytes buf i (v ∷ [])

pub load-get_or : (buf : List ℕ) (i : ℕ) → i < length buf → load buf i ≡ done (get_or buf i 0)
unfolding load
load-get_or [] i h = absurd (omega arith)
load-get_or (x ∷ buf) zero h = refl
load-get_or (x ∷ buf) (suc i) h = load-get_or buf i (omega arith)

pub load-append :
    (before : List ℕ) (b : ℕ) (after : List ℕ) (i : ℕ)
    → i ≡ length before
    → load (before ++ b ∷ after) i ≡ done b
unfolding load
load-append before b after i e = rw e (rw (load, get_elem?-append before b after))

pub load_bytes-append :
    (before bytes after : List ℕ) (i n : ℕ)
    → i ≡ length before
    → n ≡ length bytes
    → load_bytes (before ++ (bytes ++ after)) i n ≡ done bytes
unfolding load_bytes
load_bytes-append before bytes after i n e f =
    rw (e, f)
      (rw (
        le→leb (length before + length bytes) (length (before ++ (bytes ++ after)))
            (omega (arith, length-append before (bytes ++ after), length-append bytes after)),
        drop-append before (bytes ++ after),
        take-append bytes after,
      ))

drop-append-append :
    (before bytes after : List ℕ)
    → drop (length before + length bytes) (before ++ (bytes ++ after)) ≡ after
drop-append-append [] bytes after =
    ap (λ (n : ℕ). drop n (bytes ++ after)) (omega arith) ∙ drop-append bytes after
drop-append-append (x ∷ before) bytes after =
    ap (λ (n : ℕ). drop n ((x ∷ before) ++ (bytes ++ after)))
      (let e : suc (length before) + length bytes ≡ suc (length before + length bytes) =
          omega arith in
        e)
    ∙ drop-append-append before bytes after

pub store_bytes-append :
    (before old after new : List ℕ) (i : ℕ)
    → i ≡ length before
    → length old ≡ length new
    → store_bytes (before ++ (old ++ after)) i new ≡ done (before ++ (new ++ after))
unfolding store_bytes
store_bytes-append before old after new i e f =
    rw (e, ← f)
      (rw (
        le→leb (length before + length old) (length (before ++ (old ++ after)))
            (omega (arith, length-append before (old ++ after), length-append old after)),
        take-append before (old ++ after),
        drop-append-append before old after,
      ))

-- Stores at the end of what is written so far.
pub store_bytes_next :
    (written left new : List ℕ) (i : ℕ) {buf : List ℕ}
    → buf ≡ written ++ left
    → i ≡ length written
    → length new ≤ length left
    → store_bytes buf i new ≡ done ((written ++ new) ++ drop (length new) left)
store_bytes_next written left new i {buf} e h le =
    let old = take (length new) left in
    let rest = drop (length new) left in
    let split : buf ≡ written ++ (old ++ rest) =
      e ∙ ap (◌++◌ written) (sym (take-append-drop (length new) left)) in
    let stored : store_bytes buf i new ≡ done (written ++ (new ++ rest)) = rw split (
      store_bytes-append written old rest new i h (omega (arith, length-take (length new) left))) in
    stored ∙ ap done (sym (append_assoc written new rest))
