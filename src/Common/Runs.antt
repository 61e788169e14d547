-- ===== src/Common/Runs.antt =====
-- What holds of the result of code, if it returns one.
use mathlib.Core.Bool.{Bool, true, false}
use mathlib.Core.Path.{subst}
use mathlib.Core.Logic.{◌≢◌}
use websocket_c.Common.Tests.{if◌then◌else◌}
use websocket_c.Common.Memory.{Run, done, fault, timeout, ◌>>=◌}

abbrev pub Ensures {ℓ} : {A : Type ℓ} → Run A → (A → Type 0) → Type 0
Ensures (done a) P = P a
Ensures fault P = Unit
Ensures timeout P = Unit

module _ {ℓ κ} {A : Type ℓ} {B : Type κ} where
  pub Ensures-bind :
      (m : Run A) (k : A → Run B) (Q : A → Type 0) (P : B → Type 0)
      → Ensures m Q
      → ((a : A) → Q a → Ensures (k a) P)
      → Ensures (m >>= k) P
  Ensures-bind (done a) k Q P h next = next a h
  Ensures-bind fault k Q P h next = h
  Ensures-bind timeout k Q P h next = h

  pub Ensures-then :
      (m : Run A) (k : A → Run B) (P : B → Type 0)
      → ((a : A) → Ensures (k a) P)
      → Ensures (m >>= k) P
  Ensures-then (done a) k P next = next a
  Ensures-then fault k P next = tt
  Ensures-then timeout k P next = tt

module _ {ℓ} {A : Type ℓ} where
  pub Ensures-if :
      (b : Bool) (x y : Run A) (P : A → Type 0)
      → Ensures x P
      → Ensures y P
      → Ensures (if b then x else y) P
  Ensures-if true x y P h k = h
  Ensures-if false x y P h k = k

  pub Ensures-imply :
      (m : Run A) (Q P : A → Type 0) → Ensures m Q → ((a : A) → Q a → P a) → Ensures m P
  Ensures-imply (done a) Q P h next = next a h
  Ensures-imply fault Q P h next = h
  Ensures-imply timeout Q P h next = h

-- The code does not run out of fuel.
abbrev pub Ends {ℓ} : {A : Type ℓ} → Run A → Type 0
Ends (done a) = Unit
Ends fault = Unit
Ends timeout = ⊥

module _ {ℓ κ} {A : Type ℓ} {B : Type κ} where
  pub Ends-bind : (m : Run A) (k : A → Run B) → Ends m → ((a : A) → Ends (k a)) → Ends (m >>= k)
  Ends-bind (done a) k h next = next a
  Ends-bind fault k h next = tt
  Ends-bind timeout k h next = h

module _ {ℓ} {A : Type ℓ} where
  pub Ends-if : (b : Bool) (x y : Run A) → Ends x → Ends y → Ends (if b then x else y)
  Ends-if true x y h k = h
  Ends-if false x y h k = k

  pub Ends-no_timeout : (m : Run A) → Ends m → m ≢ timeout
  Ends-no_timeout m h e = subst Ends e h
