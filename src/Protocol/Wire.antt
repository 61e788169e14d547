-- ===== src/Protocol/Wire.antt =====
-- The frame format of RFC 6455 section 5.2, as one function from the fields to the bytes.
use websocket_c.Common.{
  ℕ, zero, suc, ◌+◌, ◌/◌, ◌%◌, ◌^◌, ◌≤◌, ◌<◌, ◌≡◌, refl, Bool, true, false, List, [], ◌∷◌, ◌++◌,
  ltb, leb, if◌then◌else◌, length, length-append, arith,
}
use websocket_c.Simd.Spec.{masked, length-masked}

-- The last k bytes of a number, most significant byte first.
abbrev pub big_endian : ℕ → ℕ → List ℕ
big_endian zero n = []
big_endian (suc k) n = (n / 256 ^ k % 256) ∷ big_endian k n

-- The 7-bit length field for n bytes of payload, and the extended length behind it.
abbrev pub length_code : ℕ → ℕ
length_code n = if leb n 125 then n else if ltb n 65536 then 126 else 127

abbrev pub length_bytes : ℕ → List ℕ
length_bytes n = if leb n 125 then [] else if ltb n 65536 then big_endian 2 n else big_endian 8 n

abbrev pub mask_bit : Bool → ℕ
mask_bit mask = if mask then 128 else 0

abbrev pub header : ℕ → Bool → ℕ → List ℕ
header codes mask n = codes ∷ (mask_bit mask + length_code n) ∷ length_bytes n

abbrev pub key_bytes : Bool → List ℕ → List ℕ
key_bytes mask key = if mask then key else []

abbrev pub payload_bytes : Bool → List ℕ → List ℕ → List ℕ
payload_bytes mask key payload = if mask then masked key 0 payload else payload

abbrev pub body : Bool → List ℕ → List ℕ → List ℕ
body mask key payload = key_bytes mask key ++ payload_bytes mask key payload

abbrev pub wire : ℕ → Bool → List ℕ → List ℕ → List ℕ
wire codes mask key payload = header codes mask (length payload) ++ body mask key payload

pub length_code-lt : (n : ℕ) → length_code n < 128
length_code-lt n = ground arith

pub length-payload_bytes :
    (mask : Bool) (key payload : List ℕ) → length (payload_bytes mask key payload) ≡ length payload
length-payload_bytes true key payload = length-masked key 0 payload
length-payload_bytes false key payload = refl

-- The size that the writer has to allocate.
pub length-key_bytes :
    (mask : Bool) (key : List ℕ)
    → length key ≡ 4
    → length (key_bytes mask key) ≡ (if mask then 4 else 0)
length-key_bytes true key h = h
length-key_bytes false key h = refl

pub length-length_bytes :
    (n : ℕ) → length (length_bytes n) ≡ (if leb n 125 then 0 else if ltb n 65536 then 2 else 8)
length-length_bytes n = ground arith

pub length-wire :
    (codes : ℕ) (mask : Bool) (key payload : List ℕ)
    → length (wire codes mask key payload)
      ≡ 2 + length (length_bytes (length payload)) + length (key_bytes mask key) + length payload
length-wire codes mask key payload = omega (
  arith,
  length-append (header codes mask (length payload)) (body mask key payload),
  length-append (key_bytes mask key) (payload_bytes mask key payload),
  length-payload_bytes mask key payload,
)

pub length-length_bytes_le : (n : ℕ) → length (length_bytes n) ≤ 8
length-length_bytes_le n = ground (arith, length-length_bytes n)
