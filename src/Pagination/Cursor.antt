-- ===== src/Pagination/Cursor.antt =====
-- A cursor is read back.
use thryve_financial.Base.{
  ◌≡◌, refl, ℕ, ◌+◌, ◌*◌, ◌/◌, ◌<◌, String, some, List, [], ◌∷◌, arith, All,
}
use thryve_financial.Pagination.{
  Utf8, Quad, first, second, third, fourth, lowest, symbol, step, take_bits, decode_from,
  urlsafe_b64encode, encode_cursor, decode_cursor,
}

step-symbol : (q : Quad) (pads n : ℕ) → n < 64 → step q pads (symbol n) ≡ take_bits q n
unfolding step symbol
step-symbol q pads n h = ground (arith, h)

decode_group :
    (a b c pads : ℕ) (rest out : List ℕ)
    → a < 256
    → b < 256
    → c < 256
    → decode_from first 0 rest ≡ some out
    → decode_from first pads (
        symbol (a / 4)
        ∷ symbol (lowest a 4 * 16 + b / 16)
        ∷ symbol (lowest b 16 * 4 + c / 64)
        ∷ symbol (lowest c 64)
        ∷ rest)
      ≡ some (a ∷ b ∷ c ∷ out)
unfolding decode_from
decode_group a b c pads rest out ha hb hc h = ground (
  arith,
  ha,
  hb,
  hc,
  h,
  step-symbol first pads (a / 4),
  step-symbol (second (a / 4)) 0 (lowest a 4 * 16 + b / 16),
  step-symbol (third (lowest (lowest a 4 * 16 + b / 16) 16)) 0 (lowest b 16 * 4 + c / 64),
  step-symbol (fourth (lowest (lowest b 16 * 4 + c / 64) 4)) 0 (lowest c 64),
)

decode_one :
    (a pads : ℕ)
    → a < 256
    → decode_from first pads (symbol (a / 4) ∷ symbol (lowest a 4 * 16) ∷ 61 ∷ 61 ∷ [])
      ≡ some (a ∷ [])
unfolding decode_from
decode_one a pads h =
    ground
      (arith, h, step-symbol first pads (a / 4), step-symbol (second (a / 4)) 0 (lowest a 4 * 16))

decode_two :
    (a b pads : ℕ)
    → a < 256
    → b < 256
    → decode_from first pads
        (symbol (a / 4) ∷ symbol (lowest a 4 * 16 + b / 16) ∷ symbol (lowest b 16 * 4) ∷ 61 ∷ [])
      ≡ some (a ∷ b ∷ [])
unfolding decode_from
decode_two a b pads ha hb = ground (
  arith,
  ha,
  hb,
  step-symbol first pads (a / 4),
  step-symbol (second (a / 4)) 0 (lowest a 4 * 16 + b / 16),
  step-symbol (third (lowest (lowest a 4 * 16 + b / 16) 16)) 0 (lowest b 16 * 4),
)

decode_nothing : (pads : ℕ) → decode_from first pads [] ≡ some []
unfolding decode_from
decode_nothing pads = refl

decode_from-urlsafe_b64encode :
    (bytes : List ℕ) (pads : ℕ)
    → All (λ b. b < 256) bytes
    → decode_from first pads (urlsafe_b64encode bytes) ≡ some bytes
unfolding urlsafe_b64encode
decode_from-urlsafe_b64encode [] pads h = decode_nothing pads
decode_from-urlsafe_b64encode (a ∷ []) pads (ha, h) = decode_one a pads ha
decode_from-urlsafe_b64encode (a ∷ b ∷ []) pads (ha, (hb, h)) = decode_two a b pads ha hb
decode_from-urlsafe_b64encode (a ∷ b ∷ c ∷ rest) pads (ha, (hb, (hc, h))) =
    decode_group a b c pads (urlsafe_b64encode rest) rest ha hb hc
      (decode_from-urlsafe_b64encode rest 0 h)

-- If UTF-8 writes a text in bytes that it reads back, the cursor of the text is decoded to it.
pub decode_cursor-encode_cursor :
    (utf8 : Utf8) (value : String)
    → All (λ b. b < 256) (utf8.encode value)
    → utf8.decode (utf8.encode value) ≡ some value
    → decode_cursor utf8 (encode_cursor utf8 value) ≡ some value
unfolding encode_cursor decode_cursor
decode_cursor-encode_cursor utf8 value bytes back =
    ground (arith, back, decode_from-urlsafe_b64encode (utf8.encode value) 0 bytes)
