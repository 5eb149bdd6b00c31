-- ===== src/Envelope/Hex.antt =====
-- experiments/client-keyed-objects/client/src/envelope.ts: hexadecimal texts.
use supabase_lab.Common.{ℕ, ◌/◌, ◌%◌, ◌<◌, ◌≡◌, refl, some, false, [], ◌∷◌, All, arith}
use supabase_lab.Envelope.{Bytes, hex, hex_digit, unhex, digit_of, is_line_end, parse_byte}

abbrev pub IsBytes : Bytes → Type 0
IsBytes = All (λ b. b < 256)

digit_of-hex_digit : (n : ℕ) → n < 16 → digit_of (hex_digit n) ≡ some n
unfolding digit_of hex_digit
digit_of-hex_digit n h = ground (arith, h)

is_line_end-hex_digit : (n : ℕ) → n < 16 → is_line_end (hex_digit n) ≡ false
unfolding is_line_end hex_digit
is_line_end-hex_digit n h = ground (arith, h)

parse_byte-hex : (b : ℕ) → b < 256 → parse_byte (hex_digit (b / 16)) (hex_digit (b % 16)) ≡ b
unfolding parse_byte
parse_byte-hex b h = ground (
  arith,
  digit_of-hex_digit (b / 16) (omega (arith, h)),
  digit_of-hex_digit (b % 16) (omega arith),
)

-- Reading the hexadecimal text of bytes below 256 gives the bytes.
pub unhex-hex : (bs : Bytes) → IsBytes bs → unhex (hex bs) ≡ bs
unfolding hex unhex
unhex-hex [] h = refl
unhex-hex (b ∷ bs) h =
    simp
      (
        is_line_end-hex_digit (b / 16) (omega (arith, h.0)),
        is_line_end-hex_digit (b % 16) (omega arith),
        parse_byte-hex b h.0,
        unhex-hex bs h.1,
      )
      refl
