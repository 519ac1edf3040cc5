-- ===== src/Frame/Crc.antt =====
-- src/webrtc/frameCodec.ts, `Crc32`: the checksum of a byte stream, computed piece by piece.
use kubus_node.Base.{
  ℕ, zero, suc, ◌/◌, ◌%◌, ◌≡◌, refl, List, [], ◌∷◌, ◌++◌, bit_xor, ◌==◌, if◌then◌else◌,
}

-- One round of the inner loop of `buildTable`.
abbrev pub table_round : ℕ → ℕ
table_round c = if c % 2 == 0 then c / 2 else bit_xor 0xedb88320 (c / 2)

table_rounds : ℕ → ℕ → ℕ
table_rounds zero c = c
table_rounds (suc k) c = table_rounds k (table_round c)

-- `table[i]`, computed where it is read.
unfoldable pub table_entry : ℕ → ℕ
unfolding table_rounds
table_entry i = table_rounds 8 i

abbrev pub crc_start : ℕ
crc_start = 0xffffffff

unfoldable pub crc_byte : ℕ → ℕ → ℕ
unfolding table_entry
crc_byte crc byte = bit_xor (table_entry (bit_xor crc byte % 256)) (crc / 256)

-- `add`, on the register itself.
unfoldable pub crc_add : ℕ → List ℕ → ℕ
unfolding crc_byte
crc_add crc [] = crc
crc_add crc (byte ∷ bytes) = crc_add (crc_byte crc byte) bytes

-- The getter `value`.
unfoldable pub crc_value : ℕ → ℕ
crc_value crc = bit_xor crc 0xffffffff

-- Adding two pieces in turn is adding their concatenation.
pub crc_add-append :
    (crc : ℕ) (xs ys : List ℕ) → crc_add crc (xs ++ ys) ≡ crc_add (crc_add crc xs) ys
unfolding crc_add
crc_add-append crc [] ys = refl
crc_add-append crc (x ∷ xs) ys = crc_add-append (crc_byte crc x) xs ys

-- The published check value of CRC-32, over the text "123456789".
check_value :
    crc_value
      (crc_add crc_start (b'1' ∷ b'2' ∷ b'3' ∷ b'4' ∷ b'5' ∷ b'6' ∷ b'7' ∷ b'8' ∷ b'9' ∷ []))
    ≡ 0xcbf43926
unfolding crc_value crc_add
check_value = refl
