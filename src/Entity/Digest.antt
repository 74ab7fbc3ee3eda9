-- ===== src/Entity/Digest.antt =====
-- `stringify` of arby/entity/entity_key.cpp: a digest in hexadecimal digits. A text is its bytes.
use arby.Common.{ℕ, zero, suc, ◌/◌, ◌%◌, List, [], ◌∷◌}

abbrev pub Bytes : Type 0
Bytes = List ℕ

-- What stands at a place of `digits`, a value past its end being undefined in the source.
abbrev nth : ℕ → Bytes → ℕ
nth n [] = 0
nth zero (c ∷ cs) = c
nth (suc n) (c ∷ cs) = nth n cs

abbrev digits : Bytes
digits =
    b'0' ∷ b'1' ∷ b'2' ∷ b'3' ∷ b'4' ∷ b'5' ∷ b'6' ∷ b'7' ∷ b'8' ∷ b'9' ∷ b'a' ∷ b'b' ∷ b'c' ∷ b'd'
    ∷ b'e' ∷ b'f' ∷ []

unfoldable pub to_hex : ℕ → ℕ
to_hex nibble = nth nibble digits

-- The high nibble `byte >> 4` first, and then `byte & 0xf`.
unfoldable pub stringify : Bytes → Bytes
stringify [] = []
stringify (byte ∷ digest) = to_hex (byte / 16) ∷ (to_hex (byte % 16) ∷ stringify digest)
