-- ===== src/Web/EntityDetail.antt =====
-- arby/web/entity_detail_app.cpp: the digest that a request names, read from hexadecimal digits. The
-- app itself answers nothing: the rest of its code is a comment.
pub mod RoundTrip
use arby.Common.{
  ℕ, ◌+◌, ◌*◌, ◌%◌, ◌==◌, if◌then◌else◌, not, Bool, true, false, ℕ_discrete, List, [], ◌∷◌, length,
  Option, none, some,
}
use arby.Common.Assoc.{lookup}
use arby.Common.Result.{
  Result, ok, err, ◌>>=◌, ◌>>◌, guard, or_fail, invalid_argument, out_of_range,
}
use arby.Entity.Digest.{Bytes}

-- The cases of the switch.
abbrev pub cases : List (ℕ × ℕ)
cases =
    (b'0', 0)
    ∷ (b'1', 1)
    ∷ (b'2', 2)
    ∷ (b'3', 3)
    ∷ (b'4', 4)
    ∷ (b'5', 5)
    ∷ (b'6', 6)
    ∷ (b'7', 7)
    ∷ (b'8', 8)
    ∷ (b'9', 9)
    ∷ (b'a', 10)
    ∷ (b'b', 11)
    ∷ (b'c', 12)
    ∷ (b'd', 13)
    ∷ (b'e', 14)
    ∷ (b'f', 15)
    ∷ (b'A', 10)
    ∷ (b'B', 11)
    ∷ (b'C', 12)
    ∷ (b'D', 13)
    ∷ (b'E', 14)
    ∷ (b'F', 15)
    ∷ []

unfoldable pub to_value : ℕ → Result ℕ
to_value c = or_fail (lookup ℕ_discrete c cases) invalid_argument

-- The loop: a single digit at the end would be read past the text.
unfoldable pub read_bytes : Bytes → Result Bytes
read_bytes [] = ok []
read_bytes (c ∷ []) = err out_of_range
read_bytes (c ∷ d ∷ s) = do
  h ← to_value c
  l ← to_value d
  rest ← read_bytes s
  ok ((h * 16 + l) % 256 ∷ rest)

unfoldable pub to_sha1_digest : Bytes → Result Bytes
to_sha1_digest s = guard (length s == 40) invalid_argument >> read_bytes s
