-- ===== src/Reservation/Audit.antt =====
-- audit_v2.go: the check of an audit binding, with the hexadecimal code of encoding/hex.
use Prim.Native.Char.{code}
use clairveil.Prelude.{
  ℕ, ◌+◌, ◌-◌, ◌*◌, ◌/◌, ◌%◌, String, Bool, true, false, not, ◌&&◌, ◌||◌, ◌==◌, leb, Option, none,
  some, List, [], ◌∷◌, length, if◌then◌else◌,
}
use clairveil.Prelude.Int.{is_positive}
use clairveil.Reservation.Types.{AuditBinding}

-- The bytes of an ASCII text.
unfoldable pub codes : String → List ℕ
codes String.[] = []
codes (String.◌∷◌ c s) = code c ∷ codes s

unfoldable pub hex_value : ℕ → Option ℕ
hex_value c =
    if leb b'0' c && leb c b'9'
    then some (c - b'0')
    else if leb b'a' c && leb c b'f'
    then some (c - b'a' + 10)
    else if leb b'A' c && leb c b'F'
    then some (c - b'A' + 10)
    else none

unfoldable pub hex_digit : ℕ → ℕ
hex_digit n = if leb n 9 then b'0' + n else b'a' + (n - 10)

unfoldable pub byte_of : Option ℕ → Option ℕ → Option ℕ
byte_of (some h) (some l) = some (h * 16 + l)
byte_of _ _ = none

unfoldable pub push : Option ℕ → Option (List ℕ) → Option (List ℕ)
push (some b) (some bs) = some (b ∷ bs)
push _ _ = none

-- `hex.DecodeString`.
unfoldable pub hex_decode : List ℕ → Option (List ℕ)
unfolding hex_value byte_of push
hex_decode [] = some []
hex_decode (h ∷ []) = none
hex_decode (h ∷ l ∷ rest) = push (byte_of (hex_value h) (hex_value l)) (hex_decode rest)

-- `hex.EncodeToString`.
unfoldable pub hex_encode : List ℕ → List ℕ
unfolding hex_digit
hex_encode [] = []
hex_encode (b ∷ bs) = hex_digit (b / 16) ∷ hex_digit (b % 16) ∷ hex_encode bs

unfoldable pub list_eq : List ℕ → List ℕ → Bool
list_eq [] [] = true
list_eq (x ∷ xs) (y ∷ ys) = x == y && list_eq xs ys
list_eq _ _ = false

unfoldable pub is_zero : List ℕ → Bool
is_zero [] = true
is_zero (b ∷ bs) = b == 0 && is_zero bs

-- The test in the loop of `Validate`, on one value.
unfoldable pub is_identity : List ℕ → Bool
unfolding hex_decode hex_encode list_eq is_zero
is_identity value = elim (hex_decode value) [
  | none ↦ false
  | some bytes ↦ (length bytes == 32) && list_eq (hex_encode bytes) value && not (is_zero bytes)
]

-- `AuditBinding.Validate`, as the test that it returns no error.
unfoldable pub is_valid_binding : AuditBinding → Bool
unfolding is_identity codes
is_valid_binding b =
    not (b.epoch == 0 || not (is_positive b.expires_at_unix))
    && is_identity (codes b.network_id)
    && is_identity (codes b.key_id)
    && is_identity (codes b.artifact_hash)
