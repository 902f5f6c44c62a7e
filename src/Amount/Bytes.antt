-- ===== src/Amount/Bytes.antt =====
-- amount.go: amounts as 16 and as 32 big-endian bytes.
use clairveil.Prelude.{
  ℕ, zero, suc, ◌+◌, ◌*◌, ◌/◌, ◌%◌, ◌<◌, ◌≡◌, sym, ap, arith, Bool, true, ◌&&◌, ◌==◌, if◌then◌else◌,
  List, [], ◌∷◌, take,
}
use clairveil.Prelude.Result.{Result, ok, err}
use clairveil.Amount.Arith.{of_parts}
use clairveil.Amount.{AmountError, Amount128, IsAmount, word}

-- The last `n` bytes of a number, the highest first; `binary.BigEndian.PutUint64` for n = 8.
unfoldable pub put_bytes : ℕ → ℕ → List ℕ → List ℕ
put_bytes zero v rest = rest
put_bytes (suc n) v rest = put_bytes n (v / 256) ((v % 256) ∷ rest)

-- The number that bytes are, from a part that was read; `binary.BigEndian.Uint64` on 8 bytes.
unfoldable pub get_bytes : ℕ → List ℕ → ℕ
get_bytes acc [] = acc
get_bytes acc (b ∷ bs) = get_bytes (acc * 256 + b) bs

abbrev pub drop {ℓ} : {A : Type ℓ} → ℕ → List A → List A
drop zero xs = xs
drop (suc n) [] = []
drop (suc n) (x ∷ xs) = drop n xs

-- `Bytes16`.
unfoldable pub bytes16 : Amount128 → List ℕ
unfolding put_bytes
bytes16 a = put_bytes 8 a.hi (put_bytes 8 a.lo [])

-- `FromBytes16`.
unfoldable pub from_bytes16 : List ℕ → Amount128
unfolding get_bytes
from_bytes16 v = record { hi = get_bytes 0 (take 8 v); lo = get_bytes 0 (drop 8 v) }

-- `Bytes32`.
unfoldable pub bytes32 : Amount128 → List ℕ
unfolding bytes16 put_bytes
bytes32 a = put_bytes 16 0 (bytes16 a)

unfoldable pub all_zero : List ℕ → Bool
all_zero [] = true
all_zero (b ∷ bs) = b == 0 && all_zero bs

-- `FromBytes32`.
unfoldable pub from_bytes32 : List ℕ → Result AmountError Amount128
unfolding all_zero from_bytes16
from_bytes32 v =
    if all_zero (take 16 v) then ok (from_bytes16 (drop 16 v)) else err AmountError.exceeds

word_bytes : (v : ℕ) → v < word → get_bytes 0 (put_bytes 8 v []) ≡ v
unfolding get_bytes put_bytes
word_bytes v h = omega arith

pub from_bytes16-bytes16 : (a : Amount128) → IsAmount a → from_bytes16 (bytes16 a) ≡ a
unfolding from_bytes16 bytes16
from_bytes16-bytes16 a v =
    let h = word_bytes a.hi v.hi_small in
    let l = word_bytes a.lo v.lo_small in sym (of_parts a _ _ (sym h) (sym l))

-- On an amount of two 64-bit limbs, `FromBytes32` accepts what `Bytes32` writes, and gives the amount
-- back.
pub from_bytes32-bytes32 : (a : Amount128) → IsAmount a → from_bytes32 (bytes32 a) ≡ ok a
unfolding from_bytes32 bytes32
from_bytes32-bytes32 a v = ap ok (from_bytes16-bytes16 a v)
