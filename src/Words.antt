-- ===== src/Words.antt =====
-- memcpy between a machine word and its bytes, least significant byte first.
use pyxis.Prelude.{
  ℕ, zero, suc, ◌+◌, ◌*◌, ◌/◌, ◌%◌, ◌^◌, ◌<◌, Bytes, [], ◌∷◌, ◌≡◌, refl, arith, length,
}

-- The n low bytes of a word.
unfoldable pub le_bytes : ℕ → ℕ → Bytes
le_bytes zero x = []
le_bytes (suc n) x = x % 256 ∷ le_bytes n (x / 256)

-- The word that the bytes make.
unfoldable pub of_le : Bytes → ℕ
of_le [] = 0
of_le (b ∷ s) = b + 256 * of_le s

pub length-le_bytes : (n x : ℕ) → length (le_bytes n x) ≡ n
unfolding le_bytes
length-le_bytes zero x = refl
length-le_bytes (suc n) x = omega (arith, length-le_bytes n (x / 256))

pub of_le-le_bytes : (n x : ℕ) → x < 256 ^ n → of_le (le_bytes n x) ≡ x
unfolding of_le le_bytes
of_le-le_bytes zero x h = omega arith
of_le-le_bytes (suc n) x h = omega (arith, of_le-le_bytes n (x / 256) (omega arith))
