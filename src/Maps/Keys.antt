-- ===== src/Maps/Keys.antt =====
-- Keys: an equality test and operator<.
use pyxis.Prelude.{
  ℕ, Bytes, Bool, true, false, [], ◌∷◌, ◌≡◌, ◌↔◌, ltb, ◌==◌, ==_iff, beq, beq_iff, if◌then◌else◌,
}

pub record Key {ℓ} (K : Type ℓ) : Type ℓ where
  pub eq : K → K → Bool
  pub eq_iff : (a b : K) → (eq a b ≡ true) ↔ (a ≡ b)
  pub lt : K → K → Bool

-- operator< on std::string.
unfoldable pub bytes_lt : Bytes → Bytes → Bool
bytes_lt s [] = false
bytes_lt [] (y ∷ t) = true
bytes_lt (x ∷ s) (y ∷ t) = if x == y then bytes_lt s t else ltb x y

instance abbrev pub nat_key : Key ℕ
nat_key = record { eq = ◌==◌; eq_iff = ==_iff; lt = ltb }

instance abbrev pub bytes_key : Key Bytes
bytes_key = record { eq = beq; eq_iff = beq_iff; lt = bytes_lt }
