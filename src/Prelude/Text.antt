-- ===== src/Prelude/Text.antt =====
-- std::string as a list of bytes: equality, membership in a list, and the searches of the
-- standard library that the program calls.
use Prim.Native.Char.{code}
use Prim.Native.Nat.{ℕ, zero, suc}
use Prim.Native.String.{String}
use mathlib.Core.Path.{◌≡◌, refl}
use mathlib.Core.Logic.{◌↔◌}
use mathlib.Core.Bool.{Bool, true, false, ◌&&◌, ◌||◌}
use mathlib.Core.Option.{Option, none, some}
use mathlib.Core.List.{List, [], ◌∷◌, ◌++◌}
use native.Mathlib.Omega.{arith}
use pyxis.Prelude.Tests.{◌==◌, if◌then◌else◌}
use pyxis.Prelude.Lists.{length, take, drop}

abbrev pub Bytes : Type 0
Bytes = List ℕ

-- The bytes of an ASCII literal.
abbrev pub codes : String → Bytes
codes String.[] = []
codes (String.◌∷◌ c s) = code c ∷ codes s

-- operator== on std::string.
unfoldable pub beq : Bytes → Bytes → Bool
beq [] [] = true
beq [] (y ∷ ys) = false
beq (x ∷ xs) [] = false
beq (x ∷ xs) (y ∷ ys) = (x == y) && beq xs ys

pub beq_iff : (s t : Bytes) → (beq s t ≡ true) ↔ (s ≡ t)
unfolding beq
beq_iff [] [] = ground arith
beq_iff [] (y ∷ ys) = ground arith
beq_iff (x ∷ xs) [] = ground arith
beq_iff (x ∷ xs) (y ∷ ys) = ground (arith, beq_iff xs ys)

pub beq_refl : (s : Bytes) → beq s s ≡ true
beq_refl s = (beq_iff s s).1 refl

-- Membership, as the loops over a list of names test it.
unfoldable pub elem : Bytes → List Bytes → Bool
elem s [] = false
elem s (t ∷ ts) = beq t s || elem s ts

-- s.rfind(c): the last position of the byte, if any.
unfoldable pub rfind : ℕ → Bytes → Option ℕ
rfind c [] = none
rfind c (x ∷ xs) = elim (rfind c xs) [
  | some i ↦ some (suc i)
  | none ↦ if x == c then some 0 else none
]

-- The text splits at that position, and the byte does not occur behind it.
pub rfind_split :
    (c : ℕ) (s : Bytes) (i : ℕ)
    → rfind c s ≡ some i
    → (take i s ++ c ∷ drop (suc i) s ≡ s) × (rfind c (drop (suc i) s) ≡ none)
unfolding rfind
rfind_split c [] i h = ground arith
rfind_split c (x ∷ xs) zero h = ground arith
rfind_split c (x ∷ xs) (suc i) h = ground (arith, rfind_split c xs i)

pub rfind-append : (c : ℕ) (a b : Bytes) → rfind c b ≡ none → rfind c (a ++ c ∷ b) ≡ some (length a)
unfolding rfind
rfind-append c [] b h = ground arith
rfind-append c (x ∷ xs) b h = ground (arith, rfind-append c xs b h)
