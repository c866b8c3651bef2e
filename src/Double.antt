-- ===== src/Double.antt =====
-- The doubles of the program that are not negative, as fractions: IEEE 754 with a significand of 53
-- bits, rounded to the nearest, and to the even one of two.
pub mod Close
use pyxis.Prelude.{ℕ, zero, suc, ◌+◌, ◌*◌, ◌/◌, ◌%◌, ◌^◌, ltb, leb, if◌then◌else◌}

-- The whole number nearest to a fraction.
unfoldable pub round_even : ℕ → ℕ → ℕ
round_even n d =
    let q = n / d in
    let r = n % d in if ltb (2 * r) d then q else if ltb d (2 * r) then q + 1 else q + q % 2

-- The power of two that brings a fraction to 2^52 or more; the fuel is the largest exponent.
unfoldable pub scale_up : ℕ → ℕ → ℕ → ℕ
scale_up zero n d = 1
scale_up (suc fuel) n d = let k = scale_up fuel (2 * n) d in if leb (2 ^ 52 * d) n then 1 else 2 * k

-- The power of two that brings a fraction below 2^53.
unfoldable pub scale_down : ℕ → ℕ → ℕ → ℕ
scale_down zero n d = 1
scale_down (suc fuel) n d =
    let j = scale_down fuel n (2 * d) in if ltb n (2 ^ 53 * d) then 1 else 2 * j

-- A double, as a numerator and a denominator.
abbrev pub Double : Type 0
Double = ℕ × ℕ

-- The double nearest to a fraction, for quotients of numbers of at most 64 bits.
unfoldable pub nearest : ℕ → ℕ → Double
unfolding round_even scale_up scale_down
nearest n d =
    let k = scale_up 128 n d in
    let j = scale_down 128 n d in
    if ltb n (2 ^ 53 * d) then (round_even (n * k) d, k) else (round_even n (d * j) * j, 1)

-- The double nearest to a whole number, which below 2^53 is the number.
unfoldable pub of_integer : ℕ → Double
unfolding nearest
of_integer n = if ltb n (2 ^ 53) then (n, 1) else nearest n 1

-- static_cast<int64_t> of a double.
abbrev pub truncated : Double → ℕ
truncated (n, d) = n / d
