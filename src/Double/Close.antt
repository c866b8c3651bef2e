-- ===== src/Double/Close.antt =====
-- How close a double is to the fraction that it stands for.
use pyxis.Prelude.{
  ℕ, zero, suc, ◌+◌, ◌*◌, ◌/◌, ◌%◌, ◌^◌, ◌<◌, ◌≤◌, ◌≡◌, true, ltb, leb, arith, Bool-cases, inl, inr,
  ap, ◌∙◌, ◌==◌,
}
use native.Mathlib.Nat.{div-add-mod, mod-lt, pow-succ', mul-le-mul_left}
use pyxis.Double.{round_even, scale_up, nearest}

-- An integer is close to a fraction that it is at most half away from.
abbrev pub IsClose : ℕ → ℕ → ℕ → Type 0
IsClose m n d = (2 * (m * d) ≤ 2 * n + d) × (2 * n ≤ 2 * (m * d) + d)

below-IsClose : (q r n d : ℕ) → d * q + r ≡ n → 2 * r ≤ d → IsClose q n d
below-IsClose q r n d e h = (omega (arith, e, h), omega (arith, e, h))

above-IsClose : (q r n d : ℕ) → d * q + r ≡ n → r < d → d ≤ 2 * r → IsClose (q + 1) n d
above-IsClose q r n d e l h = (omega (arith, e, l, h), omega (arith, e, l, h))

round_even-IsClose : (n d : ℕ) → 0 < d → IsClose (round_even n d) n d
unfolding round_even
round_even-IsClose n d h =
    let whole : d * (n / d) + n % d ≡ n = div-add-mod n d in
    let part : n % d < d = mod-lt n h in
    elim (Bool-cases (ltb (2 * (n % d)) d)) [
      | inl a ↦ rw (a, round_even) (below-IsClose (n / d) (n % d) n d whole (ground (arith, a)))
      | inr a ↦ elim (Bool-cases (ltb d (2 * (n % d)))) [
        | inl b ↦
            rw (a, b, round_even) (above-IsClose (n / d) (n % d) n d whole part (ground (arith, a)))
        | inr b ↦ elim (Bool-cases (n / d % 2 == 0)) [
          | inl c ↦
              let even : n / d + n / d % 2 ≡ n / d = ground (arith, c) in
              rw (a, b, round_even, even)
                (below-IsClose (n / d) (n % d) n d whole (ground (arith, b)))
          | inr c ↦
              let odd : n / d + n / d % 2 ≡ n / d + 1 = ground (arith, c) in
              rw (a, b, round_even, odd)
                (above-IsClose (n / d) (n % d) n d whole part (ground (arith, a)))
        ]
      ]
    ]

scale_up-enough : (fuel n d : ℕ) → 2 ^ 52 * d ≤ n * 2 ^ fuel → 2 ^ 52 * d ≤ n * scale_up fuel n d
unfolding scale_up
scale_up-enough zero n d h = omega (arith, h)
scale_up-enough (suc fuel) n d h =
    let twice : 2 ^ suc fuel ≡ 2 * 2 ^ fuel = pow-succ' 2 fuel in
    let more : n * 2 ^ suc fuel ≡ 2 * n * 2 ^ fuel = ap (λ k. n * k) twice ∙ omega arith in
    let rest : 2 ^ 52 * d ≤ 2 * n * scale_up fuel (2 * n) d =
      scale_up-enough fuel (2 * n) d (omega (arith, h, more)) in
    elim (Bool-cases (leb (2 ^ 52 * d) n)) [
      | inl z ↦ rw z (ground (arith, z))
      | inr z ↦ rw z (omega (arith, rest))
    ]

-- The double nearest to a fraction below 2^53 that is not too small is close to it, at a denominator
-- that is large.
pub nearest-IsClose :
    (n d : ℕ)
    → 0 < d
    → n < 2 ^ 53 * d
    → d ≤ n * 2 ^ 76
    → IsClose (nearest n d).0 (n * (nearest n d).1) d × (2 ^ 52 * d ≤ n * (nearest n d).1)
unfolding nearest
nearest-IsClose n d h small large =
    let z : ltb n (2 ^ 53 * d) ≡ true = ground (arith, small) in
    rw z (
      round_even-IsClose (n * scale_up 128 n d) d h,
      scale_up-enough 128 n d (omega (arith, large)),
    )

-- A factor is large where the other one is small.
pub factor_large : (n k b c : ℕ) → b * c ≤ n * k → n < b → 0 < c → c < k
factor_large n k b c h l p = elim (Bool-cases (ltb c k)) [
  | inl z ↦ ground (arith, z)
  | inr z ↦
      let at_most : n * k ≤ n * c = mul-le-mul_left n (ground (arith, z)) in
      let less : c * (n + 1) ≤ c * b = mul-le-mul_left c (omega (arith, l)) in
      absurd (omega (arith, h, at_most, less, p))
]
