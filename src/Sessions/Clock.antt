-- ===== src/Sessions/Clock.antt =====
-- roundTo, the layout of the first session id, and what ResetTimer loses.
use pyxis.Prelude.{
  ℕ, ◌+◌, ◌*◌, ◌/◌, ◌%◌, ◌^◌, ◌<◌, ◌≤◌, ◌≡◌, refl, arith, Bool-cases, leb, inl, inr, ltb, true, ap,
  ltb-true,
}
use native.Mathlib.Nat.{mul-le-mul_left, div-add-mod, mod-lt, one-mul}
use pyxis.Maps.Keys.{nat_key}
use pyxis.Sessions.Manager.{round_to, init_sid, rounded}
use pyxis.Double.{of_integer, Double, nearest, truncated}
use pyxis.Double.Close.{nearest-IsClose, factor_large}

abbrev half_more : Double → Double
half_more ratio = nearest (2 * ratio.0 + ratio.1) (2 * ratio.1)

-- The quotient of roundTo is within half a step.
module _ (t S ratio K m L f r : ℕ) (down : 2 * (ratio * S) ≤ 2 * (t * K) + S)
    (up : 2 * (t * K) ≤ 2 * (ratio * S) + S)
    (down' : 2 * (m * (2 * K)) ≤ 2 * ((2 * ratio + K) * L) + 2 * K)
    (up' : 2 * ((2 * ratio + K) * L) ≤ 2 * (m * (2 * K)) + 2 * K) (whole : L * f + r ≡ m)
    (part : r < L) (K_large : 2 * S < K) (L_large : S < L) where
  quotient_above : 2 * (f * S) ≤ 2 * t + S + 1
  quotient_above = elim (Bool-cases (leb (2 * (f * S)) (2 * t + S + 1))) [
    | inl z ↦ ground (arith, z)
    | inr z ↦
        let over : 2 * t + S + 2 ≤ 2 * (f * S) = ground (arith, z) in
        let a1 : S * K * (L * f) ≤ S * K * m = mul-le-mul_left (S * K) (omega (arith, whole)) in
        let a2 = mul-le-mul_left S down' in
        let a3 = mul-le-mul_left L down in
        let a4 = mul-le-mul_left (K * L) over in
        let a5 : L * (2 * S + 1) ≤ L * K = mul-le-mul_left L (omega (arith, K_large)) in
        let a6 : K * (S + 1) ≤ K * L = mul-le-mul_left K (omega (arith, L_large)) in
        absurd (omega (arith, a1, a2, a3, a4, a5, a6, K_large))
  ]

  quotient_below : 2 * t ≤ 2 * (f * S) + S + 1
  quotient_below = elim (Bool-cases (leb (2 * t) (2 * (f * S) + S + 1))) [
    | inl z ↦ ground (arith, z)
    | inr z ↦
        let over : 2 * (f * S) + S + 2 ≤ 2 * t = ground (arith, z) in
        let a1 : S * K * (m + 1) ≤ S * K * (L * f + L) =
          mul-le-mul_left (S * K) (omega (arith, whole, part)) in
        let a2 = mul-le-mul_left S up' in
        let a3 = mul-le-mul_left L up in
        let a4 = mul-le-mul_left (K * L) over in
        let a5 : L * (2 * S + 1) ≤ L * K = mul-le-mul_left L (omega (arith, K_large)) in
        let a6 : K * (S + 1) ≤ K * L = mul-le-mul_left K (omega (arith, L_large)) in
        absurd (omega (arith, a1, a2, a3, a4, a5, a6, K_large))
  ]

denominator_large :
    (t S ratio K L : ℕ)
    → 2 * (ratio * S) ≤ 2 * (t * K) + S
    → 2 ^ 52 * (2 * K) ≤ (2 * ratio + K) * L
    → K * (t + 1) ≤ K * 2 ^ 51
    → 2 * S < K
    → S < 2 ^ 31
    → S < L
denominator_large t S ratio K L down enough early K_large range = elim (Bool-cases (ltb S L)) [
  | inl z ↦ ground (arith, z)
  | inr z ↦
      let most : (2 * ratio + K) * L ≤ (2 * ratio + K) * S =
        mul-le-mul_left (2 * ratio + K) (ground (arith, z)) in
      let small : K * (S + 1) ≤ K * 2 ^ 31 = mul-le-mul_left K (omega (arith, range)) in
      absurd (omega (arith, down, enough, early, K_large, most, small))
]

rounded_lem :
    (t step : ℕ)
    → 0 < t
    → t < 2 ^ 51
    → 0 < step
    → step * 1000 < 2 ^ 31
    → (rounded (t, 1) (step * 1000) ≤ t + 500 * step)
      × (t ≤ rounded (t, 1) (step * 1000) + 500 * step)
      × ((q : ℕ) × (rounded (t, 1) (step * 1000) ≡ q * (step * 1000)))
unfolding rounded
rounded_lem t step positive early h range =
    let S : ℕ = step * 1000 in
    let x : Double = nearest t S in
    let ((down, up), enough) =
      nearest-IsClose t S (omega (arith, h)) (omega (arith, early, h))
        (omega (arith, positive, range)) in
    let K_large : 2 * S < x.1 =
      factor_large t x.1 (2 ^ 51) (2 * S) (omega (arith, enough)) early (omega (arith, h)) in
    let tK : x.1 * (t + 1) ≤ x.1 * 2 ^ 51 = mul-le-mul_left x.1 (omega (arith, early)) in
    let MS : x.0 * 1000 ≤ x.0 * S = mul-le-mul_left x.0 (omega (arith, h)) in
    let y : Double = nearest (2 * x.0 + x.1) (2 * x.1) in
    let ((down', up'), enough') =
      nearest-IsClose (2 * x.0 + x.1) (2 * x.1) (omega (arith, K_large))
        (omega (arith, down, tK, MS, K_large)) (omega arith) in
    let L_large : S < y.1 = denominator_large t S x.0 x.1 y.1 down enough' tK K_large range in
    let whole : y.1 * (y.0 / y.1) + y.0 % y.1 ≡ y.0 = div-add-mod y.0 y.1 in
    let part : y.0 % y.1 < y.1 = mod-lt y.0 (omega (arith, L_large)) in
    let above =
      quotient_above t S x.0 x.1 y.0 y.1 (y.0 / y.1) (y.0 % y.1) down up down' up' whole part
        K_large L_large in
    let below =
      quotient_below t S x.0 x.1 y.0 y.1 (y.0 / y.1) (y.0 % y.1) down up down' up' whole part
        K_large L_large in
    let same : rounded (t, 1) S ≡ y.0 / y.1 * S =
      ap (λ d. truncated (half_more (nearest t d)) * S) (one-mul S) in
    (omega (arith, above, same), omega (arith, below, same), (y.0 / y.1, same))

of_integer-small : (t : ℕ) → t < 2 ^ 51 → of_integer t ≡ (t, 1)
unfolding of_integer
of_integer-small t h =
    let z : ltb t (2 ^ 53) ≡ true = ltb-true t (2 ^ 53) (omega (arith, h)) in rw z refl

-- For a time above 0 and below 2^51 microseconds and a step of at least a millisecond whose
-- microseconds fit an int, roundTo, in double, gives a multiple of the step that is at most half a step away from the time.
pub round_to_lem :
    (t step : ℕ)
    → 0 < t
    → t < 2 ^ 51
    → 0 < step
    → step * 1000 < 2 ^ 31
    → (round_to t step ≤ t + 500 * step)
      × (t ≤ round_to t step + 500 * step)
      × ((q : ℕ) × (round_to t step ≡ q * (step * 1000)))
unfolding round_to
round_to_lem t step positive early h range =
    rw (of_integer-small t early) (rounded_lem t step positive early h range)

-- The first id has a zero in its highest byte and in its two lowest, and the low 40 bits of the
-- milliseconds in between.
pub init_sid_lem : (now : ℕ) → init_sid now ≡ now / 1000 % 2 ^ 40 * 2 ^ 16
unfolding init_sid
init_sid_lem now = omega arith
