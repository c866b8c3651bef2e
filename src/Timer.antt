-- ===== src/Timer.antt =====
-- base/timer.h: a timerfd that runs once. Times are microseconds.
use pyxis.Prelude.{
  ℕ, ◌+◌, ◌-◌, ◌*◌, ◌/◌, ◌%◌, ◌<◌, ◌≤◌, Bool, true, false, not, ◌&&◌, ◌≡◌, arith, ltb, ◌==◌,
  if◌then◌else◌, Bool-cases, inl, inr, refl, leb, ◌^◌, ap, ◌∙◌, ltb-true, ltb-false,
}
use native.Mathlib.Nat.{div-add-mod, mod-lt, mul-le-mul_left}
use pyxis.Double.Close.{nearest-IsClose, factor_large}
use pyxis.Double.{Double, nearest, truncated, round_even, scale_up, scale_down}

-- struct itimerspec, whose interval is zero throughout.
pub record TimerSpec : Type 0 where
  pub sec : ℕ
  pub nsec : ℕ

-- What timerfd_settime was last given; a new timerfd stands as if given zero.
pub record Timer : Type 0 where
  pub value : TimerSpec

abbrev pub new_timer : Timer
new_timer = record { value = record { sec = 0; nsec = 0 } }

-- A value of zero disarms a timerfd, and any other arms it.
abbrev pub is_armed : Timer → Bool
is_armed t = not (t.value.sec == 0 && t.value.nsec == 0)

-- After.
unfoldable pub after : ℕ → Timer → Timer
after ms t = record { value = record { sec = ms / 1000; nsec = ms % 1000 * 1000000 } }

-- static_cast<int64_t>(diff * 1000).
unfoldable pub in_milliseconds : Double → ℕ
unfolding nearest
in_milliseconds diff = truncated (nearest (1000 * diff.0) diff.1)

-- At, at a time; `difference d` is muduo::timeDifference for times that are d microseconds apart.
unfoldable pub at_time : (ℕ → Double) → ℕ → ℕ → Timer → Timer
unfolding after in_milliseconds
at_time difference now when t =
    let armed = after (in_milliseconds (difference (when - now))) t in
    if ltb when now then t else armed

-- After writes a value that timerfd_settime takes, which stands for the same time, and which arms the
-- timer unless that is 0.
pub after_lem :
    (ms : ℕ) (t : Timer)
    → ((after ms t).value.nsec < 1000000000)
      × ((after ms t).value.sec * 1000 + (after ms t).value.nsec / 1000000 ≡ ms)
      × (is_armed (after ms t) ≡ not (ms == 0))
unfolding after
after_lem ms t = (omega arith, omega arith, ground arith)

-- The milliseconds of a difference are the whole ones or one less.
module _ (d M K m L f r : ℕ) (down : 2 * (M * 1000000) ≤ 2 * (d * K) + 1000000)
    (up : 2 * (d * K) ≤ 2 * (M * 1000000) + 1000000) (down' : 2 * (m * K) ≤ 2 * (1000 * M * L) + K)
    (up' : 2 * (1000 * M * L) ≤ 2 * (m * K) + K) (whole : L * f + r ≡ m) (part : r < L)
    (K_large : 2000000 < K) (L_large : 1000 < L) where
  milliseconds_above : 1000 * f ≤ d
  milliseconds_above = elim (Bool-cases (leb (1000 * f) d)) [
    | inl z ↦ ground (arith, z)
    | inr z ↦
        let over : d + 1 ≤ 1000 * f = ground (arith, z) in
        let a1 : K * (L * f) ≤ K * m = mul-le-mul_left K (omega (arith, whole)) in
        let a3 = mul-le-mul_left L down in
        let a4 = mul-le-mul_left (K * L) over in
        let a5 : L * 2000001 ≤ L * K = mul-le-mul_left L (omega (arith, K_large)) in
        let a6 : K * 1001 ≤ K * L = mul-le-mul_left K (omega (arith, L_large)) in
        absurd (omega (arith, a1, down', a3, a4, a5, a6, K_large))
  ]

  milliseconds_below : d < 1000 * f + 2000
  milliseconds_below = elim (Bool-cases (ltb d (1000 * f + 2000))) [
    | inl z ↦ ground (arith, z)
    | inr z ↦
        let over : 1000 * f + 2000 ≤ d = ground (arith, z) in
        let a1 : K * (m + 1) ≤ K * (L * f + L) = mul-le-mul_left K (omega (arith, whole, part)) in
        let a3 = mul-le-mul_left L up in
        let a4 = mul-le-mul_left (K * L) over in
        let a5 : L * 2000001 ≤ L * K = mul-le-mul_left L (omega (arith, K_large)) in
        absurd (omega (arith, a1, up', a3, a4, a5, K_large))
  ]

in_milliseconds_lem :
    (d : ℕ)
    → 0 < d
    → d < 2 ^ 51
    → (1000 * in_milliseconds (nearest d 1000000) ≤ d)
      × (d < 1000 * in_milliseconds (nearest d 1000000) + 2000)
unfolding in_milliseconds
in_milliseconds_lem d positive near =
    let x : Double = nearest d 1000000 in
    let ((down, up), enough) =
      nearest-IsClose d 1000000 (omega arith) (omega (arith, near)) (omega (arith, positive)) in
    let K_large : 2000000 < x.1 =
      factor_large d x.1 (2 ^ 51) 2000000 (omega (arith, enough)) near (omega arith) in
    let dK : x.1 * (d + 1) ≤ x.1 * 2 ^ 51 = mul-le-mul_left x.1 (omega (arith, near)) in
    let least : x.1 * 1 ≤ x.1 * d = mul-le-mul_left x.1 (omega (arith, positive)) in
    let y : Double = nearest (1000 * x.0) x.1 in
    let ((down', up'), enough') =
      nearest-IsClose (1000 * x.0) x.1 (omega (arith, K_large)) (omega (arith, down, dK, K_large))
        (omega (arith, up, least, K_large)) in
    let L_large : 1000 < y.1 =
      factor_large (1000 * x.0) y.1 (2 ^ 42 * x.1) 1000 (omega (arith, enough'))
        (omega (arith, down, dK, K_large)) (omega arith) in
    let whole : y.1 * (y.0 / y.1) + y.0 % y.1 ≡ y.0 = div-add-mod y.0 y.1 in
    let part : y.0 % y.1 < y.1 = mod-lt y.0 (omega (arith, L_large)) in
    (
      milliseconds_above d x.0 x.1 y.0 y.1 (y.0 / y.1) (y.0 % y.1) down up down' up' whole part
          K_large L_large,
      milliseconds_below d x.0 x.1 y.0 y.1 (y.0 / y.1) (y.0 % y.1) down up down' up' whole part
          K_large L_large,
    )

in_milliseconds-zero : in_milliseconds (nearest 0 1000000) ≡ 0
unfolding in_milliseconds nearest round_even scale_up scale_down
in_milliseconds-zero = refl

difference_lem :
    (x : Double) (d : ℕ)
    → x ≡ nearest d 1000000
    → d < 2 ^ 51
    → (1000 * in_milliseconds x ≤ d) × (d < 1000 * in_milliseconds x + 2000)
difference_lem x d e near = elim (Bool-cases (d == 0)) [
  | inl z ↦
      let none : d ≡ 0 = ground (arith, z) in
      let stop : in_milliseconds x ≡ 0 =
        ap in_milliseconds (e ∙ ap (λ n. nearest n 1000000) none) ∙ in_milliseconds-zero in
      (omega (arith, none, stop), omega (arith, none, stop))
  | inr z ↦
      let (above, below) = in_milliseconds_lem d (ground (arith, z)) near in
      let same : in_milliseconds x ≡ in_milliseconds (nearest d 1000000) = ap in_milliseconds e in
      (omega (arith, above, same), omega (arith, below, same))
]

armed_lem : (ms : ℕ) (t : Timer) → 0 < ms → is_armed (after ms t) ≡ true
armed_lem ms t h = (after_lem ms t).2 ∙ ground (arith, h)

-- Where timeDifference divides the microseconds, exact below 2^53, by 10^6 in double: At leaves the
-- timer as it is for a time that is past, disarms it for one less than a millisecond ahead, and arms
-- it for one from two milliseconds to 2^51 microseconds ahead, at most for that time and less than
-- two milliseconds before it.
pub at_time_lem :
    (difference : ℕ → Double) (now when : ℕ) (t : Timer)
    → ((d : ℕ) → d < 2 ^ 53 → difference d ≡ nearest d 1000000)
    → when < now + 2 ^ 51
    → (let ms = in_milliseconds (difference (when - now)) in
        (when < now → at_time difference now when t ≡ t)
        × (now ≤ when → when < now + 1000 → is_armed (at_time difference now when t) ≡ false)
        × (now + 2000 ≤ when
            → (at_time difference now when t ≡ after ms t)
              × (is_armed (at_time difference now when t) ≡ true)
              × (now + ms * 1000 ≤ when)
              × (when < now + ms * 1000 + 2000)))
unfolding at_time
at_time_lem difference now when t divides near =
    let ms : ℕ = in_milliseconds (difference (when - now)) in
    let (above, below) =
      difference_lem (difference (when - now)) (when - now)
        (divides (when - now) (omega (arith, near))) (omega (arith, near)) in
    (
      λ h. rw (ltb-true when now h) refl,
      λ h g.
          let stop : ms ≡ 0 = omega (arith, above, h, g) in
          rw (ltb-false when now h) ((after_lem ms t).2 ∙ ground (arith, stop)),
      λ h.
          let later : ltb when now ≡ false = ltb-false when now (omega (arith, h)) in
          (
            rw later refl,
            rw later (armed_lem ms t (omega (arith, below, h))),
            omega (arith, above, h),
            omega (arith, below, h),
          ),
    )
