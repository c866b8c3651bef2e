-- ===== src/Channel.antt =====
-- base/channel.h: the bounded queue between threads. Every call runs under the mutex, so that one is
-- a single step; where the source waits on a condition, the call has to be tried again.
pub mod Fifo
use pyxis.Prelude.{
  ℕ, zero, suc, ◌+◌, ◌-◌, Bool, true, false, List, [], ◌∷◌, ◌++◌, Option, none, some, length, leb,
  if◌then◌else◌,
}

-- Channel: `count` is the counter of the eventfd, a semaphore, which Close closes.
pub record Channel {ℓ} (A : Type ℓ) : Type ℓ where
  pub size : ℕ
  pub queue : List A
  pub count : ℕ
  pub closed : Bool

-- The constructor.
abbrev pub new_channel {ℓ} : {A : Type ℓ} → ℕ → Channel A
new_channel size = record { size = size; queue = []; count = 0; closed = false }

-- A call that returns a value, waits for a condition or the eventfd, or fails a CHECK.
pub data Outcome {ℓ κ} (A : Type ℓ) (B : Type κ) : Type (ℓ ⊔ κ) where
  returned : B → Channel A → Outcome A B
  waiting : Outcome A B
  failed : Outcome A B

module _ {ℓ} {A : Type ℓ} where
  -- Put from its while loop on. It does not look at closed_ again; the write to a closed eventfd
  -- fails its PCHECK.
  unfoldable pub resume_put : A → Channel A → Outcome A Bool
  resume_put x c =
      if leb c.size (length c.queue)
      then waiting
      else if c.closed
      then failed
      else returned true (record c { queue = c.queue ++ x ∷ []; count = c.count + 1 })

  -- Put.
  unfoldable pub put : A → Channel A → Outcome A Bool
  unfolding resume_put
  put x c = if c.closed then returned false c else resume_put x c

  -- Behind the wait of Take: the read of the eventfd waits at 0, and fails where it is closed, which
  -- is ignored then.
  unfoldable pub take_front : List A → Channel A → Outcome A (Option A)
  take_front [] c = if c.closed then returned none c else waiting
  take_front (x ∷ q) c =
      if c.closed then returned (some x) (record c { queue = q }) else elim c.count [
        | zero ↦ waiting
        | suc n ↦ returned (some x) (record c { queue = q; count = n })
      ]

  -- Take, with none where it returns false.
  unfoldable pub take : Channel A → Outcome A (Option A)
  unfolding take_front
  take c = take_front c.queue c

  -- Close.
  unfoldable pub close : Channel A → Channel A
  close c = record c { closed = true }

  -- Empty and IsReadable.
  unfoldable pub is_readable : Channel A → Bool
  is_readable c = elim c.queue [ [] ↦ false | (x ∷ q) ↦ true ]
