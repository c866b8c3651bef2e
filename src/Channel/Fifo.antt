-- ===== src/Channel/Fifo.antt =====
-- Values come out of a channel in the order in which they went in, over any interleaving of calls.
use pyxis.Prelude.{
  ℕ, ◌≤◌, true, false, List, [], ◌∷◌, ◌++◌, none, some, ◌≡◌, ◌≢◌, refl, arith, length,
  length-append, append_assoc, ◌↔◌, ◌∙◌, Bool-cases, ap, inl, inr,
}
use pyxis.Channel.{
  Channel, returned, waiting, failed, put, resume_put, take, take_front, close, new_channel, suc,
}

module _ {ℓ} (A : Type ℓ) where
  -- A channel with the values that Put accepted and those that Take gave, the oldest first.
  pub record Log : Type ℓ where
    pub channel : Channel A
    pub accepted : List A
    pub taken : List A

  -- One call by some thread that returns. A Put that waited goes on at any later time.
  pub data Step (s : Log) : Log → Type ℓ where
    puts :
        (x : A) (c : Channel A)
        → put x s.channel ≡ returned true c
        → Step s (record s { channel = c; accepted = s.accepted ++ x ∷ [] })
    rejects :
        (x : A) (c : Channel A)
        → put x s.channel ≡ returned false c
        → Step s (record s { channel = c })
    resumes :
        (x : A) (c : Channel A)
        → resume_put x s.channel ≡ returned true c
        → Step s (record s { channel = c; accepted = s.accepted ++ x ∷ [] })
    takes :
        (x : A) (c : Channel A)
        → take s.channel ≡ returned (some x) c
        → Step s (record s { channel = c; taken = s.taken ++ x ∷ [] })
    ends : (c : Channel A) → take s.channel ≡ returned none c → Step s (record s { channel = c })
    closes : Step s (record s { channel = close s.channel })

  abbrev pub start : ℕ → Log
  start size = record { channel = new_channel size; accepted = []; taken = [] }

  pub data Reach (s : Log) : Log → Type ℓ where
    here : Reach s s
    next : {t u : Log} → Reach s t → Step t u → Reach s u

  -- What was accepted is what was taken and then what is queued; the queue is within the size; while
  -- the channel is open, the eventfd counts the queue.
  pub record IsFifo (s : Log) : Type ℓ where
    pub order : s.accepted ≡ s.taken ++ s.channel.queue
    pub bounded : length s.channel.queue ≤ s.channel.size
    pub counted : s.channel.closed ≡ false → s.channel.count ≡ length s.channel.queue

  -- A Put that goes through.
  pushed :
      (s : Log) (x : A) (c : Channel A)
      → IsFifo s
      → resume_put x s.channel ≡ returned true c
      → IsFifo (record s { channel = c; accepted = s.accepted ++ x ∷ [] })
  unfolding resume_put
  pushed s x c v e = record {
    order = ground (arith, v.order, append_assoc s.taken s.channel.queue (x ∷ []));
    bounded = ground (arith, length-append s.channel.queue (x ∷ []));
    counted = λ h. ground (arith, length-append s.channel.queue (x ∷ []));
  }

  popped :
      (s : Log) (x : A) (c : Channel A)
      → IsFifo s
      → take s.channel ≡ returned (some x) c
      → IsFifo (record s { channel = c; taken = s.taken ++ x ∷ [] })
  unfolding take take_front
  popped s x c v e = record {
    order = ground (arith, v.order, append_assoc s.taken (x ∷ []) c.queue);
    bounded = ground arith;
    counted = λ h. ground (arith, v.counted);
  }

  same : (s : Log) (c : Channel A) → IsFifo s → c ≡ s.channel → IsFifo (record s { channel = c })
  same s c v e = record {
    order = ground (arith, v.order);
    bounded = ground arith;
    counted = λ h. ground (arith, v.counted);
  }

  Step-IsFifo : {s t : Log} → Step s t → IsFifo s → IsFifo t
  unfolding put resume_put take take_front close
  Step-IsFifo {s} (puts x c e) v = pushed s x c v (ground arith)
  Step-IsFifo {s} (rejects x c e) v = same s c v (ground arith)
  Step-IsFifo {s} (resumes x c e) v = pushed s x c v e
  Step-IsFifo {s} (takes x c e) v = popped s x c v e
  Step-IsFifo {s} (ends c e) v = same s c v (ground arith)
  Step-IsFifo closes v = record {
    order = v.order;
    bounded = v.bounded;
    counted = λ h. absurd (ground arith);
  }

  start-IsFifo : (size : ℕ) → IsFifo (start size)
  start-IsFifo size = record { order = refl; bounded = omega arith; counted = λ h. refl }

  Reach-keeps : {s t : Log} → IsFifo s → Reach s t → IsFifo t
  Reach-keeps v here = v
  Reach-keeps v (next r st) = Step-IsFifo st (Reach-keeps v r)

  -- After any interleaving of calls on a new channel, the values accepted are those taken and then
  -- those queued, in order; the queue is within the size; and while the channel is open the eventfd
  -- counts the queue.
  pub Reach-IsFifo : (size : ℕ) (t : Log) → Reach (start size) t → IsFifo t
  Reach-IsFifo size t r = Reach-keeps (start-IsFifo size) r

  taking :
      (q : List A) (c : Channel A)
      → (c.closed ≡ false → c.count ≡ length q)
      → ((take_front q c ≡ waiting) ↔ ((length q ≡ 0) × (c.closed ≡ false)))
        × (take_front q c ≢ failed)
  unfolding take_front
  taking [] c h = ((λ e. ground arith, λ e. ground arith), λ e. absurd (ground arith))
  taking (x ∷ q) c h = (
    (λ e. absurd (ground (arith, h)), λ e. absurd (ground (arith, h))),
    λ e. absurd (ground (arith, h)),
  )

  taking_front :
      (x : A) (q : List A) (c : Channel A)
      → (c.closed ≡ false → c.count ≡ suc (length q))
      → (c' : Channel A) × (take_front (x ∷ q) c ≡ returned (some x) c') × (c'.queue ≡ q)
  unfolding take_front
  taking_front x q c h = elim (Bool-cases c.closed) [
    | inl z ↦ rw z (_, refl, refl)
    | inr z ↦ rw (z, h z) (_, refl, refl)
  ]

  -- In every state that calls on a new channel lead to, in any order and by any number of threads, Take
  -- waits exactly where the channel is open and its queue is empty; where the queue has an element, it
  -- returns the front one and leaves the rest, so that it never waits on the eventfd or fails, also
  -- behind Close.
  pub Reach-takes :
      (size : ℕ) (t : Log)
      → Reach (start size) t
      → ((take t.channel ≡ waiting) ↔ ((length t.channel.queue ≡ 0) × (t.channel.closed ≡ false)))
        × (take t.channel ≢ failed)
        × ((x : A) (q : List A)
            → t.channel.queue ≡ x ∷ q
            → (c : Channel A) × (take t.channel ≡ returned (some x) c) × (c.queue ≡ q))
  unfolding take
  Reach-takes size t r =
      let v : IsFifo t = Reach-IsFifo size t r in
      let (wait, safe) = taking t.channel.queue t.channel v.counted in
      (
        wait,
        safe,
        λ x q e.
            let (c, w, left) = taking_front x q t.channel (λ o. v.counted o ∙ ap length e) in
            (c, ap (λ k. take_front k t.channel) e ∙ w, left),
      )
