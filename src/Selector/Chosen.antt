-- ===== src/Selector/Chosen.antt =====
-- Wait gives a selectable that was registered and whose descriptor poll reported.
use pyxis.Prelude.{
  ℕ, zero, suc, Bool, true, false, ◌&&◌, ◌||◌, List, [], ◌∷◌, ◌++◌, Option, none, some, ◌≡◌, ◌≢◌,
  refl, sym, ap, ◌∙◌, arith, ◌==◌, ==_iff, length, Bool-cases, inl, inr, subst, Every, nothing,
  also, Every-map,
}
use mathlib.Core.List.{Permᴰ}
use pyxis.Maps.{find, assign, find-assign}
use pyxis.Maps.Keys.{nat_key}
use pyxis.Selector.{
  Polled, interrupted, ready, count_set, selected, Selector, new_selector, register, chosen, select,
  wait,
}

Every-append :
    {A : Type 0} (P : A → Type 0) (l : List A) (x : A) → Every P l → P x → Every P (l ++ x ∷ [])
Every-append P [] x nothing p = also p nothing
Every-append P (y ∷ l) x (also q h) p = also q (Every-append P l x h p)

-- A permutation keeps it, and the length.
Every-perm : {A : Type 0} (P : A → Type 0) (l m : List A) → Permᴰ l m → Every P l → Every P m
Every-perm P [] [] Permᴰ.nil h = h
Every-perm P (a ∷ l) (b ∷ m) (Permᴰ.cons e p) (also q h) = also (subst P e q) (Every-perm P l m p h)
Every-perm P (a ∷ b ∷ l) (c ∷ d ∷ _) (Permᴰ.swap e f) (also q (also r h)) =
    also (subst P f r) (also (subst P e q) h)
Every-perm P l m (Permᴰ.trans {l₂ = k} p q) h = Every-perm P k m q (Every-perm P l k p h)

length-perm : {A : Type 0} (l m : List A) → Permᴰ l m → length l ≡ length m
length-perm [] [] Permᴰ.nil = refl
length-perm (a ∷ l) (b ∷ m) (Permᴰ.cons e p) = ground (arith, length-perm l m p)
length-perm (a ∷ b ∷ l) (c ∷ d ∷ _) (Permᴰ.swap e f) = refl
length-perm l m (Permᴰ.trans {l₂ = k} p q) = length-perm l k p ∙ length-perm k m q

-- A descriptor is among those that poll reported.
unfoldable pub is_ready : ℕ → List ℕ → List Bool → Bool
is_ready fd (p ∷ ps) (b ∷ bs) = (b && p == fd) || is_ready fd ps bs
is_ready fd _ _ = false

module _ {S : Type 0} (fd_of : S → ℕ) where
  -- The selectable of a descriptor.
  abbrev Standing : List (ℕ × S) → ℕ → Type 0
  Standing m fd = (y : S) × (find fd m ≡ some y) × (fd_of y ≡ fd)

  -- What Wait may give.
  abbrev pub Readable : List (ℕ × S) → List ℕ → List Bool → Option S → Type 0
  Readable m fds bs x =
      (y : S) × (x ≡ some y) × (find (fd_of y) m ≡ some y) × (is_ready (fd_of y) fds bs ≡ true)

  -- Registrations, the last first.
  unfoldable pub registrations : List (Option S) → Selector fd_of
  unfolding register
  registrations [] = new_selector fd_of
  registrations (x ∷ xs) = register fd_of x (registrations xs)

  Standing-assign :
      (m : List (ℕ × S)) (x : S) (fd : ℕ) → Standing m fd → Standing (assign (fd_of x) x m) fd
  Standing-assign m x fd (y, h, e) = elim (Bool-cases (fd_of x == fd)) [
    | inl b ↦ (x, find-assign (fd_of x) fd x m ∙ rw b refl, (==_iff (fd_of x) fd).0 b)
    | inr b ↦ (y, find-assign (fd_of x) fd x m ∙ rw b h, e)
  ]

  registrations-Standing :
      (xs : List (Option S))
      → Every (Standing (registrations xs).selectables) (registrations xs).polls
  unfolding registrations register
  registrations-Standing [] = nothing
  registrations-Standing (none ∷ xs) = registrations-Standing xs
  registrations-Standing (some x ∷ xs) =
      let s = registrations xs in
      let m = assign (fd_of x) x s.selectables in
      Every-append (Standing m) s.polls (fd_of x)
        (Every-map (Standing s.selectables) (Standing m) s.polls
          (λ fd h. Standing-assign s.selectables x fd h) (registrations-Standing xs))
        (
          x,
          find-assign (fd_of x) (fd_of x) x s.selectables
              ∙ ground (arith, ==_iff (fd_of x) (fd_of x)),
          refl,
        )

  Readable-tail :
      (m : List (ℕ × S)) (fd : ℕ) (fds : List ℕ) (b : Bool) (bs : List Bool) (x : Option S)
      → Readable m fds bs x
      → Readable m (fd ∷ fds) (b ∷ bs) x
  unfolding is_ready
  Readable-tail m fd fds b bs x (y, e, h, r) = (y, e, h, ground (arith, r))

  chosen-Readable :
      (m : List (ℕ × S)) (fds : List ℕ) (bs : List Bool)
      → Every (Standing m) fds
      → Every (Readable m fds bs) (chosen fd_of m fds bs)
  unfolding chosen is_ready
  chosen-Readable m [] bs h = nothing
  chosen-Readable m (fd ∷ fds) [] h = nothing
  chosen-Readable m (fd ∷ fds) (false ∷ bs) (also s h) =
      Every-map (Readable m fds bs) (Readable m (fd ∷ fds) (false ∷ bs)) (chosen fd_of m fds bs)
        (λ x r. Readable-tail m fd fds false bs x r) (chosen-Readable m fds bs h)
  chosen-Readable m (fd ∷ fds) (true ∷ bs) (also (y, at, e) h) =
      also (y, at, ap (λ k. find k m) e ∙ at, ground (arith, ==_iff fd (fd_of y), e))
        (Every-map (Readable m fds bs) (Readable m (fd ∷ fds) (true ∷ bs)) (chosen fd_of m fds bs)
          (λ x r. Readable-tail m fd fds true bs x r) (chosen-Readable m fds bs h))

  length-chosen :
      (m : List (ℕ × S)) (fds : List ℕ) (bs : List Bool)
      → length bs ≡ length fds
      → length (chosen fd_of m fds bs) ≡ count_set bs
  unfolding chosen
  length-chosen m [] [] h = refl
  length-chosen m [] (b ∷ bs) h = absurd (ground (arith, h))
  length-chosen m (fd ∷ fds) [] h = absurd (ground (arith, h))
  length-chosen m (fd ∷ fds) (b ∷ bs) h = ground (arith, length-chosen m fds bs (ground (arith, h)))

  abbrev pub interrupts : ℕ → List Polled → List Polled
  interrupts zero calls = calls
  interrupts (suc n) calls = interrupted ∷ interrupts n calls

  module _ (shuffle : List (Option S) → List (Option S))
      (permutes : (l : List (Option S)) → Permᴰ l (shuffle l)) where
    select-interrupts :
        (n : ℕ) (calls : List Polled) (s : Selector fd_of)
        → select fd_of shuffle true (interrupts n calls) s ≡ select fd_of shuffle true calls s
    unfolding select
    select-interrupts zero calls s = refl
    select-interrupts (suc n) calls s = select-interrupts n calls s

    first_of :
        (P : Option S → Type 0) (l : List (Option S)) (n : ℕ)
        → Every P l
        → length l ≡ n
        → n ≢ 0
        → (x : Option S) × (rest : List (Option S)) × (l ≡ x ∷ rest) × P x
    first_of P [] n h e k = absurd (k (sym e))
    first_of P (x ∷ l) n (also p h) e k = (x, l, refl, p)

    wait_of :
        (calls : List Polled) (s : Selector fd_of) (n : ℕ) (x : Option S) (rest : List (Option S))
        → select fd_of shuffle true calls s ≡ selected n (x ∷ rest)
        → (n == 0) ≡ false
        → wait fd_of shuffle calls s ≡ selected n (x ∷ [])
    unfolding wait
    wait_of calls s n x rest h z = rw (h, wait, z) refl

    selects :
        (bs : List Bool) (calls : List Polled) (s : Selector fd_of)
        → (count_set bs == 0) ≡ false
        → select fd_of shuffle true (ready bs ∷ calls) s
          ≡ selected (count_set bs) (shuffle (chosen fd_of s.selectables s.polls bs))
    unfolding select
    selects bs calls s z = rw z refl

    -- On any registrations, Wait, however often poll is interrupted before it reports a descriptor,
    -- gives a selectable: the one that was last registered with its descriptor, whose revents poll
    -- set.
    pub wait_lem :
        (xs : List (Option S)) (n : ℕ) (bs : List Bool) (calls : List Polled)
        → length bs ≡ length (registrations xs).polls
        → count_set bs ≢ 0
        → (y : S) × (wait fd_of shuffle (interrupts n (ready bs ∷ calls)) (registrations xs)
            ≡ selected (count_set bs) (some y ∷ []))
          × (find (fd_of y) (registrations xs).selectables ≡ some y)
          × (is_ready (fd_of y) (registrations xs).polls bs ≡ true)
    wait_lem xs n bs calls e some_set =
        let s = registrations xs in
        let l = chosen fd_of s.selectables s.polls bs in
        let P : Option S → Type 0 = Readable s.selectables s.polls bs in
        let (x, rest, at, (y, is_y, there, r)) =
          first_of P (shuffle l) (count_set bs)
            (Every-perm P l (shuffle l) (permutes l)
              (chosen-Readable s.selectables s.polls bs (registrations-Standing xs)))
            (sym (length-perm l (shuffle l) (permutes l))
              ∙ length-chosen s.selectables s.polls bs e)
            some_set in
        let some_ready : (count_set bs == 0) ≡ false = ground (arith, some_set) in
        (
          y,
          wait_of (interrupts n (ready bs ∷ calls)) s (count_set bs) (some y) rest
              (select-interrupts n (ready bs ∷ calls) s
                ∙ selects bs calls s some_ready
                ∙ ap (λ k. selected (count_set bs) k) (at ∙ ap (λ z. z ∷ rest) is_y))
              some_ready,
          there,
          r,
        )
