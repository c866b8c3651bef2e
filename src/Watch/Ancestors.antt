-- ===== src/Watch/Ancestors.antt =====
-- The paths that Triger walks through, and that its loop ends for a path with a leading slash.
use pyxis.Prelude.{
  ℕ, zero, suc, ◌<◌, Bytes, true, false, [], ◌∷◌, ◌++◌, none, some, ◌≡◌, ◌≢◌, refl, sym, ap, ◌∙◌,
  arith, length, drop, rfind, rfind_split, Option-cases, length-append, inl, inr, ◌⊎◌, ==_iff,
  subst,
}
use pyxis.Paths.{slash, root, starts_at_root}
use pyxis.Watch.{Event, Watchers, Fired, cut, triger_loop, triger_fuel, and_then, triger_internal}

leading-slash : (s : Bytes) → rfind slash (slash ∷ s) ≢ none
unfolding rfind
leading-slash s h = ground arith

rooted-rfind : (s : Bytes) → starts_at_root s ≡ true → rfind slash s ≢ none
unfolding starts_at_root
rooted-rfind [] h e = cc
rooted-rfind (c ∷ s) h e =
    let at : c ≡ slash = (==_iff c slash).0 h in
    leading-slash s (ap (λ x. rfind slash (x ∷ s)) (sym at) ∙ e)

-- A rooted path is its cut, a slash, and a name without a slash.
pub cut_split :
    (s : Bytes)
    → starts_at_root s ≡ true
    → (name : Bytes) × (s ≡ cut s ++ slash ∷ name) × (rfind slash name ≡ none)
unfolding cut
cut_split s h = elim (Option-cases (rfind slash s)) [
  | inl e ↦ absurd (rooted-rfind s h e)
  | inr (i, e) ↦
      let (at, last) = rfind_split slash s i e in (drop (suc i) s, rw (e, cut) (sym at), last)
]

-- What the loop of Triger runs on: the empty path, or a rooted one.
abbrev pub IsWalked : Bytes → Type 0
IsWalked s = (s ≡ []) ⊎ (starts_at_root s ≡ true)

prefix-IsWalked : (s t : Bytes) → starts_at_root (s ++ t) ≡ true → IsWalked s
unfolding starts_at_root
prefix-IsWalked [] t h = inl refl
prefix-IsWalked (c ∷ s) t h = inr h

pub cut-IsWalked : (s : Bytes) → starts_at_root s ≡ true → IsWalked (cut s)
cut-IsWalked s h =
    let (name, at, _) = cut_split s h in
    prefix-IsWalked (cut s) (slash ∷ name) (subst (λ t. starts_at_root t ≡ true) at h)

cut-shorter : (s : Bytes) → starts_at_root s ≡ true → length (cut s) < length s
cut-shorter s h =
    let (name, at, _) = cut_split s h in
    omega (arith, ap length at, length-append (cut s) (slash ∷ name))

triger_loop_total :
    (n : ℕ) (e : Event) (path : Bytes) (f : Fired)
    → length path < n
    → IsWalked path
    → (g : Fired) × (triger_loop n e path f ≡ some g)
unfolding triger_loop
triger_loop_total zero e path f h w = absurd (omega arith)
triger_loop_total (suc n) e [] f h w = (f, refl)
triger_loop_total (suc n) e (c ∷ s) f h (inl w) = absurd (ground (arith, w))
triger_loop_total (suc n) e (c ∷ s) f h (inr w) =
    triger_loop_total n e (cut (c ∷ s)) (and_then f (c ∷ s) e true)
      (omega (arith, cut-shorter (c ∷ s) w)) (cut-IsWalked (c ∷ s) w)

-- Triger ends for an event at a path with a leading slash: the loop makes at most as many rounds as
-- the path has bytes.
pub triger_total :
    (e : Event) (ws : Watchers)
    → starts_at_root e.node ≡ true
    → (f : Fired) × (triger_fuel (suc (length e.node)) e ws ≡ some f)
unfolding triger_fuel
triger_total e ws h =
    let (g, at) =
      triger_loop_total (suc (length e.node)) e (cut e.node) (triger_internal e.node e false ws)
        (omega (arith, cut-shorter e.node h)) (cut-IsWalked e.node h) in
    (and_then g root e true, rw (at, triger_fuel))

cut_self : (s : Bytes) → rfind slash s ≡ none → cut s ≡ s
unfolding cut
cut_self s h = rw (h, cut)

triger_loop-diverges :
    (n : ℕ) (e : Event) (path : Bytes) (f : Fired)
    → rfind slash path ≡ none
    → path ≢ []
    → triger_loop n e path f ≡ none
unfolding triger_loop
triger_loop-diverges zero e path f h w = refl
triger_loop-diverges (suc n) e [] f h w = absurd (w refl)
triger_loop-diverges (suc n) e (c ∷ s) f h w =
    rw (cut_self (c ∷ s) h) (triger_loop-diverges n e (c ∷ s) (and_then f (c ∷ s) e true) h w)

-- Triger never ends for an event at a nonempty path without a slash: no fuel is enough.
pub triger_diverges :
    (n : ℕ) (e : Event) (ws : Watchers)
    → rfind slash e.node ≡ none
    → e.node ≢ []
    → triger_fuel n e ws ≡ none
unfolding triger_fuel
triger_diverges n e ws h w =
    let stuck : triger_loop n e (cut e.node) (triger_internal e.node e false ws) ≡ none =
      rw (cut_self e.node h)
        (triger_loop-diverges n e e.node (triger_internal e.node e false ws) h w) in
    rw (stuck, triger_fuel)
