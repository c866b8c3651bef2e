-- ===== src/Watch/Triger.antt =====
-- Which watchers an event reaches: those on its own path, and the recursive ones above it.
use Prim.Native.Nat.{bit_and}
use pyxis.Prelude.{
  ℕ, zero, suc, ◌+◌, Bytes, Bool, true, false, not, ◌&&◌, ◌||◌, List, [], ◌∷◌, ◌++◌, none, some,
  ◌≡◌, refl, ap, ◌∙◌, arith, beq, rfind, Option-cases, inl, inr, if◌then◌else◌, ◌==◌,
}
use pyxis.Paths.{slash, root, is_empty, starts_at_root}
use pyxis.Watch.{
  Event, Watcher, Watchers, Fired, cut, hits, triger_internal, triger_loop, triger_fuel, and_then,
}
use pyxis.Watch.Ancestors.{cut_split, IsWalked, cut-IsWalked}

-- Whether a slash stands behind a prefix of the path.
unfoldable pub prefix_slash : Bytes → Bytes → Bool
prefix_slash k [] = false
prefix_slash [] (x ∷ s) = x == slash
prefix_slash (y ∷ k) (x ∷ s) = (x == y) && prefix_slash k s

-- The proper ancestors of a path: the root, and each nonempty prefix with a slash behind it.
unfoldable pub is_above : Bytes → Bytes → Bool
is_above k path = beq k root || (not (is_empty k) && prefix_slash k path)

-- The paths that the loop visits from a path on.
visited : Bytes → Bytes → Bool
visited path k = not (is_empty k) && (beq k path || prefix_slash k path)

-- Whether an event reaches a watcher under a key: the mask has a bit of its type, and the watcher is
-- on the path of the event, or it is recursive and above that path.
unfoldable pub reached : Event → Bytes → Watcher → Bool
reached e k w =
    not (bit_and w.mask e.type == 0) && (beq k e.node || (w.recursive && is_above k e.node))

-- The entries that a test does not pick.
unfoldable pub without : (Bytes → Watcher → Bool) → Watchers → Watchers
without p [] = []
without p ((k, w) ∷ ws) = let rest = without p ws in if p k w then rest else (k, w) ∷ rest

-- The number of watchers, and of entries, with a property.
unfoldable pub number : (Watcher → Bool) → List Watcher → ℕ
number q [] = 0
number q (w ∷ ws) = let rest = number q ws in if q w then suc rest else rest

unfoldable pub number_in : (Watcher → Bool) → Watchers → ℕ
number_in q [] = 0
number_in q ((k, w) ∷ ws) = let rest = number_in q ws in if q w then suc rest else rest

left-internal :
    (path : Bytes) (e : Event) (c : Bool) (ws : Watchers)
    → (triger_internal path e c ws).left ≡ without (λ k w. beq k path && hits e c w) ws
unfolding triger_internal without
left-internal path e c [] = refl
left-internal path e c ((k, w) ∷ ws) = ground (arith, left-internal path e c ws)

without-without :
    (p q r : Bytes → Watcher → Bool)
    → ((k : Bytes) (w : Watcher) → r k w ≡ (p k w || q k w))
    → (ws : Watchers) → without q (without p ws) ≡ without r ws
unfolding without
without-without p q r h [] = refl
without-without p q r h ((k, w) ∷ ws) = ground (arith, h k w, without-without p q r h ws)

number-append :
    (q : Watcher → Bool) (xs ys : List Watcher) → number q (xs ++ ys) ≡ number q xs + number q ys
unfolding number
number-append q [] ys = omega arith
number-append q (x ∷ xs) ys = ground (arith, number-append q xs ys)

-- One pass notifies or leaves each watcher.
number-internal :
    (q : Watcher → Bool) (path : Bytes) (e : Event) (c : Bool) (ws : Watchers)
    → number q (triger_internal path e c ws).notified
        + number_in q (triger_internal path e c ws).left
      ≡ number_in q ws
unfolding triger_internal number number_in
number-internal q path e c [] = refl
number-internal q path e c ((k, w) ∷ ws) = ground (arith, number-internal q path e c ws)

-- A prefix with a slash behind it is the cut path, or such a prefix of it.
prefix_slash-name : (k s : Bytes) → rfind slash s ≡ none → prefix_slash k s ≡ false
unfolding prefix_slash rfind
prefix_slash-name k [] h = refl
prefix_slash-name [] (x ∷ s) h = ground arith
prefix_slash-name (y ∷ k) (x ∷ s) h = ground (arith, prefix_slash-name k s)

prefix_slash-append :
    (k a s : Bytes)
    → rfind slash s ≡ none
    → prefix_slash k (a ++ slash ∷ s) ≡ (beq k a || prefix_slash k a)
unfolding prefix_slash beq
prefix_slash-append [] [] s h = refl
prefix_slash-append [] (x ∷ a) s h = refl
prefix_slash-append (y ∷ k) [] s h = ground (arith, prefix_slash-name k s h)
prefix_slash-append (y ∷ k) (x ∷ a) s h = ground (arith, prefix_slash-append k a s h)

prefix_slash-cut :
    (k path : Bytes)
    → starts_at_root path ≡ true
    → prefix_slash k path ≡ (beq k (cut path) || prefix_slash k (cut path))
prefix_slash-cut k path h =
    let (name, at, last) = cut_split path h in
    ap (prefix_slash k) at ∙ prefix_slash-append k (cut path) name last

visited-cut :
    (k path : Bytes)
    → starts_at_root path ≡ true
    → visited path k ≡ (beq k path || visited (cut path) k)
unfolding visited starts_at_root
visited-cut k [] h = cc
visited-cut [] (c ∷ s) h = unfold beq in refl
visited-cut (x ∷ k) (c ∷ s) h = ground (arith, prefix_slash-cut (x ∷ k) (c ∷ s) h)

-- What the loop leaves and notifies.
abbrev Partitions : (Bytes → Watcher → Bool) → Fired → Fired → Type 0
Partitions p f g =
    (g.left ≡ without p f.left)
    × ((q : Watcher → Bool)
        → number q g.notified + number_in q g.left ≡ number q f.notified + number_in q f.left)

Partitions-and_then :
    (f : Fired) (path : Bytes) (e : Event) (c : Bool)
    → Partitions (λ k w. beq k path && hits e c w) f (and_then f path e c)
unfolding and_then
Partitions-and_then f path e c = (
  left-internal path e c f.left,
  λ q. omega (
    arith,
    number-append q f.notified (triger_internal path e c f.left).notified,
    number-internal q path e c f.left,
  ),
)

Partitions-trans :
    (p q r : Bytes → Watcher → Bool) (f g h : Fired)
    → ((k : Bytes) (w : Watcher) → r k w ≡ (p k w || q k w))
    → Partitions p f g
    → Partitions q g h
    → Partitions r f h
Partitions-trans p q r f g h e (a, b) (c, d) =
    (c ∙ ap (without q) a ∙ without-without p q r e f.left, λ n. omega (arith, b n, d n))

without-none :
    (p : Bytes → Watcher → Bool)
    → ((k : Bytes) (w : Watcher) → p k w ≡ false)
    → (ws : Watchers) → ws ≡ without p ws
unfolding without
without-none p h [] = refl
without-none p h ((k, w) ∷ ws) = ground (arith, h k w, without-none p h ws)

visited-nil : (k : Bytes) → visited [] k ≡ false
unfolding visited prefix_slash beq
visited-nil [] = refl
visited-nil (x ∷ k) = refl

loop-Partitions :
    (n : ℕ) (e : Event) (path : Bytes) (f g : Fired)
    → IsWalked path
    → triger_loop n e path f ≡ some g
    → Partitions (λ k w. visited path k && hits e true w) f g
unfolding triger_loop
loop-Partitions zero e path f g r h = cc
loop-Partitions (suc n) e [] f g r h =
    let same : f ≡ g = ground (arith, h) in
    rw (← same) (without-none _ (λ k w. ground (arith, visited-nil k)) f.left, λ q. refl)
loop-Partitions (suc n) e (c ∷ s) f g (inl r) h = absurd (ground (arith, r))
loop-Partitions (suc n) e (c ∷ s) f g (inr r) h =
    Partitions-trans (λ k w. beq k (c ∷ s) && hits e true w)
      (λ k w. visited (cut (c ∷ s)) k && hits e true w) _ f (and_then f (c ∷ s) e true) g
      (λ k w. ground (arith, visited-cut k (c ∷ s) r)) (Partitions-and_then f (c ∷ s) e true)
      (loop-Partitions n e (cut (c ∷ s)) (and_then f (c ∷ s) e true) g (cut-IsWalked (c ∷ s) r) h)

reached-passes :
    (e : Event)
    → starts_at_root e.node ≡ true
    → (k : Bytes) (w : Watcher)
    → reached e k w ≡ (
        (beq k e.node && hits e false w)
        || ((visited (cut e.node) k || beq k root) && hits e true w))
unfolding reached is_above visited hits
reached-passes e r k w = ground (arith, prefix_slash-cut k e.node r)

start : Watchers → Fired
start ws = record { left = ws; notified = [] }

Partitions-first :
    (e : Event) (ws : Watchers)
    → Partitions
        (λ k w. beq k e.node && hits e false w)
        (start ws)
        (triger_internal e.node e false ws)
unfolding start number
Partitions-first e ws =
    (left-internal e.node e false ws, λ q. number-internal q e.node e false ws ∙ omega arith)

triger-Partitions :
    (n : ℕ) (e : Event) (ws : Watchers) (g : Fired)
    → starts_at_root e.node ≡ true
    → triger_fuel n e ws ≡ some g
    → Partitions (reached e) (start ws) g
unfolding triger_fuel
triger-Partitions n e ws g r h =
    elim (Option-cases (triger_loop n e (cut e.node) (triger_internal e.node e false ws))) [
      | inl none_left ↦ absurd (ground (arith, none_left))
      | inr (f, at) ↦
          let last : and_then f root e true ≡ g = ground (arith, at) in
          Partitions-trans (λ k w. beq k e.node && hits e false w)
            (λ k w. (visited (cut e.node) k || beq k root) && hits e true w) (reached e) (start ws)
            (triger_internal e.node e false ws) g (reached-passes e r) (Partitions-first e ws)
            (Partitions-trans (λ k w. visited (cut e.node) k && hits e true w)
              (λ k w. beq k root && hits e true w) _ (triger_internal e.node e false ws) f g
              (λ k w. ground arith)
              (loop-Partitions n e (cut e.node) _ f (cut-IsWalked e.node r) at)
              (rw (← last) (Partitions-and_then f root e true)))
    ]

-- The number of entries with a property.
unfoldable pub number_of : (Bytes → Watcher → Bool) → Watchers → ℕ
number_of p [] = 0
number_of p ((k, w) ∷ ws) = let rest = number_of p ws in if p k w then suc rest else rest

number_in-without :
    (p : Bytes → Watcher → Bool) (q : Watcher → Bool) (ws : Watchers)
    → number_in q ws ≡ number_of (λ k w. p k w && q w) ws + number_in q (without p ws)
unfolding number_in number_of without
number_in-without p q [] = refl
number_in-without p q ((k, w) ∷ ws) = ground (arith, number_in-without p q ws)

-- An event at a path with a leading slash leaves exactly the entries that it does not reach, in
-- their order, and notifies each watcher with any property as often as entries that it reaches
-- hold it: a watcher on the path of the event with a bit of its type, or a recursive one on the
-- root or another ancestor of the path, is notified once and erased, and no other is.
pub triger_lem :
    (n : ℕ) (e : Event) (ws : Watchers) (g : Fired)
    → starts_at_root e.node ≡ true
    → triger_fuel n e ws ≡ some g
    → (g.left ≡ without (reached e) ws)
      × ((q : Watcher → Bool) → number q g.notified ≡ number_of (λ k w. reached e k w && q w) ws)
unfolding start number
triger_lem n e ws g r h =
    let (left, counted) = triger-Partitions n e ws g r h in
    (left, λ q. omega (arith, counted q, number_in-without (reached e) q ws, ap (number_in q) left))
