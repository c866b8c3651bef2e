-- ===== src/Paths/Split.antt =====
-- SplitPath and the way back: the paths that a parent and a name stand for.
use pyxis.Prelude.{
  ℕ, suc, ◌<◌, Bytes, Bool, true, ◌&&◌, ◌||◌, [], ◌∷◌, ◌++◌, none, ◌≡◌, ◌≢◌, inl, inr, refl, sym,
  ap, ◌∙◌, arith, length, take, drop, length-append, take-length-append, rfind, rfind_split,
  rfind-append, Option-cases, beq, beq_iff, if◌then◌else◌, beq_refl, Bool-cases, ◌↔◌, subst,
}
use pyxis.Common.Status
use pyxis.Common.Status.{Status, is_ok}
use pyxis.Paths.{slash, root, split_path, Parts, is_empty, starts_at_root}

-- The names of children: not empty, with no slash.
pub record IsName (c : Bytes) : Type 0 where
  pub nonempty : c ≢ []
  pub no_slash : rfind slash c ≡ none

-- parent/son, as the children of a node are addressed.
unfoldable pub join : Bytes → Bytes → Bytes
join parent son = if beq parent root then slash ∷ son else parent ++ slash ∷ son

abbrev pub split_ok : Bytes → Bytes → Parts
split_ok parent son = record { status = Status.ok; parent = parent; son = son }

drop-suc-append : (a b : Bytes) (c : ℕ) → drop (suc (length a)) (a ++ c ∷ b) ≡ b
drop-suc-append [] b c = refl
drop-suc-append (x ∷ a) b c = drop-suc-append a b c

-- Splitting raw ++ "/" ++ son.
pub split_path-append :
    (raw son : Bytes)
    → IsName son
    → split_path (raw ++ slash ∷ son) ≡ split_ok (if is_empty raw then root else raw) son
unfolding split_path
split_path-append raw [] h = absurd (h.nonempty refl)
split_path-append raw (c ∷ son) h = rw (
  rfind-append slash raw (c ∷ son) h.no_slash,
  split_path,
  take-length-append raw (slash ∷ c ∷ son),
  drop-suc-append raw (c ∷ son) slash,
)

-- A successful split shows where the last slash is.
pub split_path_inv :
    (path : Bytes)
    → (split_path path).status ≡ Status.ok
    → (raw : Bytes) × (path ≡ raw ++ slash ∷ (split_path path).son)
      × ((split_path path).parent ≡ (if is_empty raw then root else raw))
      × IsName (split_path path).son
unfolding split_path
split_path_inv path h = elim (Option-cases (rfind slash path)) [
  | inl e ↦ absurd (ground arith)
  | inr (i, e) ↦ (
    take i path,
    ground (arith, rfind_split slash path i e),
    ground arith,
    record { nonempty = λ z. ground arith; no_slash = ground (arith, rfind_split slash path i e) },
  )
]

-- The paths that split into a parent and a name: parent/son, and for the root also //son.
unfoldable pub is_child : Bytes → Bytes → Bytes → Bool
is_child path parent son =
    beq path (join parent son) || (beq parent root && beq path (slash ∷ slash ∷ son))

pub split_path-join :
    (parent son : Bytes)
    → IsName son
    → parent ≢ []
    → split_path (join parent son) ≡ split_ok parent son
unfolding join
split_path-join [] son n h = absurd (h refl)
split_path-join (x ∷ p) son n h = elim (Bool-cases (beq (x ∷ p) root)) [
  | inl e ↦ rw e (split_path-append [] son n ∙ ap (λ r. split_ok r son) (sym ((beq_iff _ _).0 e)))
  | inr e ↦ rw e (split_path-append (x ∷ p) son n)
]

is_child-raw :
    (raw son : Bytes)
    → is_child (raw ++ slash ∷ son) (if is_empty raw then root else raw) son ≡ true
unfolding is_child join
is_child-raw [] son = ground (arith, beq_refl (slash ∷ son), beq_refl root)
is_child-raw (x ∷ raw) son = ground (
  arith,
  beq_refl ((x ∷ raw) ++ slash ∷ son),
  beq_iff (x ∷ raw) root,
  beq_refl (slash ∷ slash ∷ son),
)

split_path-is_child :
    (path parent son : Bytes)
    → IsName son
    → parent ≢ []
    → is_child path parent son ≡ true
    → split_path path ≡ split_ok parent son
unfolding is_child
split_path-is_child path parent son n h t = elim (Bool-cases (beq path (join parent son))) [
  | inl e ↦
      let at : path ≡ join parent son = (beq_iff path (join parent son)).0 e in
      rw at (split_path-join parent son n h)
  | inr e ↦
      let top : parent ≡ root = (beq_iff parent root).0 (ground arith) in
      let at : path ≡ slash ∷ slash ∷ son = (beq_iff path (slash ∷ slash ∷ son)).0 (ground arith) in
      rw (at, top) (split_path-append root son n)
]

-- For a name, which is not empty and has no slash, and a parent that is not empty: SplitPath succeeds
-- on a path and gives that parent and that name exactly where the path is the parent, joined with the
-- name by a slash that the root need not be given again, or, for the root, also two slashes and the
-- name.
pub is_child_iff :
    (path parent son : Bytes)
    → IsName son
    → parent ≢ []
    → (is_child path parent son ≡ true) ↔ (split_path path ≡ split_ok parent son)
is_child_iff path parent son n h = (
  split_path-is_child path parent son n h,
  λ e.
      let (raw, at, par, _) = split_path_inv path (ap (λ (p : Parts). p.status) e) in
      let own : son ≡ (split_path path).son = ap (λ (p : Parts). p.son) (sym e) in
      let up : parent ≡ (if is_empty raw then root else raw) =
        ap (λ (p : Parts). p.parent) (sym e) ∙ par in
      let at' : path ≡ raw ++ slash ∷ son = at ∙ ap (λ s. raw ++ slash ∷ s) (sym own) in
      subst (λ p. is_child p parent son ≡ true) (sym at')
        (subst (λ q. is_child (raw ++ slash ∷ son) q son ≡ true) (sym up) (is_child-raw raw son)),
)

length_pos : (s : Bytes) → s ≢ [] → 0 < length s
length_pos [] h = absurd (h refl)
length_pos (x ∷ s) h = omega arith

-- The parent is a prefix of a path that starts at the root, shorter than the path.
pub split_path-prefix :
    (path : Bytes)
    → starts_at_root path ≡ true
    → (split_path path).status ≡ Status.ok
    → (rest : Bytes) × (path ≡ (split_path path).parent ++ rest)
      × ((split_path path).parent ≢ [])
      × (length (split_path path).parent < length path)
split_path-prefix path v h = go (split_path_inv path h)
  where
    go :
        ((raw : Bytes) × (path ≡ raw ++ slash ∷ (split_path path).son)
          × ((split_path path).parent ≡ (if is_empty raw then root else raw))
          × IsName (split_path path).son)
        → (rest : Bytes) × (path ≡ (split_path path).parent ++ rest)
          × ((split_path path).parent ≢ [])
          × (length (split_path path).parent < length path)
    go ([], at, par, n) = (
      (split_path path).son,
      rw par at,
      rw par (λ z. cc),
      omega (arith, ap length at, ap length par, length_pos _ n.nonempty),
    )
    go (x ∷ raw, at, par, n) = (
      slash ∷ (split_path path).son,
      rw par at,
      rw par (λ z. cc),
      omega (
        arith,
        ap length at,
        ap length par,
        length-append (x ∷ raw) (slash ∷ (split_path path).son),
      ),
    )

-- A successful split returns OK itself.
pub split_path-ok :
    (path : Bytes) → is_ok (split_path path).status ≡ true → (split_path path).status ≡ Status.ok
unfolding split_path
split_path-ok path h = ground arith
