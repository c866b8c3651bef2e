-- ===== src/Store/Parent.antt =====
-- The parent of a path outside the proc root is outside it too, and valid if the path is.
use pyxis.Prelude.{
  Bytes, true, false, [], ◌∷◌, ◌++◌, ◌≡◌, ◌≢◌, refl, sym, ap, ◌∙◌, arith, Bool-cases, inl, inr,
  append_assoc, subst, beq, beq_iff, append-nil,
}
use pyxis.Common.Status.{is_ok, is_invalid_argument}
use pyxis.Paths.{is_valid_path, split_path}
use pyxis.Paths.Split.{split_path-ok, split_path-prefix}
use pyxis.Paths.Valid.{is_valid_path-prefix, valid-starts_at_root}
use pyxis.Node.{Node}
use pyxis.Db.{Env}
use pyxis.Db.Laws.{IsEnv}
use pyxis.Store.{Store, under_proc, get}
use pyxis.Store.View.{IsOpen}

valid-prefix : (s t : Bytes) → s ≢ [] → is_valid_path (s ++ t) ≡ true → is_valid_path s ≡ true
valid-prefix [] t n h = absurd (n refl)
valid-prefix (c ∷ s) t n h = is_valid_path-prefix c s t h

module _ (env : Env) where
  -- Get refuses an invalid path before it reads.
  pub get-valid :
      (s : Store env) (path : Bytes) (n : Node)
      → is_invalid_argument (get env s path n).0 ≡ false
      → is_valid_path path ≡ true
  unfolding get
  get-valid s path n h = ground arith

  pub get-found :
      (s : Store env) (path : Bytes) (n : Node)
      → is_ok (get env s path n).0 ≡ true
      → is_valid_path path ≡ true
  unfolding get
  get-found s path n h = ground arith

  module _ (l : IsEnv env) where
    outside-prefix :
        (s : Store env) (p rest : Bytes)
        → under_proc env s (p ++ rest) ≡ false
        → under_proc env s p ≡ false
    outside-prefix s p rest h = elim (Bool-cases (under_proc env s p)) [
      | inr e ↦ e
      | inl e ↦
          let (r, at) = (l.starts_with_iff p s.proc_root).0 e in
          let inside : under_proc env s (p ++ rest) ≡ true =
            (l.starts_with_iff (p ++ rest) s.proc_root).1
              (r ++ rest, ap (λ q. q ++ rest) at ∙ append_assoc s.proc_root r rest) in
          cc
    ]

    pub parent-IsOpen :
        (s : Store env) (path : Bytes)
        → IsOpen env s path
        → is_ok (split_path path).status ≡ true
        → IsOpen env s (split_path path).parent
    parent-IsOpen s path (u, v) h =
        let (rest, at, n, _) =
          split_path-prefix path (valid-starts_at_root path v) (split_path-ok path h) in
        (
          outside-prefix s (split_path path).parent rest
              (subst (λ p. under_proc env s p ≡ false) at u),
          valid-prefix (split_path path).parent rest n (subst (λ p. is_valid_path p ≡ true) at v),
        )

    -- A path outside the proc root is not the proc root.
    pub outside-ne :
        (s : Store env) (path : Bytes)
        → under_proc env s path ≡ false
        → beq s.proc_root path ≡ false
    outside-ne s path h = ground (
      arith,
      beq_iff s.proc_root path,
      (l.starts_with_iff s.proc_root s.proc_root).1 ([], sym (append-nil s.proc_root)),
    )
