-- ===== src/Tree/Start.antt =====
-- The tree of a new store: the root, which lists the proc root.
use pyxis.Prelude.{
  Bytes, [], ◌∷◌, ◌≡◌, ◌≢◌, sym, ap, ◌∙◌, arith, beq, beq_iff, rfind, if◌then◌else◌, none,
}
use pyxis.Paths.{root, slash}
use pyxis.Paths.Split.{join, IsName}
use pyxis.Node.{Node}
use pyxis.Node.Children.{count}
use pyxis.Tree.{Slots, vacant, holds, present, children_of, IsTree}

leading-slash : (s : Bytes) → rfind slash (slash ∷ s) ≢ none
unfolding rfind
leading-slash s h = ground arith

module _ (name : Bytes) (at : Slots) (node : Node) (good : IsName name)
    (lists : node.children ≡ name ∷ [])
    (only : (k : Bytes) → at k ≡ (if beq root k then holds node else vacant)) where
  only_root : (p : Bytes) (n : Node) → at p ≡ holds n → root ≡ p
  only_root p n h = ground (arith, only p, beq_iff root p)

  not-doubled : (c : Bytes) → name ≢ slash ∷ c
  not-doubled c e = leading-slash c (ap (rfind slash) (sym e) ∙ good.no_slash)

  counted-start :
      (c : Bytes) → IsName c → count c (name ∷ []) ≡ children_of (slash ∷ name) at root c
  unfolding count children_of present join beq
  counted-start c h = ground (
    arith,
    only (slash ∷ c),
    only (slash ∷ slash ∷ c),
    beq_iff name c,
    beq_iff name (slash ∷ c),
    not-doubled c,
    beq_iff [] c,
    h.nonempty,
  )

  pub start-IsTree : IsTree (slash ∷ name) at
  start-IsTree = record {
    readable = λ p. ground (arith, only p);
    splits = λ p n h r. absurd (r (sym (only_root p n h)));
    has_parent = λ p n h r. absurd (r (sym (only_root p n h)));
    counted = λ q c n h e.
        let top : root ≡ q = only_root q n e in
        let own : node ≡ n = ground (arith, only q, e, top) in
        ap (λ (m : Node). count c m.children) (sym own)
        ∙ ap (count c) lists
        ∙ counted-start c h
        ∙ ap (λ p. children_of (slash ∷ name) at p c) top;
  }
