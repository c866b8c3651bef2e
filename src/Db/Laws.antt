-- ===== src/Db/Laws.antt =====
-- The documented behaviour of leveldb, protobuf and toft that theorems assume.
use pyxis.Prelude.{
  ℕ, Bytes, true, List, [], ◌∷◌, ◌++◌, some, ◌≡◌, ◌↔◌, beq, if◌then◌else◌, ◌≢◌, ap, sym, ◌∙◌,
  beq_refl,
}
use pyxis.Node.{Node}
use pyxis.Paths.{slash, root}
use pyxis.Db.{Db, Env, Lookup, Reply, Op}

-- What a read finds after a batch, whose operations apply in order.
abbrev pub after : Bytes → List Op → Lookup → Lookup
after k [] r = r
after k (Op.put j v ∷ ops) r = after k ops (if beq j k then Lookup.value v else r)
after k (Op.delete j ∷ ops) r = after k ops (if beq j k then Lookup.not_found else r)

-- A batch is atomic: it applies as a whole, or it fails and changes nothing.
pub record IsLeveldb (d : Db) : Type 0 where
  pub get-write :
      (s : d.State) (ops : List Op) (k : Bytes)
      → (d.write s ops).1 ≡ Reply.done
      → d.get (d.write s ops).0 k ≡ after k ops (d.get s k)
  pub failed_write :
      (s : d.State) (ops : List Op) (k : Bytes)
      → (d.write s ops).1 ≢ Reply.done
      → d.get (d.write s ops).0 k ≡ d.get s k
  pub put_write : (s : d.State) (k v : Bytes) → d.put s k v ≡ d.write s (Op.put k v ∷ [])
  pub delete_write : (s : d.State) (k : Bytes) → d.delete s k ≡ d.write s (Op.delete k ∷ [])

-- A node can always be encoded, since it has no required field, and is read back unchanged;
-- `starts_with s p` tells whether `p` is a prefix of `s`, and `trim_left` drops the leading
-- characters of a set.
pub record IsEnv (env : Env) : Type 0 where
  pub leveldb : IsLeveldb env.persist_db
  pub round_trip : (n : Node) → (b : Bytes) × (env.serialize n ≡ some b) × (env.parse b ≡ (true, n))
  pub starts_with_iff :
      (s p : Bytes) → (env.starts_with s p ≡ true) ↔ ((rest : Bytes) × (s ≡ p ++ rest))
  pub trim_left_root : (c : ℕ) (s : Bytes) → c ≢ slash → env.trim_left (slash ∷ c ∷ s) root ≡ c ∷ s

-- A Put that succeeds is read back.
pub get-put :
    (d : Db) (l : IsLeveldb d) (s : d.State) (k v : Bytes)
    → (d.put s k v).1 ≡ Reply.done
    → d.get (d.put s k v).0 k ≡ Lookup.value v
get-put d l s k v h =
    let named : (d.write s (Op.put k v ∷ [])).1 ≡ Reply.done =
      ap (λ (w : d.State × Reply). w.1) (sym (l.put_write s k v)) ∙ h in
    ap (λ (w : d.State × Reply). d.get w.0 k) (l.put_write s k v)
    ∙ l.get-write s (Op.put k v ∷ []) k named
    ∙ ap (λ b. if b then Lookup.value v else d.get s k) (beq_refl k)
