-- ===== src/Tests/Memory.antt =====
-- A concrete database and codec that meet the assumed laws: the log of the operations written,
-- read from the end, and lengths in front of texts.
use pyxis.Prelude.{
  ℕ, zero, suc, Bytes, Bool, true, false, List, [], ◌∷◌, ◌++◌, some, ◌≡◌, ◌↔◌, refl, arith, length,
  take, drop, take-length-append, drop-length-append, ◌==◌, ◌&&◌, if◌then◌else◌, ◌||◌,
}
use pyxis.Node.{Node}
use pyxis.Node
use pyxis.Db.{Db, Env, Lookup, Reply, Op}
use pyxis.Db.Laws.{IsLeveldb, IsEnv, after}

abbrev pub log_db : Db
log_db = record {
  State = List Op;
  get = λ s k. after k s Lookup.not_found;
  put = λ s k v. (s ++ Op.put k v ∷ [], Reply.done);
  delete = λ s k. (s ++ Op.delete k ∷ [], Reply.done);
  write = λ s ops. (s ++ ops, Reply.done);
  seek = λ s k. [];
  scan_status = λ s. Reply.done;
}

pub after-append :
    (k : Bytes) (s t : List Op) (r : Lookup) → after k (s ++ t) r ≡ after k t (after k s r)
after-append k [] t r = refl
after-append k (Op.put j v ∷ s) t r = after-append k s t _
after-append k (Op.delete j ∷ s) t r = after-append k s t _

pub log_db-IsLeveldb : IsLeveldb log_db
log_db-IsLeveldb = record {
  get-write = λ s ops k h. after-append k s ops Lookup.not_found;
  failed_write = λ s ops k h. absurd (h refl);
  put_write = λ s k v. refl;
  delete_write = λ s k. refl;
}

encode_names : List Bytes → Bytes
encode_names [] = []
encode_names (c ∷ cs) = length c ∷ (c ++ encode_names cs)

decode_names : ℕ → Bytes → List Bytes
decode_names zero s = []
decode_names (suc n) [] = []
decode_names (suc n) (k ∷ s) = take k s ∷ decode_names n (drop k s)

decode-encode_names : (cs : List Bytes) → decode_names (length cs) (encode_names cs) ≡ cs
unfolding encode_names decode_names
decode-encode_names [] = refl
decode-encode_names (c ∷ cs) = rw (
  take-length-append c (encode_names cs),
  drop-length-append c (encode_names cs),
  decode-encode_names cs,
)

unfoldable pub encode : Node → Bytes
unfolding encode_names
encode n =
    n.flags
    ∷ n.version
    ∷ n.sid
    ∷ length n.children
    ∷ length n.content
    ∷ (n.content ++ encode_names n.children)

unfoldable pub decode : Bytes → Bool × Node
unfolding decode_names
decode (f ∷ v ∷ i ∷ c ∷ k ∷ s) = (
  true,
  record {
    content = take k s;
    children = decode_names c (drop k s);
    flags = f;
    version = v;
    sid = i;
  },
)
decode _ = (false, Node.empty)

decode-encode : (n : Node) → decode (encode n) ≡ (true, n)
unfolding encode decode
decode-encode n = rw (
  take-length-append n.content (encode_names n.children),
  drop-length-append n.content (encode_names n.children),
  decode-encode_names n.children,
)

unfoldable pub starts_with : Bytes → Bytes → Bool
starts_with s [] = true
starts_with [] (x ∷ p) = false
starts_with (y ∷ s) (x ∷ p) = (y == x) && starts_with s p

pub starts_with_iff : (s p : Bytes) → (starts_with s p ≡ true) ↔ ((rest : Bytes) × (s ≡ p ++ rest))
unfolding starts_with
starts_with_iff s [] = (λ _. (s, refl), λ _. refl)
starts_with_iff [] (x ∷ p) =
    (λ h. absurd (ground arith), λ h. let (r, e) = h in absurd (ground (arith, e)))
starts_with_iff (y ∷ s) (x ∷ p) = (
  λ h. let (r, e) = (starts_with_iff s p).0 (ground arith) in (r, ground (arith, e)),
  λ h.
      let (r, e) = h in
      let rest : starts_with s p ≡ true = (starts_with_iff s p).1 (r, ground (arith, e)) in
      ground (arith, e, rest),
)

has : Bytes → ℕ → Bool
has [] x = false
has (y ∷ set) x = (y == x) || has set x

unfoldable pub trim_left : Bytes → Bytes → Bytes
unfolding has
trim_left [] set = []
trim_left (x ∷ s) set = if has set x then trim_left s set else x ∷ s

-- A node size of up to 1 KB.
abbrev pub env : Env
env = record {
  persist_db = log_db;
  proc_db = log_db;
  serialize = λ n. some (encode n);
  parse = decode;
  byte_size = λ n. length (encode n);
  serialize_session = λ s. [];
  parse_session = λ b. record { sid = 0; watches = []; nodes = []; timeout = 0 };
  starts_with = starts_with;
  trim_left = trim_left;
  max_node_size = 1;
}

pub env-IsEnv : IsEnv env
unfolding trim_left
env-IsEnv = record {
  leveldb = log_db-IsLeveldb;
  round_trip = λ n. (encode n, refl, decode-encode n);
  starts_with_iff = starts_with_iff;
  trim_left_root = λ c s h. ground arith;
}
