-- ===== src/Tests/Slots.antt =====
-- A concrete database that keeps a few keys, with the iterator over its rows in order.
use pyxis.Prelude.{
  Bytes, codes, Bool, true, false, List, [], ◌∷◌, ◌++◌, ◌≡◌, refl, sym, arith, Bool-cases, inl, inr,
  beq, beq_iff, ◌&&◌, ◌||◌, if◌then◌else◌, Every, nothing, also, ◌≢◌,
}
use mathlib.Core.List.{Memᴰ}
use pyxis.Maps.Keys.{bytes_lt}
use pyxis.Paths.{root}
use pyxis.Db.{Db, Env, Lookup, Reply, Op}
use pyxis.Db.Laws.{IsLeveldb, IsEnv, after}
use pyxis.Replica.Reload.{Rows}
use pyxis.Replica.Loaded.{Ascends, ends, below}
use pyxis.Store.Saved.{session_key, commit_prefix}
use pyxis.Tests.Memory.{after-append, env, env-IsEnv}

-- The root, a node /e, the commit index and the session 7.
unfoldable pub slots : List Bytes
unfolding session_key
slots = root ∷ codes "/e" ∷ commit_prefix ∷ session_key 7 ∷ []

unfoldable pub is_slot : List Bytes → Bytes → Bool
is_slot [] k = false
is_slot (j ∷ js) k = beq j k || is_slot js k

unfoldable all_slots : List Op → Bool
unfolding is_slot slots
all_slots [] = true
all_slots (Op.put k v ∷ ops) = is_slot slots k && all_slots ops
all_slots (Op.delete k ∷ ops) = is_slot slots k && all_slots ops

unfoldable pub kept : List Op → Bytes → Lookup
unfolding is_slot slots
kept s k = if is_slot slots k then after k s Lookup.not_found else Lookup.not_found

-- Other keys are refused.
unfoldable pub write_slots : List Op → List Op → List Op × Reply
unfolding all_slots
write_slots s ops = if all_slots ops then (s ++ ops, Reply.done) else (s, Reply.failed [])

abbrev with_row : Lookup → Bytes → Rows → Rows
with_row (Lookup.value b) k rest = (k, b) ∷ rest
with_row Lookup.not_found k rest = rest
with_row (Lookup.failed e) k rest = rest

unfoldable pub rows_from : Bytes → List Op → List Bytes → Rows
unfolding kept
rows_from start s [] = []
rows_from start s (k ∷ ks) =
    let rest = rows_from start s ks in if bytes_lt k start then rest else with_row (kept s k) k rest

abbrev pub slot_db : Db
slot_db = record {
  State = List Op;
  get = kept;
  put = λ s k v. write_slots s (Op.put k v ∷ []);
  delete = λ s k. write_slots s (Op.delete k ∷ []);
  write = write_slots;
  seek = λ s k. rows_from k s slots;
  scan_status = λ s. Reply.done;
}

untouched :
    (k : Bytes) (ops : List Op)
    → is_slot slots k ≡ false
    → all_slots ops ≡ true
    → after k ops Lookup.not_found ≡ Lookup.not_found
unfolding all_slots
untouched k [] h g = refl
untouched k (Op.put j v ∷ ops) h g = ground (arith, h, g, beq_iff j k, untouched k ops h)
untouched k (Op.delete j ∷ ops) h g = ground (arith, h, g, beq_iff j k, untouched k ops h)

kept-write_slots :
    (s ops : List Op) (k : Bytes)
    → (write_slots s ops).1 ≡ Reply.done
    → kept (write_slots s ops).0 k ≡ after k ops (kept s k)
unfolding write_slots kept
kept-write_slots s ops k h = elim (Bool-cases (all_slots ops)) [
  | inr z ↦ absurd (ground (arith, h, z))
  | inl z ↦ elim (Bool-cases (is_slot slots k)) [
    | inl y ↦ rw (z, y) (after-append k s ops Lookup.not_found)
    | inr y ↦ rw (z, y) (sym (untouched k ops y z))
  ]
]

refused :
    (s ops : List Op) (k : Bytes)
    → (write_slots s ops).1 ≢ Reply.done
    → kept (write_slots s ops).0 k ≡ kept s k
unfolding write_slots
refused s ops k h = elim (Bool-cases (all_slots ops)) [
  | inl z ↦ absurd (ground (arith, h, z))
  | inr z ↦ rw z refl
]

slot_db-IsLeveldb : IsLeveldb slot_db
slot_db-IsLeveldb = record {
  get-write = kept-write_slots;
  failed_write = refused;
  put_write = λ s k v. refl;
  delete_write = λ s k. refl;
}

with_row-above :
    (j : Bytes) (x : Lookup) (k : Bytes) (rest : Rows)
    → bytes_lt j k ≡ true
    → Every (λ (r : Bytes × Bytes). bytes_lt j r.0 ≡ true) rest
    → Every (λ (r : Bytes × Bytes). bytes_lt j r.0 ≡ true) (with_row x k rest)
with_row-above j (Lookup.value b) k rest p h = also p h
with_row-above j Lookup.not_found k rest p h = h
with_row-above j (Lookup.failed e) k rest p h = h

with_row-Ascends :
    (x : Lookup) (k : Bytes) (rest : Rows)
    → Every (λ (r : Bytes × Bytes). bytes_lt k r.0 ≡ true) rest
    → Ascends rest
    → Ascends (with_row x k rest)
with_row-Ascends (Lookup.value b) k rest p h = below p h
with_row-Ascends Lookup.not_found k rest p h = h
with_row-Ascends (Lookup.failed e) k rest p h = h

mem-with_row :
    (x : Lookup) (k : Bytes) (rest : Rows) (r : Bytes × Bytes)
    → Memᴰ r rest
    → Memᴰ r (with_row x k rest)
mem-with_row (Lookup.value b) k rest r m = Memᴰ.tail m
mem-with_row Lookup.not_found k rest r m = m
mem-with_row (Lookup.failed e) k rest r m = m

rows_above :
    (j start : Bytes) (s : List Op) (ks : List Bytes)
    → Every (λ k. bytes_lt j k ≡ true) ks
    → Every (λ (r : Bytes × Bytes). bytes_lt j r.0 ≡ true) (rows_from start s ks)
unfolding rows_from
rows_above j start s [] h = nothing
rows_above j start s (k ∷ ks) (also p h) =
    let rest = rows_above j start s ks h in
    elim (Bool-cases (bytes_lt k start)) [
      | inl z ↦ rw z rest
      | inr z ↦ rw z (with_row-above j (kept s k) k (rows_from start s ks) p rest)
    ]

data Rises : List Bytes → Type 0 where
  none_left : Rises []
  before :
      {k : Bytes} {ks : List Bytes}
      → Every (λ j. bytes_lt k j ≡ true) ks
      → Rises ks
      → Rises (k ∷ ks)

rows_from-Ascends :
    (start : Bytes) (s : List Op) (ks : List Bytes) → Rises ks → Ascends (rows_from start s ks)
unfolding rows_from
rows_from-Ascends start s [] h = ends
rows_from-Ascends start s (k ∷ ks) (before above h) =
    let rest = rows_from-Ascends start s ks h in
    elim (Bool-cases (bytes_lt k start)) [
      | inl z ↦ rw z rest
      | inr z ↦ rw z (
          with_row-Ascends (kept s k) k (rows_from start s ks) (rows_above k start s ks above) rest)
    ]

slots-Rises : Rises slots
unfolding slots bytes_lt
slots-Rises =
    before (also refl (also refl (also refl nothing))) (
      before (also refl (also refl nothing))
        (before (also refl nothing) (before nothing none_left)))

row_there :
    (start : Bytes) (s : List Op) (k b : Bytes) (ks : List Bytes)
    → is_slot ks k ≡ true
    → kept s k ≡ Lookup.value b
    → bytes_lt k start ≡ false
    → Memᴰ (k, b) (rows_from start s ks)
unfolding is_slot rows_from
row_there start s k b [] m h g = absurd (ground (arith, m))
row_there start s k b (j ∷ ks) m h g = elim (Bool-cases (beq j k)) [
  | inl z ↦ let same : j ≡ k = (beq_iff j k).0 z in rw (same, g, h) (Memᴰ.head refl)
  | inr z ↦
      let rest = row_there start s k b ks (ground (arith, m, z)) h g in
      elim (Bool-cases (bytes_lt j start)) [
        | inl y ↦ rw y rest
        | inr y ↦ rw y (mem-with_row (kept s j) j (rows_from start s ks) (k, b) rest)
      ]
]

pub seek-Ascends : (s : List Op) → Ascends (slot_db.seek s root)
seek-Ascends s = rows_from-Ascends root s slots slots-Rises

pub seek_complete :
    (s : List Op) (k b : Bytes)
    → slot_db.get s k ≡ Lookup.value b
    → bytes_lt k root ≡ false
    → Memᴰ (k, b) (slot_db.seek s root)
unfolding kept
seek_complete s k b h g = elim (Bool-cases (is_slot slots k)) [
  | inl z ↦ row_there root s k b slots z h g
  | inr z ↦ absurd (ground (arith, h, z))
]

abbrev pub slot_env : Env
slot_env = record env { persist_db = slot_db }

pub slot_env-IsEnv : IsEnv slot_env
slot_env-IsEnv = record {
  leveldb = slot_db-IsLeveldb;
  round_trip = env-IsEnv.round_trip;
  starts_with_iff = env-IsEnv.starts_with_iff;
  trim_left_root = env-IsEnv.trim_left_root;
}
