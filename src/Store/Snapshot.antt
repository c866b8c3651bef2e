-- ===== src/Store/Snapshot.antt =====
-- store.cc: TakeSnapshot, which copies the rows of the database to a new one in batches.
use pyxis.Prelude.{
  ℕ, ◌+◌, Bytes, Bool, List, [], ◌∷◌, ◌++◌, ◌≡◌, refl, sym, ap, ◌∙◌, arith, Bool-cases, inl, inr,
  if◌then◌else◌, leb, ltb, false, true, ◌&&◌,
}
use pyxis.Db.{Db, Op, Reply, Lookup}
use pyxis.Db.Laws.{IsLeveldb, after}
use pyxis.Store.{Run, returns, aborts}

abbrev pub is_done : Reply → Bool
is_done Reply.done = true
is_done (Reply.failed e) = false

abbrev pub batch_limit : ℕ
batch_limit = 1024

-- A batch that puts the given rows.
unfoldable pub puts : List (Bytes × Bytes) → List Op
puts [] = []
puts ((k, v) ∷ rows) = Op.put k v ∷ puts rows

module _ (d : Db) where
  -- The loop over the rows, and the write behind it, with the status of the last write.
  unfoldable pub copy_rows : List (Bytes × Bytes) → List Op → ℕ → d.State → Reply → d.State × Reply
  copy_rows [] batch count new st = if ltb 0 count then d.write new batch else (new, st)
  copy_rows ((k, v) ∷ rows) batch count new st =
      let batch' = batch ++ Op.put k v ∷ [] in
      let (written, reply) = d.write new batch' in
      let full = copy_rows rows [] 0 written reply in
      let more = copy_rows rows batch' (count + 1) new st in
      if leb batch_limit (count + 1) then full else more

  -- TakeSnapshot, of a database to one that was opened; SeekToFirst is Seek of the empty key. The
  -- CHECK looks at the last write and at the iterator.
  unfoldable pub take_snapshot : d.State → d.State → Run d.State
  unfolding copy_rows
  take_snapshot s opened =
      let (new, st) = copy_rows (d.seek s []) [] 0 opened Reply.done in
      if is_done st && is_done (d.scan_status s) then returns new else aborts

after-append :
    (k : Bytes) (a b : List Op) (r : Lookup) → after k (a ++ b) r ≡ after k b (after k a r)
after-append k [] b r = refl
after-append k (Op.put j v ∷ a) b r = after-append k a b _
after-append k (Op.delete j ∷ a) b r = after-append k a b _

module _ (d : Db) (l : IsLeveldb d)
    (writes : (s : d.State) (ops : List Op) → (d.write s ops).1 ≡ Reply.done) where
  -- The copy of the rows behind a batch that waits to be written.
  copied :
      (rows : List (Bytes × Bytes)) (batch : List Op) (count : ℕ) (new : d.State) (st : Reply)
      → st ≡ Reply.done
      → (ltb 0 count ≡ false → batch ≡ [])
      → ((copy_rows d rows batch count new st).1 ≡ Reply.done)
        × ((k : Bytes)
            → d.get (copy_rows d rows batch count new st).0 k
              ≡ after k (puts rows) (after k batch (d.get new k)))
  unfolding copy_rows puts
  copied [] batch count new st e h = elim (Bool-cases (ltb 0 count)) [
    | inl c ↦ (
      rw (c, copy_rows) (writes new batch),
      λ k. rw (c, copy_rows) (l.get-write new batch k (writes new batch)),
    )
    | inr c ↦ (rw (c, copy_rows) e, λ k. rw (c, h c, copy_rows) refl)
  ]
  copied ((j, v) ∷ rows) batch count new st e h =
      let batch' : List Op = batch ++ Op.put j v ∷ [] in
      let (full, full_get) =
        copied rows [] 0 (d.write new batch').0 (d.write new batch').1 (writes new batch')
          (λ z. refl) in
      let (more, more_get) = copied rows batch' (count + 1) new st e (λ z. absurd (ground arith)) in
      elim (Bool-cases (leb batch_limit (count + 1))) [
        | inl c ↦ (
          rw (c, copy_rows) full,
          λ k.
              rw (c, copy_rows)
                (full_get k
                  ∙ ap (λ r. after k (puts rows) r)
                      (l.get-write new batch' k (writes new batch')
                        ∙ after-append k batch (Op.put j v ∷ []) (d.get new k))),
        )
        | inr c ↦ (
          rw (c, copy_rows) more,
          λ k.
              rw (c, copy_rows)
                (more_get k
                  ∙ ap (λ r. after k (puts rows) r)
                      (after-append k batch (Op.put j v ∷ []) (d.get new k))),
        )
      ]

-- Where the writes to the new database succeed, the iterator ends well and yields every row of the
-- database, and the new one is empty when it is opened, TakeSnapshot does not abort, and the new
-- database answers Get as the old one does.
pub take_snapshot-get :
    (d : Db)
    → IsLeveldb d
    → ((s : d.State) (ops : List Op) → (d.write s ops).1 ≡ Reply.done)
    → (s opened : d.State)
    → ((k : Bytes) → d.get s k ≡ after k (puts (d.seek s [])) Lookup.not_found)
    → d.scan_status s ≡ Reply.done
    → ((k : Bytes) → d.get opened k ≡ Lookup.not_found)
    → (new : d.State) × (take_snapshot d s opened ≡ returns new)
      × ((k : Bytes) → d.get new k ≡ d.get s k)
unfolding take_snapshot
take_snapshot-get d l writes s opened whole scanned empty =
    let (done, gets) = copied d l writes (d.seek s []) [] 0 opened Reply.done refl (λ z. refl) in
    (
      (copy_rows d (d.seek s []) [] 0 opened Reply.done).0,
      ground (arith, done, scanned),
      λ k. gets k ∙ ap (λ r. after k (puts (d.seek s [])) r) (empty k) ∙ sym (whole k),
    )
