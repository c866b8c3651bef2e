-- ===== src/ProcDb/Registered.antt =====
-- Registering nodes keeps the maps of ProcDB in order.
use pyxis.Prelude.{Bytes, true, false, ◌&&◌, List, [], ◌∷◌, ◌≡◌, refl, ap, arith, beq, beq_iff}
use pyxis.Maps.{assign}
use pyxis.Maps.Keys.{bytes_key, bytes_lt}
use pyxis.ProcDb.{ProcDb, Reader, Writer, register_read_node, register_write_node, new_proc_db}
use pyxis.ProcDb.Routes.{above, ordered}

bytes_lt_trans : (s t u : Bytes) → bytes_lt s t ≡ true → bytes_lt t u ≡ true → bytes_lt s u ≡ true
unfolding bytes_lt
bytes_lt_trans s t [] h w = absurd (ground arith)
bytes_lt_trans s [] (z ∷ u) h w = absurd (ground arith)
bytes_lt_trans [] (y ∷ t) (z ∷ u) h w = ground arith
bytes_lt_trans (x ∷ s) (y ∷ t) (z ∷ u) h w = ground (arith, bytes_lt_trans s t u)

bytes_lt-total : (s t : Bytes) → beq s t ≡ false → bytes_lt s t ≡ false → bytes_lt t s ≡ true
unfolding bytes_lt beq
bytes_lt-total [] [] h w = absurd (ground arith)
bytes_lt-total [] (y ∷ t) h w = ground arith
bytes_lt-total (x ∷ s) [] h w = ground arith
bytes_lt-total (x ∷ s) (y ∷ t) h w = ground (arith, bytes_lt-total s t)

module _ {ℓ} {A : Type ℓ} where
  above_trans :
      (k j : Bytes) (m : List (Bytes × A))
      → bytes_lt k j ≡ true
      → above j m ≡ true
      → above k m ≡ true
  unfolding above
  above_trans k j [] h w = refl
  above_trans k j ((i, a) ∷ m) h w = ground (arith, above_trans k j m h, bytes_lt_trans k j i h)

  above-assign :
      (k j : Bytes) (a : A) (m : List (Bytes × A))
      → above k (assign j a m) ≡ (bytes_lt k j && above k m)
  unfolding above assign
  above-assign k j a [] = ground arith
  above-assign k j a ((i, b) ∷ m) =
      ground (arith, above-assign k j a m, beq_iff i j, ap (bytes_lt k), bytes_lt_trans k j i)

  ordered-assign :
      (j : Bytes) (a : A) (m : List (Bytes × A)) → ordered m ≡ true → ordered (assign j a m) ≡ true
  unfolding ordered above assign
  ordered-assign j a [] h = refl
  ordered-assign j a ((i, b) ∷ m) h = ground (
    arith,
    ordered-assign j a m,
    above-assign i j a m,
    above_trans j i m,
    bytes_lt-total i j,
    bytes_lt-total j i,
    beq_iff i j,
    ap (λ (s : Bytes). above s m),
  )

-- The constructor leaves maps whose keys ascend, and registering a node for reading or writing keeps
-- that.
pub register-ordered :
    (top path : Bytes) (db : ProcDb) (r : Reader) (w : Writer)
    → ordered db.readers ≡ true
    → ordered db.writers ≡ true
    → (ordered (new_proc_db top).readers ≡ true)
      × (ordered (register_read_node db path r).readers ≡ true)
      × (ordered (register_write_node db path w).readers ≡ true)
      × (ordered (register_write_node db path w).writers ≡ true)
unfolding new_proc_db register_read_node register_write_node ordered
register-ordered top path db r w h g = (
  ordered-assign _ Reader.on_proc_read [] refl,
  ordered-assign path r db.readers h,
  ordered-assign path Reader.empty_read db.readers h,
  ordered-assign path w db.writers g,
)
