-- ===== src/Paths/Valid.antt =====
-- Which paths are valid.
use pyxis.Prelude.{ℕ, Bytes, true, [], ◌∷◌, ◌++◌, ◌≡◌, refl, arith, length-append}
use pyxis.Paths.{is_valid_path, none_invalid, starts_at_root, invalid_char, root}

pub none_invalid-append : (s t : Bytes) → none_invalid (s ++ t) ≡ true → none_invalid s ≡ true
unfolding none_invalid
none_invalid-append [] t h = refl
none_invalid-append (c ∷ s) t h = ground (arith, none_invalid-append s t)

-- A nonempty prefix of a valid path is valid.
pub is_valid_path-prefix :
    (c : ℕ) (s t : Bytes) → is_valid_path ((c ∷ s) ++ t) ≡ true → is_valid_path (c ∷ s) ≡ true
unfolding is_valid_path
is_valid_path-prefix c s t h =
    ground (arith, none_invalid-append (c ∷ s) t, length-append (c ∷ s) t)

pub root-is_valid : is_valid_path root ≡ true
unfolding is_valid_path invalid_char
root-is_valid = refl

pub valid-starts_at_root : (path : Bytes) → is_valid_path path ≡ true → starts_at_root path ≡ true
unfolding is_valid_path
valid-starts_at_root path h = ground arith
