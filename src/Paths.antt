-- ===== src/Paths.antt =====
-- Paths of nodes: IsValidPath and SplitPath of server/store.cc.
pub mod Split
pub mod Valid
use pyxis.Prelude.{
  ℕ, suc, Bytes, Bool, true, false, not, ◌&&◌, ◌||◌, List, [], ◌∷◌, ◌++◌, Option, none, some, ltb,
  leb, ◌==◌, if◌then◌else◌, length, take, drop, rfind, codes, beq,
}
use pyxis.Common.Status
use pyxis.Common.Status.{Status}

abbrev pub slash : ℕ
slash = b'/'

abbrev pub root : Bytes
root = slash ∷ []

-- kMaxPathSize.
abbrev pub max_path_size : ℕ
max_path_size = 4096

-- std::isalnum in the C locale.
is_alnum : ℕ → Bool
is_alnum c = (leb b'0' c && leb c b'9') || (leb b'A' c && leb c b'Z') || (leb b'a' c && leb c b'z')

unfoldable pub invalid_char : ℕ → Bool
unfolding is_alnum
invalid_char c = not (is_alnum c || c == b'_' || c == b'/' || c == b'-' || c == b'.')

-- std::find_if(path.begin(), path.end(), invalidChar) == path.end().
unfoldable pub none_invalid : Bytes → Bool
none_invalid [] = true
none_invalid (c ∷ s) = not (invalid_char c) && none_invalid s

-- !path.empty() && path[0] == '/'.
unfoldable pub starts_at_root : Bytes → Bool
starts_at_root [] = false
starts_at_root (c ∷ s) = c == slash

unfoldable pub is_valid_path : Bytes → Bool
unfolding starts_at_root none_invalid
is_valid_path path = starts_at_root path && ltb (length path) max_path_size && none_invalid path

abbrev pub is_empty : Bytes → Bool
is_empty [] = true
is_empty (c ∷ s) = false

-- What SplitPath returns and leaves in its two results.
pub record Parts : Type 0 where
  pub status : Status
  pub parent : Bytes
  pub son : Bytes

-- The part behind the search for the last slash.
split_at : Bytes → Bytes → Bytes → Parts
split_at path parent son = record {
  status = if is_empty son then Status.invalid_argument path else Status.ok;
  parent = if is_empty parent then root else parent;
  son = son;
}

-- Without a slash the results stay the empty strings that every caller passes.
unfoldable pub split_path : Bytes → Parts
unfolding split_at
split_path path = elim (rfind slash path) [
  | none ↦ record { status = Status.invalid_argument path; parent = []; son = [] }
  | some i ↦ split_at path (take i path) (drop (suc i) path)
]
