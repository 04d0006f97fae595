-- ===== src/Proto/Socket.antt =====
-- crates/lightwatch-proto/src/socket.rs, and the search of crates/lightwatch-probe/src/emit.rs for a
-- socket. A path is a text; what the standard library does on paths is a parameter.
use lightwatch.Base.{
  Bool, not, ◌&&◌, List, [], ◌∷◌, Option, none, some, if◌then◌else◌, Text, key_eq, text_key,
}

abbrev pub socket_file : Text
socket_file =
    b'l' ∷ b'i' ∷ b'g' ∷ b'h' ∷ b't' ∷ b'w' ∷ b'a' ∷ b't' ∷ b'c' ∷ b'h' ∷ b'.' ∷ b's' ∷ b'o' ∷ b'c'
    ∷ b'k' ∷ []

abbrev pub socket_folder : Text
socket_folder = b'l' ∷ b'i' ∷ b'g' ∷ b'h' ∷ b't' ∷ b'w' ∷ b'a' ∷ b't' ∷ b'c' ∷ b'h' ∷ []

-- `Path::join`, whether a path has the extension `sock`, and the order of paths.
pub record Paths : Type 0 where
  pub join : Text → Text → Text
  pub has_sock : Text → Bool
  pub is_before : Text → Text → Bool

module _ (paths : Paths) where
  open paths use {join, has_sock, is_before}

  abbrev pub runtime_dir : Option Text → Text → Text
  runtime_dir none temp_dir = join temp_dir socket_folder
  runtime_dir (some runtime) temp_dir = join runtime socket_folder

  abbrev pub macos_dir : Bool → Option Text → Option Text → Text → Text
  macos_dir on_macos none xdg_runtime temp_dir = runtime_dir xdg_runtime temp_dir
  macos_dir on_macos (some tmpdir) xdg_runtime temp_dir =
      if on_macos then join tmpdir socket_folder else runtime_dir xdg_runtime temp_dir

  unfoldable pub resolve_socket_dir : Option Text → Option Text → Option Text → Bool → Text → Text
  resolve_socket_dir (some explicit) tmpdir xdg_runtime on_macos temp_dir = explicit
  resolve_socket_dir none tmpdir xdg_runtime on_macos temp_dir =
      macos_dir on_macos tmpdir xdg_runtime temp_dir

  unfoldable pub place_path : Text → List Text → List Text
  place_path p [] = p ∷ []
  place_path p (q ∷ rest) =
      let later = place_path p rest in if is_before q p then q ∷ later else p ∷ q ∷ rest

  unfoldable pub sort_paths : List Text → List Text
  unfolding place_path
  sort_paths [] = []
  sort_paths (p ∷ rest) = place_path p (sort_paths rest)

  -- The other sockets of the directory.
  unfoldable pub other_sockets : Text → List Text → List Text
  other_sockets first [] = []
  other_sockets first (p ∷ rest) =
      let later = other_sockets first rest in
      if has_sock p && not (key_eq p first) then p ∷ later else later

  abbrev pub found_in : Text → Option (List Text) → List Text
  found_in first none = []
  found_in first (some entries) = sort_paths (other_sockets first entries)

  -- Over the entries of the directory, where it can be read.
  unfoldable pub candidate_sockets : Text → Option (List Text) → Option Text → List Text
  unfolding sort_paths other_sockets
  candidate_sockets dir entries (some explicit) = explicit ∷ []
  candidate_sockets dir entries none =
      join dir socket_file ∷ found_in (join dir socket_file) entries
