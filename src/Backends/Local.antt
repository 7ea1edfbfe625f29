-- ===== src/Backends/Local.antt =====
-- mindin/backends/local.py: a vault in a folder of the file system. The disk is the tree below the
-- root, with no symbolic links; `digest` stands for MD5 and `folder_version` for what the file system
-- reports of a folder.
pub mod Paths
pub mod Laws
pub mod Guards
pub mod Calm
use notes_vault_mcp.Prelude.{
  ℕ, Text, codes, text_eq, Result, ok, err, Error, not_found, version_conflict, vault_error,
  os_error, value_error, Done, ◌>>=◌, Bool, true, false, not, ◌&&◌, ◌||◌, Option, none, some, List,
  [], ◌∷◌, ◌++◌, map, any, keep, length, if◌then◌else◌,
}
use notes_vault_mcp.Prelude.Strings.{text_in, starts_with, rstrip, is_slash}
use notes_vault_mcp.Prelude.Dict
use notes_vault_mcp.Prelude.Dict.{Dict}
use notes_vault_mcp.Backends.{Entry, Backend, must_not_exist, is_vault_key, sort_entries}
use Paths.{joined, path_of, ancestors, is_root}

-- Files by their path below the root, and the folders below it.
pub record Disk : Type 0 where
  pub files : Dict Text
  pub folders : List Text

-- expected_version == MUST_NOT_EXIST or the version that is there, as `put_checked` compares them.
differs : Text → Option Text → Bool
differs expected none = not (text_eq expected must_not_exist)
differs expected (some current) =
    if text_eq expected must_not_exist then true else not (text_eq current expected)

-- self.current_version(key) == expected_version
is_version : Option Text → Text → Bool
is_version none expected = false
is_version (some current) expected = text_eq current expected

-- What the code takes from the outside: the absolute path of the root, the hash, the codec.
pub record Outside : Type 0 where
  pub root : List Text
  pub digest : Text → Text
  pub folder_version : Disk → Text → Text
  pub encode : Text → Text
  pub decode : Text → Option Text

module _ (o : Outside) where
  is_folder : Disk → List Text → Bool
  is_folder d path = is_root path || text_in (joined path) d.folders

  -- A file where a folder would have to be: the system refuses the path (`NotADirectoryError`).
  is_blocked : Disk → List Text → Bool
  is_blocked d path = any (Dict.has_key d.files) (ancestors (joined path))

  read_bytes : Disk → List Text → Result Text
  unfolding is_folder is_blocked
  read_bytes d path =
      if is_folder d path
      then err not_found
      else if is_blocked d path
      then err os_error
      else elim (Dict.get d.files (joined path)) [
        | none ↦ err not_found
        | some content ↦ ok content
      ]

  pub get_bytes : Disk → Text → Result (Text × Text)
  unfolding read_bytes
  get_bytes d key = do
    path ← path_of o.root key
    content ← read_bytes d path
    ok (content, o.digest content)

  abbrev decoded : Text → Option Text → Result (Text × Text)
  decoded version none = err value_error
  decoded version (some text) = ok (text, version)

  unfoldable pub get : Disk → Text → Result (Text × Text)
  unfolding get_bytes
  get d key = do (content, version) ← get_bytes d key; decoded version (o.decode content)

  -- The version of what is at the path; `none` where nothing is.
  current_at : Disk → List Text → Result (Option Text)
  unfolding is_folder is_blocked
  current_at d path =
      if is_folder d path
      then ok (some (o.folder_version d (joined path)))
      else if is_blocked d path
      then err os_error
      else elim (Dict.get d.files (joined path)) [
        | none ↦ ok none
        | some content ↦ ok (some (o.digest content))
      ]

  pub current_version : Disk → Text → Result (Option Text)
  unfolding current_at
  current_version d key = do path ← path_of o.root key; current_at d path

  -- path.parent.mkdir(parents=True, exist_ok=True)
  make_folders : Disk → List Text → Disk
  make_folders d path = record d {
    folders = d.folders ++ keep (λ p. not (text_in p d.folders)) (ancestors (joined path));
  }

  -- path.mkdir(parents=True, exist_ok=True)
  make_all_folders : Disk → List Text → Disk
  make_all_folders d path =
      let wanted = if is_root path then [] else ancestors (joined path ++ codes "/") in
      record d { folders = d.folders ++ keep (λ p. not (text_in p d.folders)) wanted }

  write_at : Disk → List Text → Text → Result Text × Disk
  unfolding is_folder is_blocked make_folders
  write_at d path content =
      if is_blocked d path
      then (err os_error, d)
      else let d' = make_folders d path in
        if is_folder d' path
        then (err os_error, d')
        else (ok (o.digest content), record d' { files = Dict.put d'.files (joined path) content })

  pub put_bytes : Disk → Text → Text → Result Text × Disk
  unfolding write_at
  put_bytes d key content = elim (path_of o.root key) [
    | err x ↦ (err x, d)
    | ok path ↦ write_at d path content
  ]

  pub put_checked : Disk → Text → Text → Option Text → Result Text × Disk
  unfolding current_version put_bytes differs
  put_checked d key content none = put_bytes d key content
  put_checked d key content (some expected) = elim (current_version d key) [
    | err x ↦ (err x, d)
    | ok current ↦
        if differs expected current then (err version_conflict, d) else put_bytes d key content
  ]

  unfoldable pub put : Disk → Text → Text → Option Text → Result Text × Disk
  unfolding put_checked
  put d key text expected = put_checked d key (o.encode text) expected

  pub mkdir : Disk → Text → Result Done × Disk
  unfolding is_blocked make_all_folders
  mkdir d key = elim (path_of o.root (rstrip is_slash key)) [
    | err x ↦ (err x, d)
    | ok path ↦
        if is_blocked d path || Dict.has_key d.files (joined path)
        then (err os_error, d)
        else (ok tt, make_all_folders d path)
  ]

  -- Whether a folder holds anything.
  is_filled : Disk → List Text → Bool
  is_filled d path =
      let below = λ (p : Text). starts_with p (joined path ++ codes "/") in
      any below (Dict.keys d.files) || any below d.folders

  delete_at : Disk → List Text → Result Done × Disk
  unfolding is_folder is_blocked is_filled
  delete_at d path =
      if is_root path
      then (err vault_error, d)
      else if is_folder d path
      then (if is_filled d path
          then (err vault_error, d)
          else (ok tt, record d { folders = keep (λ p. not (text_eq p (joined path))) d.folders }))
      else if is_blocked d path
      then (err os_error, d)
      else if Dict.has_key d.files (joined path)
      then (ok tt, record d { files = Dict.remove d.files (joined path) })
      else (err not_found, d)

  unfoldable pub delete : Disk → Text → Result Done × Disk
  unfolding delete_at
  delete d key = elim (path_of o.root key) [ err x ↦ (err x, d) | ok path ↦ delete_at d path ]

  unfoldable pub delete_checked : Disk → Text → Text → Result Done × Disk
  unfolding current_version delete is_version
  delete_checked d key expected = elim (current_version d key) [
    | err x ↦ (err x, d)
    | ok current ↦ if is_version current expected then delete d key else (err version_conflict, d)
  ]

  -- source.replace(target), after the folders of the target are made.
  replace_at : Disk → List Text → List Text → Text → Result Done × Disk
  unfolding is_folder is_blocked make_folders
  replace_at d source target content =
      if is_blocked d target
      then (err os_error, d)
      else let d' = make_folders d target in
        if is_folder d' target then (err os_error, d') else (
          ok tt,
          record d' {
            files = Dict.put (Dict.remove d'.files (joined source)) (joined target) content;
          },
        )

  move_at : Disk → List Text → List Text → Result Done × Disk
  unfolding is_folder is_blocked replace_at
  move_at d source target =
      if is_folder d source
      then (err vault_error, d)
      else if is_blocked d source
      then (err not_found, d)
      else elim (Dict.get d.files (joined source)) [
        | none ↦ (err not_found, d)
        | some content ↦ replace_at d source target content
      ]

  unfoldable pub move : Disk → Text → Text → Result Done × Disk
  unfolding move_at
  move d src dst = elim (path_of o.root src) [
    | err x ↦ (err x, d)
    | ok source ↦ elim (path_of o.root dst) [
      | err x ↦ (err x, d)
      | ok target ↦ move_at d source target
    ]
  ]

  entry_of : Text × Text → Entry
  entry_of (key, content) = record { key = key; version = o.digest content; size = length content }

  -- sorted(entries, key=lambda entry: entry.key)
  unfoldable pub list : Disk → List Entry
  unfolding entry_of
  list d = sort_entries (map entry_of (keep (λ (file : Text × Text). is_vault_key file.0) d.files))
