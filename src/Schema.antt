-- ===== src/Schema.antt =====
-- mindin/schema.py: what the rest of the program asks a loaded schema for. The YAML data is read into
-- a record; `log_file` is the name that the configured format gives a repo's log.
use notes_vault_mcp.Prelude.{
  ℕ, Text, codes, text_eq, Result, ok, err, no_home, Bool, ◌||◌, Option, none, some, List, [], ◌∷◌,
  ◌++◌, map, any, keep, length, leb, if◌then◌else◌,
}
use notes_vault_mcp.Prelude.Strings.{starts_with, text_in, has, before, before_last, slash}

pub record Folder : Type 0 where
  pub name : Text
  pub kind : Text
  pub searched : Bool

pub record Schema : Type 0 where
  pub folders : List Folder
  pub required_fields : List Text
  pub area_required_in : List Text
  pub status_values : List Text
  pub kind_values : List Text
  pub priority_values : List Text
  pub tag_vocabulary : List Text
  pub tags_strict : Bool
  -- log.folder and backlog.folder with their slashes stripped, "" where they are not set
  pub log_configured : Text
  pub backlog_configured : Text
  pub log_file : Text → Text
  pub log_entry : Text → Text → Text → Text → Text → Text
  pub task_sections : List (Text × Text)
  pub stale_after_days : ℕ

abbrev names : List Folder → List Text
names folders = map (λ (f : Folder). f.name) folders

unfoldable pub folders_of_kind : Schema → Text → List Text
unfolding text_eq
folders_of_kind schema kind = names (keep (λ f. text_eq f.kind kind) schema.folders)

-- f"{folder}/", as a prefix of a key
abbrev pub inside : Text → Text → Bool
inside key folder = starts_with key (folder ++ codes "/")

-- max(names, key=len): the first of the longest
longest : Text → List Text → Text
longest best [] = best
longest best (name ∷ more) = longest (if leb (length name) (length best) then best else name) more

or_first : Text → List Text → Text
unfolding longest
or_first directory [] = before slash directory
or_first directory (name ∷ more) = longest name more

unfoldable pub folder_of : Schema → Text → Text
unfolding or_first text_eq starts_with before_last before has
folder_of schema key =
    let directory = if has slash key then before_last slash key else [] in
    or_first directory
      (keep (λ name. text_eq directory name || inside directory name) (names schema.folders))

unfoldable pub under : Text → List Text → Bool
unfolding starts_with
under key folders = any (inside key) folders

abbrev head_of : List Text → Option Text
head_of [] = none
head_of (name ∷ more) = some name

unfoldable pub archive_folder : Schema → Option Text
unfolding folders_of_kind
archive_folder schema = head_of (folders_of_kind schema (codes "archive"))

abbrev log_home : Text → List Text → Option Text
log_home [] found = head_of found
log_home (c ∷ configured) found = some (c ∷ configured)

unfoldable pub log_folder : Schema → Option Text
unfolding folders_of_kind
log_folder schema = log_home schema.log_configured (folders_of_kind schema (codes "log"))

unfoldable pub log_key : Schema → Text → Result Text
unfolding log_folder
log_key schema repo = elim (log_folder schema) [
  | none ↦ err no_home
  | some home ↦ ok (home ++ codes "/" ++ schema.log_file repo)
]

unfoldable pub task_folders : Schema → List Text
unfolding folders_of_kind
task_folders schema = folders_of_kind schema (codes "task")

unfoldable pub task_folder : Schema → Result Text
unfolding task_folders
task_folder schema = elim (head_of (task_folders schema)) [
  | none ↦ err no_home
  | some name ↦ ok name
]

unfoldable pub backlog_folder : Schema → Result Text
unfolding task_folders task_folder text_in
backlog_folder schema =
    if text_in schema.backlog_configured (task_folders schema)
    then ok schema.backlog_configured
    else task_folder schema
