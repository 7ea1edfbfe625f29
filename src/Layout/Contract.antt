-- ===== src/Layout/Contract.antt =====
-- `_contract_problems` of mindin/schema.py: what a schema must have for the tools.
use notes_vault_mcp.Prelude.{
  Text, codes, text_eq_iff, ◌≡◌, ◌⊎◌, All, refl, sym, ap, ◌∙◌, true, Option, none, some, List, [],
  ◌∷◌, ◌++◌, map, if◌then◌else◌, arith, Bool-cases, inl, inr,
}
use notes_vault_mcp.Prelude.Strings.{text_in, strip, is_slash}
use notes_vault_mcp.Prelude.Strings.Strip.{text_in-append}
use notes_vault_mcp.Schema.{Folder, Schema, task_folders, log_folder}
use notes_vault_mcp.Layout.Problems.{
  Trouble, lacks_status, lacks_kind, unknown_folder, not_a_task_folder,
}

with_tasks : List Text → List Text
with_tasks [] = []
with_tasks (t ∷ ts) = codes "active" ∷ codes "backlog" ∷ []

-- What `close` writes, and what the task tools write.
unfoldable pub needed_statuses : Schema → List Text
unfolding task_folders with_tasks
needed_statuses schema = codes "complete" ∷ codes "superseded" ∷ with_tasks (task_folders schema)

needed_of : List Text → Text → List Text
needed_of [] kind = []
needed_of (f ∷ fs) kind = kind ∷ []

folders_of : Option Text → List Text
folders_of none = []
folders_of (some f) = f ∷ []

unfoldable pub needed_kinds : Schema → List Text
unfolding needed_of folders_of task_folders log_folder
needed_kinds schema =
    needed_of (task_folders schema) (codes "task")
    ++ needed_of (folders_of (log_folder schema)) (codes "log")

-- A list of the ones that are not in another list.
missing_from : (Text → Trouble) → List Text → List Text → List Trouble
unfolding text_in
missing_from trouble [] known = []
missing_from trouble (n ∷ needed) known =
    let rest = missing_from trouble needed known in
    if text_in n known then rest else trouble n ∷ rest

known_folders : Schema → List Text
unfolding folders_of log_folder
known_folders schema = map (λ (f : Folder). f.name) schema.folders ++ folders_of (log_folder schema)

-- `configured` is backlog.folder as it stands in the file, empty where it is not set.
backlog_trouble : Text → Schema → List Trouble
unfolding strip text_in task_folders
backlog_trouble [] schema = []
backlog_trouble (c ∷ configured) schema =
    if text_in (strip is_slash (c ∷ configured)) (task_folders schema)
    then []
    else not_a_task_folder (c ∷ configured) ∷ []

-- The statuses that are missing are one problem in the code, and one for each here.
unfoldable pub contract_troubles : Text → Schema → List Trouble
unfolding missing_from needed_statuses needed_kinds backlog_trouble known_folders
contract_troubles configured schema =
    missing_from lacks_status (needed_statuses schema) schema.status_values
    ++ (missing_from lacks_kind (needed_kinds schema) schema.kind_values
        ++ (missing_from unknown_folder schema.area_required_in (known_folders schema)
            ++ backlog_trouble configured schema))

AllIn : List Text → List Text → Type 0
AllIn [] known = Unit
AllIn (n ∷ needed) known = (text_in n known ≡ true) × AllIn needed known

missing_from-AllIn :
    (trouble : Text → Trouble) (needed known : List Text)
    → missing_from trouble needed known ≡ []
    → AllIn needed known
unfolding missing_from AllIn
missing_from-AllIn trouble [] known h = tt
missing_from-AllIn trouble (n ∷ needed) known h = elim (Bool-cases (text_in n known)) [
  | inl e ↦ (e, missing_from-AllIn trouble needed known (ground arith))
  | inr e ↦ absurd (ground arith)
]

nil_of_append : (ts us : List Trouble) → ts ++ us ≡ [] → (ts ≡ []) × (us ≡ [])
nil_of_append [] us h = (refl, h)
nil_of_append (t ∷ ts) us h = cc

-- One of the folders, or the folder of the logs.
abbrev pub IsKnown : Schema → Text → Type 0
IsKnown schema folder =
    (text_in folder (map (λ (f : Folder). f.name) schema.folders) ≡ true)
    ⊎ (log_folder schema ≡ some folder)

-- What the tools rely on of a schema. `configured` is backlog.folder as the file has it.
pub record IsHonoured (configured : Text) (schema : Schema) : Type 0 where
  -- what `close` writes
  pub complete : text_in (codes "complete") schema.status_values ≡ true
  pub superseded : text_in (codes "superseded") schema.status_values ≡ true
  pub tasks :
      (task_folders schema ≡ [])
      ⊎ ((text_in (codes "active") schema.status_values ≡ true)
          × (text_in (codes "backlog") schema.status_values ≡ true)
          × (text_in (codes "task") schema.kind_values ≡ true))
  pub logs : (log_folder schema ≡ none) ⊎ (text_in (codes "log") schema.kind_values ≡ true)
  pub areas : All (IsKnown schema) schema.area_required_in
  pub backlog :
      (configured ≡ []) ⊎ (text_in (strip is_slash configured) (task_folders schema) ≡ true)

closed_needed :
    (schema : Schema) (known : List Text)
    → AllIn (needed_statuses schema) known
    → (text_in (codes "complete") known ≡ true) × (text_in (codes "superseded") known ≡ true)
unfolding needed_statuses AllIn
closed_needed schema known (complete, (superseded, more)) = (complete, superseded)

statuses_needed :
    (schema : Schema) (known : List Text)
    → AllIn (needed_statuses schema) known
    → AllIn (with_tasks (task_folders schema)) known
unfolding needed_statuses AllIn
statuses_needed schema known (complete, (superseded, more)) = more

AllIn-append : (xs ys known : List Text) → AllIn (xs ++ ys) known → AllIn xs known × AllIn ys known
unfolding AllIn
AllIn-append [] ys known h = (tt, h)
AllIn-append (x ∷ xs) ys known (here, h) =
    let (hx, hy) = AllIn-append xs ys known h in ((here, hx), hy)

tasks_needed :
    (tasks statuses kinds : List Text)
    → AllIn (with_tasks tasks) statuses
    → AllIn (needed_of tasks (codes "task")) kinds
    → (tasks ≡ [])
      ⊎ ((text_in (codes "active") statuses ≡ true)
          × (text_in (codes "backlog") statuses ≡ true)
          × (text_in (codes "task") kinds ≡ true))
unfolding with_tasks needed_of AllIn
tasks_needed [] statuses kinds h k = inl refl
tasks_needed (t ∷ tasks) statuses kinds (active, (backlog, more)) (task, last) =
    inr (active, backlog, task)

kinds_needed :
    (schema : Schema) (known : List Text)
    → AllIn (needed_kinds schema) known
    → AllIn (needed_of (task_folders schema) (codes "task")) known
      × AllIn (needed_of (folders_of (log_folder schema)) (codes "log")) known
unfolding needed_kinds
kinds_needed schema known h = AllIn-append _ _ known h

log_needed :
    (found : Option Text) (kinds : List Text)
    → AllIn (needed_of (folders_of found) (codes "log")) kinds
    → (found ≡ none) ⊎ (text_in (codes "log") kinds ≡ true)
unfolding needed_of folders_of AllIn
log_needed none kinds h = inl refl
log_needed (some f) kinds (here, more) = inr here

folders_of-in :
    (found : Option Text) (folder : Text)
    → text_in folder (folders_of found) ≡ true
    → found ≡ some folder
unfolding folders_of text_in
folders_of-in none folder h = absurd (ground arith)
folders_of-in (some f) folder h = ap some (sym ((text_eq_iff folder f).0 (ground arith)))

area-IsKnown :
    (schema : Schema) (folder : Text)
    → text_in folder (known_folders schema) ≡ true
    → IsKnown schema folder
unfolding known_folders
area-IsKnown schema folder h =
    let names = map (λ (f : Folder). f.name) schema.folders in
    let either = sym (text_in-append folder names (folders_of (log_folder schema))) ∙ h in
    elim (Bool-cases (text_in folder names)) [
      | inl e ↦ inl e
      | inr e ↦ inr (folders_of-in (log_folder schema) folder (ground arith))
    ]

areas-IsKnown :
    (schema : Schema) (folders : List Text)
    → AllIn folders (known_folders schema)
    → All (IsKnown schema) folders
unfolding AllIn
areas-IsKnown schema [] h = tt
areas-IsKnown schema (f ∷ folders) (here, h) =
    (area-IsKnown schema f here, areas-IsKnown schema folders h)

backlog_of :
    (configured : Text) (schema : Schema)
    → backlog_trouble configured schema ≡ []
    → (configured ≡ []) ⊎ (text_in (strip is_slash configured) (task_folders schema) ≡ true)
unfolding backlog_trouble
backlog_of [] schema h = inl refl
backlog_of (c ∷ configured) schema h = inr (ground arith)

-- A schema with no problem has what the tools rely on.
pub contract_troubles-IsHonoured :
    (configured : Text) (schema : Schema)
    → contract_troubles configured schema ≡ []
    → IsHonoured configured schema
unfolding contract_troubles
contract_troubles-IsHonoured configured schema h =
    let (s, h1) = nil_of_append _ _ h in
    let (k, h2) = nil_of_append _ _ h1 in
    let (a, h3) = nil_of_append _ _ h2 in
    let statuses =
      missing_from-AllIn lacks_status (needed_statuses schema) schema.status_values s in
    let (task, log) =
      kinds_needed schema schema.kind_values
        (missing_from-AllIn lacks_kind (needed_kinds schema) schema.kind_values k) in
    let areas =
      missing_from-AllIn unknown_folder schema.area_required_in (known_folders schema) a in
    let (complete, superseded) = closed_needed schema schema.status_values statuses in
    record {
      complete = complete;
      superseded = superseded;
      tasks =
          tasks_needed (task_folders schema) schema.status_values schema.kind_values
            (statuses_needed schema schema.status_values statuses) task;
      logs = log_needed (log_folder schema) schema.kind_values log;
      areas = areas-IsKnown schema schema.area_required_in areas;
      backlog = backlog_of configured schema h3;
    }
