-- ===== src/Notes/Listed.antt =====
-- The rows of the index that mindin/notes.py lists: `Note` of mindin/index.py, the filters and the
-- orders of `backlog` and `context`. `lower` is `str.lower`, `expand_home` puts the home folder for "~".
pub mod Laws
use notes_vault_mcp.Prelude.{
  ℕ, zero, suc, ◌+◌, ◌*◌, ◌≤◌, Text, codes, text_eq, Bool, true, false, not, ◌&&◌, ◌||◌, Option,
  none, some, List, [], ◌∷◌, ◌++◌, any, keep, first, length, take, drop, ltb, leb, ◌==◌,
  if◌then◌else◌,
}
use notes_vault_mcp.Prelude.Strings.{starts_with, text_in, text_lt, rstrip, is_slash}
use notes_vault_mcp.Schema.{Schema, folder_of, task_folders, folders_of_kind}
use notes_vault_mcp.Notes.Slug.{area_stem}

pub record Note : Type 0 where
  pub key : Text
  pub stem : Text
  pub title : Text
  pub kind : Text
  pub status : Text
  pub priority : Text
  pub area : Text
  pub updated : Text
  pub tags : List Text
  pub paths : List Text
  pub valid : Bool
  -- in seconds; the age of a note with a day is whole days
  pub age : ℕ

abbrev pub priority_order : List Text
priority_order = codes "urgent" ∷ codes "high" ∷ codes "medium" ∷ codes "low" ∷ []

-- PRIORITY_ORDER.index(value), or its length
position : Text → List Text → ℕ
unfolding text_eq
position value [] = 0
position value (p ∷ more) =
    let rest = position value more in if text_eq p value then 0 else suc rest

unfoldable pub priority_rank : Text → ℕ
unfolding position
priority_rank value = position value priority_order

-- A stable sort: `before a b` says that a stands before b.
insert_by : (Note → Note → Bool) → Note → List Note → List Note
insert_by before n [] = n ∷ []
insert_by before n (m ∷ notes) =
    let rest = insert_by before n notes in if before m n then m ∷ rest else n ∷ m ∷ notes

unfoldable pub sort_by : (Note → Note → Bool) → List Note → List Note
unfolding insert_by
sort_by before [] = []
sort_by before (n ∷ notes) = insert_by before n (sort_by before notes)

-- key=lambda note: note.updated, reverse=True
abbrev pub is_newer : Note → Note → Bool
is_newer m n = text_lt n.updated m.updated

-- key=lambda note: priority_rank(note.priority)
abbrev pub is_pressing : Note → Note → Bool
is_pressing m n = ltb (priority_rank m.priority) (priority_rank n.priority)

is_at : Text → Text → Bool
unfolding area_stem starts_with text_eq
is_at wanted area =
    let have = area_stem area in text_eq have wanted || starts_with have (wanted ++ codes "-")

unfoldable pub in_area : Option Text → Note → Bool
unfolding is_at area_stem
in_area none n = true
in_area (some []) n = true
in_area (some (c ∷ area)) n = is_at (area_stem (c ∷ area)) n.area

has_priority : Option Text → Note → Bool
unfolding text_eq
has_priority none n = true
has_priority (some []) n = true
has_priority (some (c ∷ priority)) n = text_eq n.priority (c ∷ priority)

abbrev pub in_tasks : Schema → Note → Bool
in_tasks schema n = text_in (folder_of schema n.key) (task_folders schema)

abbrev pub is_backlog : Note → Bool
is_backlog n = text_eq n.status (codes "backlog")

unfoldable pub on_backlog : Schema → Option Text → Option Text → Note → Bool
unfolding folder_of task_folders text_in in_area has_priority text_eq
on_backlog schema area priority n =
    n.valid && (in_tasks schema n && (is_backlog n && (in_area area n && has_priority priority n)))

unfoldable pub backlog : Schema → List Note → Option Text → Option Text → List Note
unfolding on_backlog sort_by text_lt priority_rank
backlog schema notes area priority =
    sort_by is_pressing (sort_by is_newer (keep (on_backlog schema area priority) notes))

-- os.path.commonprefix of two
common : Text → Text → ℕ
common [] t = 0
common (c ∷ s) [] = 0
common (c ∷ s) (d ∷ t) = let rest = common s t in if c == d then suc rest else 0

abbrev max : ℕ → ℕ → ℕ
max a b = if ltb a b then b else a

module _ (lower expand_home : Text → Text) where
  overlap_with : Text → Text → ℕ → ℕ
  unfolding common starts_with
  overlap_with wanted [] best = best
  overlap_with wanted (c ∷ candidate) best =
      if starts_with wanted (c ∷ candidate) || starts_with (c ∷ candidate) wanted
      then max best (common wanted (c ∷ candidate))
      else best

  best_overlap : Text → List Text → ℕ → ℕ
  unfolding overlap_with rstrip
  best_overlap wanted [] best = best
  best_overlap wanted (raw ∷ paths) best =
      best_overlap wanted paths (overlap_with wanted (rstrip is_slash (expand_home raw)) best)

  unfoldable pub path_overlap : Note → Option Text → ℕ
  unfolding best_overlap rstrip
  path_overlap n none = 0
  path_overlap n (some []) = 0
  path_overlap n (some (c ∷ target)) =
      best_overlap (rstrip is_slash (expand_home (c ∷ target))) n.paths 0

  -- needle in text
  unfoldable pub contains : Text → Text → Bool
  unfolding starts_with
  contains needle [] = starts_with [] needle
  contains needle (c ∷ s) = starts_with (c ∷ s) needle || contains needle s

  unfoldable pub mentions_repo : Note → Option Text → Bool
  unfolding contains
  mentions_repo n none = false
  mentions_repo n (some []) = false
  mentions_repo n (some (c ∷ repo)) =
      let needle = lower (c ∷ repo) in
      contains needle (lower n.title)
      || (contains needle (lower n.stem) || any (λ tag. contains needle (lower tag)) n.tags)

  unfoldable pub relevant : Option Text → Option Text → Note → Bool
  unfolding path_overlap mentions_repo
  relevant path repo n = ltb 0 (path_overlap n path) || mentions_repo n repo

  abbrev is_open : Note → Bool
  is_open n = text_in n.status (codes "active" ∷ codes "draft" ∷ [])

  -- What `context` selects: open tasks that are fresh and those for triage, the backlog, and the
  -- references. `query` is empty where none is given.
  pub record Bundle : Type 0 where
    pub tasks : List Note
    pub triage : List Note
    pub backlog_rows : List Note
    pub backlog_total : ℕ
    pub references : List Note

  unfoldable pub is_task : Schema → Option Text → Option Text → Note → Bool
  unfolding folder_of task_folders text_in relevant
  is_task schema path repo n = in_tasks schema n && (is_open n && relevant path repo n)

  is_named : Text → Note → Bool
  unfolding contains
  is_named [] n = false
  is_named (c ∷ needle) n = contains (c ∷ needle) (lower (n.title ++ codes " " ++ spaced n.tags))
    where
      spaced : List Text → Text
      spaced [] = []
      spaced (t ∷ []) = t
      spaced (t ∷ u ∷ tags) = t ++ codes " " ++ spaced (u ∷ tags)

  is_reference : Schema → Option Text → Option Text → Text → Note → Bool
  unfolding folders_of_kind folder_of text_in relevant is_named
  is_reference schema path repo query n =
      text_in (folder_of schema n.key) (folders_of_kind schema (codes "reference"))
      && (relevant path repo n || is_named (lower query) n)

  is_waiting : Schema → Option Text → Option Text → Note → Bool
  unfolding folder_of task_folders text_in relevant text_eq
  is_waiting schema path repo n = in_tasks schema n && (is_backlog n && relevant path repo n)

  abbrev pub is_stale : Schema → Note → Bool
  is_stale schema n = ltb (schema.stale_after_days * 86400) n.age

  unfoldable pub selected : Schema → List Note → Option Text → Option Text → Text → ℕ → Bundle
  unfolding is_task is_reference is_waiting sort_by text_lt priority_rank
  selected schema all_notes path repo query limit =
      let notes = keep (λ (n : Note). n.valid) all_notes in
      let tasks = sort_by is_newer (keep (is_task schema path repo) notes) in
      let rows =
        sort_by is_pressing (sort_by is_newer (keep (is_waiting schema path repo) notes)) in
      record {
        tasks = take limit (keep (λ n. not (is_stale schema n)) tasks);
        triage = take limit (keep (is_stale schema) tasks);
        backlog_rows = take limit rows;
        backlog_total = length rows;
        references =
            take limit (sort_by is_newer (keep (is_reference schema path repo query) notes));
      }
