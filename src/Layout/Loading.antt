-- ===== src/Layout/Loading.antt =====
-- `schema_from_text` of mindin/schema.py and `base_preset` of mindin/presets.py: a schema file over the
-- preset that it names, or that preset alone where the file has a problem.
use notes_vault_mcp.Prelude.{
  ℕ, Text, codes, Result, ok, err, ◌≡◌, refl, Bool, false, ◌||◌, ◌==◌, Option, none, some, List, [],
  ◌∷◌, drop, if◌then◌else◌,
}
use notes_vault_mcp.Prelude.Strings.{text_in, starts_with, split, strip, is_slash, drop_while}
use notes_vault_mcp.Frontmatter.{Value, null, str, mapping, Fields, end, Yaml}
use notes_vault_mcp.Notes.Stamps.{is_true}
use notes_vault_mcp.Schema.{Schema}
use notes_vault_mcp.Layout.Merge.{get_field, merge_fields}
use notes_vault_mcp.Layout.Fields.{
  fields_at, words_at, text_at, said_at, switch_at, folders_from, kinds_from, sections_from,
  days_at,
}
use notes_vault_mcp.Layout.Problems.{Trouble, not_a_schema, shape_troubles}
use notes_vault_mcp.Layout.Contract.{IsHonoured, contract_troubles, contract_troubles-IsHonoured}

-- What the loading takes from outside: YAML, `str.format`, the presets that the program ships, \w.
pub record Library : Type 0 where
  pub yaml : Yaml
  pub formats : Text → List Text → Bool
  pub format : Text → List (Text × Text) → Text
  pub presets : List Text
  pub preset_data : Text → Fields
  pub is_word : ℕ → Bool

pub record Loaded : Type 0 where
  pub document : Fields
  pub problems : List Trouble
  -- the preset that the file names and the program does not ship
  pub unknown_preset : Option Value

abbrev is_blank : ℕ → Bool
is_blank c = c == b' ' || c == 9

abbrev is_quote : ℕ → Bool
is_quote c = c == 39 || c == b'"'

unquoted : Text → Text
unquoted [] = []
unquoted (c ∷ s) = if is_quote c then s else c ∷ s

some_text : Text → Option Text
some_text [] = none
some_text (c ∷ s) = some (c ∷ s)

module _ (lib : Library) where
  abbrev is_name : ℕ → Bool
  is_name c = lib.is_word c || c == b'-'

  name_in : Text → Text
  name_in [] = []
  name_in (c ∷ s) = let rest = name_in s in if is_name c then c ∷ rest else []

  -- PRESET_LINE on one line
  preset_on : Text → Option Text
  unfolding starts_with drop_while unquoted name_in some_text
  preset_on line =
      if starts_with line (codes "preset:")
      then some_text (name_in (unquoted (drop_while is_blank (drop 7 line))))
      else none

  preset_in : List Text → Option Value
  unfolding preset_on
  preset_in [] = none
  preset_in (line ∷ lines) = elim (preset_on line) [
    | some name ↦ some (str name)
    | none ↦ preset_in lines
  ]

  -- override.get("preset") or what the line says
  named : Option Value → Text → Option Value
  unfolding preset_in split is_true
  named none text = preset_in (split 10 text)
  named (some v) text = if is_true v then some v else preset_in (split 10 text)

  abbrev default_preset : Text
  default_preset = codes "default"

  abbrev custom_preset : Text
  custom_preset = codes "custom"

  unfoldable pub base_preset : Option Value → Text
  unfolding text_in
  base_preset none = default_preset
  base_preset (some (str name)) = if text_in name lib.presets then name else custom_preset
  base_preset (some _) = custom_preset

  unknown : Option Value → Option Value
  unfolding text_in
  unknown none = none
  unknown (some (str name)) = if text_in name lib.presets then none else some (str name)
  unknown (some v) = some v

  -- The properties of `Schema` over the data.
  unfoldable pub schema_from : Fields → Schema
  unfolding folders_from words_at fields_at text_at said_at switch_at kinds_from sections_from
      days_at strip
  schema_from document =
      let frontmatter = fields_at document (codes "frontmatter") in
      let log = fields_at document (codes "log") in
      record {
        folders = folders_from lib.yaml (fields_at document (codes "folders"));
        required_fields = words_at lib.yaml frontmatter (codes "required");
        area_required_in = words_at lib.yaml frontmatter (codes "area_required_in");
        status_values = words_at lib.yaml frontmatter (codes "status_values");
        kind_values = kinds_from lib.yaml document;
        priority_values = words_at lib.yaml frontmatter (codes "priority_values");
        tag_vocabulary = words_at lib.yaml (fields_at document (codes "tags")) (codes "vocabulary");
        tags_strict = switch_at lib.yaml (fields_at document (codes "tags")) (codes "strict") false;
        log_configured = strip is_slash (text_at lib.yaml log (codes "folder") []);
        backlog_configured =
            strip is_slash
              (text_at lib.yaml (fields_at document (codes "backlog")) (codes "folder") []);
        log_file = λ repo.
            lib.format (said_at lib.yaml log (codes "file_format") (codes "{repo}-log.md"))
              ((codes "repo", repo) ∷ []);
        log_entry = λ day line commits branch area.
            lib.format
              (said_at lib.yaml log (codes "entry_format")
                (codes "- [{date}] {line} | branch: {branch} | commits: {commits} | {area}"))
              ((codes "date", day)
                ∷ (codes "line", line)
                ∷ (codes "commits", commits)
                ∷ (codes "branch", branch)
                ∷ (codes "area", area)
                ∷ []);
        task_sections = sections_from lib.yaml document;
        stale_after_days = days_at document (codes "stale_after_days");
      }

  -- backlog.folder, as the file has it
  abbrev pub backlog_said : Fields → Text
  backlog_said document =
      text_at lib.yaml (fields_at document (codes "backlog")) (codes "folder") []

  or_contract : Fields → List Trouble → List Trouble
  unfolding contract_troubles schema_from text_at fields_at
  or_contract document [] = contract_troubles (backlog_said document) (schema_from document)
  or_contract document (t ∷ troubles) = t ∷ troubles

  -- schema_problems
  unfoldable pub troubles : Fields → List Trouble
  unfolding or_contract shape_troubles
  troubles document = or_contract document (shape_troubles lib.formats document)

  -- parse_schema_text
  override_of : Result Value → Fields × List Trouble
  override_of (err e) = (end, not_a_schema ∷ [])
  override_of (ok null) = (end, [])
  override_of (ok (mapping fs)) = (fs, [])
  override_of (ok _) = (end, not_a_schema ∷ [])

  kept_or_base : Fields → Fields → Option Value → List Trouble → Loaded
  kept_or_base base merged preset [] = record {
    document = merged;
    problems = [];
    unknown_preset = preset;
  }
  kept_or_base base merged preset (t ∷ found) = record {
    document = base;
    problems = t ∷ found;
    unknown_preset = preset;
  }

  over_preset : Fields → Option Value → Fields × List Trouble → Loaded
  unfolding kept_or_base troubles merge_fields
  over_preset base preset (override, t ∷ problems) = record {
    document = base;
    problems = t ∷ problems;
    unknown_preset = preset;
  }
  over_preset base preset (override, []) =
      kept_or_base base (merge_fields base override) preset (troubles (merge_fields base override))

  unfoldable pub schema_from_text : Text → Loaded
  unfolding over_preset override_of named base_preset unknown get_field
  schema_from_text text =
      let read = override_of (lib.yaml.load text) in
      let preset = named (get_field read.0 (codes "preset")) text in
      over_preset (lib.preset_data (base_preset preset)) (unknown preset) read

  kept_sound :
      (base merged : Fields) (preset : Option Value) (found : List Trouble)
      → troubles base ≡ []
      → troubles merged ≡ found
      → troubles (kept_or_base base merged preset found).document ≡ []
  unfolding kept_or_base
  kept_sound base merged preset [] b h = h
  kept_sound base merged preset (t ∷ found) b h = b

  over_sound :
      (base : Fields) (preset : Option Value) (read : Fields × List Trouble)
      → troubles base ≡ []
      → troubles (over_preset base preset read).document ≡ []
  unfolding over_preset
  over_sound base preset (override, t ∷ problems) b = b
  over_sound base preset (override, []) b =
      kept_sound base (merge_fields base override) preset (troubles (merge_fields base override)) b
        refl

  -- Whatever a schema file says, the document that a vault runs on has no problem, where the presets
  -- have none.
  pub schema_from_text_sound :
      (text : Text)
      → ((name : Text) → troubles (lib.preset_data name) ≡ [])
      → troubles (schema_from_text text).document ≡ []
  unfolding schema_from_text
  schema_from_text_sound text presets =
      let read = override_of (lib.yaml.load text) in
      let preset = named (get_field read.0 (codes "preset")) text in
      over_sound (lib.preset_data (base_preset preset)) (unknown preset) read
        (presets (base_preset preset))

  contract_of :
      (document : Fields) (shape : List Trouble)
      → or_contract document shape ≡ []
      → contract_troubles (backlog_said document) (schema_from document) ≡ []
  unfolding or_contract
  contract_of document [] h = h
  contract_of document (t ∷ shape) h = cc

  -- Whatever a schema file says, where the presets have no problem: the schema that a vault runs on has
  -- the statuses complete and superseded; with a task folder it has the statuses active and backlog and
  -- the kind task; with a log folder it has the kind log; each folder that asks for an area is one of
  -- its folders or the log folder; and a backlog folder that is set is one of its task folders.
  pub schema_from_text-IsHonoured :
      (text : Text)
      → ((name : Text) → troubles (lib.preset_data name) ≡ [])
      → IsHonoured
          (backlog_said (schema_from_text text).document)
          (schema_from (schema_from_text text).document)
  schema_from_text-IsHonoured text presets =
      let document = (schema_from_text text).document in
      contract_troubles-IsHonoured (backlog_said document) (schema_from document) (
        contract_of document (shape_troubles lib.formats document)
          (unfold troubles in schema_from_text_sound text presets))
