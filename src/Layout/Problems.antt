-- ===== src/Layout/Problems.antt =====
-- `schema_problems` of mindin/schema.py: what is wrong with a schema's data, in the order in which it
-- is said. A problem names the place; its wording is left out. Keys are text here: YAML may give others.
use notes_vault_mcp.Prelude.{
  Text, codes, text_eq, Bool, true, false, not, ◌&&◌, ◌||◌, ◌==◌, Option, none, some, List, [], ◌∷◌,
  ◌++◌, any, all,
}
use notes_vault_mcp.Prelude.Strings.{text_in, split, slash, starts_with, is_special}
use notes_vault_mcp.Backends.{is_dotted}
use notes_vault_mcp.Frontmatter.{
  Value, null, flag, num, str, seq, mapping, Values, nil, cons, Fields, end, field,
}
use notes_vault_mcp.Layout.Merge.{get_field}
use notes_vault_mcp.Layout.Fields.{is_whole}

pub data Trouble : Type 0 where
  not_a_schema : Trouble
  not_text not_words not_a_mapping bad_path bad_kind bad_weight bad_switch bad_number bad_days
        bad_rule bad_groups bad_format :
      Text → Trouble
  lacks_status lacks_kind unknown_folder not_a_task_folder : Text → Trouble

abbrev pub under_key : Text → Text → Text
under_key place key = place ++ (codes "." ++ key)

abbrev pub unless : Bool → Trouble → List Trouble
unless true t = []
unless false t = t ∷ []

abbrev is_text : Value → Bool
is_text (str s) = true
is_text _ = false

abbrev is_switch : Value → Bool
is_switch (flag b) = true
is_switch _ = false

abbrev is_number : Value → Bool
is_number (num s) = true
is_number _ = false

all_text : Values → Bool
all_text nil = true
all_text (cons v vs) = is_text v && all_text vs

all_groups : Values → Bool
all_groups nil = true
all_groups (cons (seq g) vs) = all_groups vs
all_groups (cons _ vs) = false

-- A value that may be missing, with null counted as missing.
words_trouble : Text → Option Value → List Trouble
unfolding all_text
words_trouble place none = []
words_trouble place (some null) = []
words_trouble place (some (seq vs)) = unless (all_text vs) (not_words place)
words_trouble place (some _) = not_words place ∷ []

mapping_trouble : Text → Option Value → List Trouble
mapping_trouble place none = []
mapping_trouble place (some null) = []
mapping_trouble place (some (mapping fs)) = []
mapping_trouble place (some _) = not_a_mapping place ∷ []

-- What `_mapping` goes on with.
mapping_or_empty : Option Value → Fields
mapping_or_empty (some (mapping fs)) = fs
mapping_or_empty _ = end

-- Where the key is there.
if_there : (Value → Bool) → Trouble → Option Value → List Trouble
if_there good t none = []
if_there good t (some v) = unless (good v) t

abbrev pub folder_kind_names : List Text
folder_kind_names =
    codes "system" ∷ codes "reference" ∷ codes "task" ∷ codes "log" ∷ codes "archive" ∷ []

is_folder_kind : Option Value → Bool
unfolding text_in
is_folder_kind none = true
is_folder_kind (some (str k)) = text_in k folder_kind_names
is_folder_kind (some _) = false

-- A number below zero is written with a sign; -0.0 is not below zero.
is_negative : Text → Bool
unfolding text_eq
is_negative [] = false
is_negative (c ∷ s) = c == b'-' && not (text_eq (c ∷ s) (codes "-0.0"))

is_weight : Value → Bool
unfolding is_negative
is_weight (num s) = not (is_negative s)
is_weight _ = false

is_folder_path : Text → Bool
unfolding split starts_with text_eq
is_folder_path name = not (any (λ s. is_special s || is_dotted s) (split slash name))

spec_troubles : Text → Value → List Trouble
unfolding is_folder_kind is_weight if_there get_field
spec_troubles place null = []
spec_troubles place (mapping spec) =
    unless (is_folder_kind (get_field spec (codes "kind"))) (bad_kind place)
    ++ (if_there is_weight (bad_weight place) (get_field spec (codes "weight"))
        ++ if_there is_switch (bad_switch place) (get_field spec (codes "searched")))
spec_troubles place _ = not_a_mapping place ∷ []

unfoldable pub folder_troubles : Text → Value → List Trouble
unfolding is_folder_path spec_troubles
folder_troubles name spec =
    unless (is_folder_path name) (bad_path name)
    ++ spec_troubles (under_key (codes "folders") name) spec

each_field : (Text → Value → List Trouble) → Fields → List Trouble
each_field check end = []
each_field check (field key value more) = check key value ++ each_field check more

rule_troubles : Text → Value → List Trouble
rule_troubles name null = []
rule_troubles name value = unless (is_text value) (bad_rule name)

number_troubles : Text → Value → List Trouble
number_troubles key value = unless (is_number value) (bad_number key)

groups_trouble : Option Value → List Trouble
unfolding all_groups
groups_trouble none = []
groups_trouble (some null) = []
groups_trouble (some (seq vs)) = unless (all_groups vs) (bad_groups (codes "synonyms"))
groups_trouble (some _) = bad_groups (codes "synonyms") ∷ []

-- isinstance(stale, int), no bool, and 1 or more
is_days : Option Value → Bool
unfolding is_whole is_negative text_eq
is_days none = true
is_days (some (num s)) = is_whole s && (not (is_negative s) && not (text_eq s (codes "0")))
is_days (some _) = false

text_or_null : Option Value → List Trouble
text_or_null none = []
text_or_null (some null) = []
text_or_null (some v) = unless (is_text v) (not_text (codes "log.folder"))

-- `value.format(...)` is a parameter, as Python gives it for the fields: whether it raises.
module _ (formats : Text → List Text → Bool) where
  names_field : Text → Text → Bool
  unfolding starts_with
  names_field name [] = false
  names_field name (c ∷ s) =
      starts_with (c ∷ s) (codes "{" ++ (name ++ codes "}")) || names_field name s

  is_format : List Text → List Text → Value → Bool
  unfolding names_field
  is_format fields needs (str s) = all (λ name. names_field name s) needs && formats s fields
  is_format fields needs _ = false

  format_trouble : Text → List Text → List Text → Fields → List Trouble
  unfolding if_there is_format get_field
  format_trouble key fields needs log =
      if_there (is_format fields needs) (bad_format (under_key (codes "log") key))
        (get_field log key)

  words_troubles : Fields → List Text → List Trouble
  unfolding words_trouble get_field
  words_troubles frontmatter [] = []
  words_troubles frontmatter (key ∷ keys) =
      words_trouble (under_key (codes "frontmatter") key) (get_field frontmatter key)
      ++ words_troubles frontmatter keys

  abbrev frontmatter_lists : List Text
  frontmatter_lists =
      codes "required"
      ∷ codes "optional"
      ∷ codes "area_required_in"
      ∷ codes "status_values"
      ∷ codes "kind_values"
      ∷ codes "priority_values"
      ∷ []

  -- The check of the sections one after the other.
  abbrev checks : Fields → List (List Trouble)
  checks document =
      if_there is_text (not_text (codes "preset")) (get_field document (codes "preset"))
      ∷ if_there is_text (not_text (codes "root_description"))
          (get_field document (codes "root_description"))
      ∷ mapping_trouble (codes "folders") (get_field document (codes "folders"))
      ∷ each_field folder_troubles (mapping_or_empty (get_field document (codes "folders")))
      ∷ mapping_trouble (codes "frontmatter") (get_field document (codes "frontmatter"))
      ∷ words_troubles (mapping_or_empty (get_field document (codes "frontmatter")))
          frontmatter_lists
      ∷ mapping_trouble (codes "kinds") (get_field document (codes "kinds"))
      ∷ each_field rule_troubles (mapping_or_empty (get_field document (codes "kinds")))
      ∷ mapping_trouble (codes "tags") (get_field document (codes "tags"))
      ∷ words_trouble (codes "tags.vocabulary")
          (get_field (mapping_or_empty (get_field document (codes "tags"))) (codes "vocabulary"))
      ∷ if_there is_switch (bad_switch (codes "tags.strict"))
          (get_field (mapping_or_empty (get_field document (codes "tags"))) (codes "strict"))
      ∷ groups_trouble (get_field document (codes "synonyms"))
      ∷ words_trouble (codes "other_languages") (get_field document (codes "other_languages"))
      ∷ if_there is_text (not_text (codes "language")) (get_field document (codes "language"))
      ∷ unless (is_days (get_field document (codes "stale_after_days")))
          (bad_days (codes "stale_after_days"))
      ∷ mapping_trouble (codes "search") (get_field document (codes "search"))
      ∷ each_field number_troubles (mapping_or_empty (get_field document (codes "search")))
      ∷ mapping_trouble (codes "log") (get_field document (codes "log"))
      ∷ text_or_null
          (get_field (mapping_or_empty (get_field document (codes "log"))) (codes "folder"))
      ∷ format_trouble (codes "file_format") (codes "repo" ∷ []) (codes "repo" ∷ [])
          (mapping_or_empty (get_field document (codes "log")))
      ∷ format_trouble (codes "period_format") (codes "repo" ∷ codes "period" ∷ [])
          (codes "repo" ∷ codes "period" ∷ []) (mapping_or_empty (get_field document (codes "log")))
      ∷ format_trouble (codes "entry_format")
          (codes "date" ∷ codes "line" ∷ codes "commits" ∷ codes "branch" ∷ codes "area" ∷ []) []
          (mapping_or_empty (get_field document (codes "log")))
      ∷ mapping_trouble (codes "backlog") (get_field document (codes "backlog"))
      ∷ mapping_trouble (codes "task") (get_field document (codes "task"))
      ∷ []

  joined : List (List Trouble) → List Trouble
  joined [] = []
  joined (t ∷ ts) = t ++ joined ts

  -- The problems that show before the contract is looked at.
  unfoldable pub shape_troubles : Fields → List Trouble
  unfolding joined if_there mapping_trouble each_field folder_troubles mapping_or_empty
      words_troubles rule_troubles words_trouble groups_trouble is_days number_troubles text_or_null
      format_trouble get_field
  shape_troubles document = joined (checks document)
