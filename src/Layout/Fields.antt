-- ===== src/Layout/Fields.antt =====
-- What a schema says under a key, as the properties of `Schema` in mindin/schema.py read it off the
-- data: texts, lists of words, switches and numbers, each with what stands for a missing one.
use notes_vault_mcp.Prelude.{
  ℕ, ◌+◌, ◌*◌, ◌-◌, Text, codes, Bool, true, false, not, ◌&&◌, ◌==◌, Option, none, some, List, [],
  ◌∷◌, ◌++◌, map, keep, all, leb, if◌then◌else◌,
}
use notes_vault_mcp.Prelude.Strings.{text_in}
use notes_vault_mcp.Frontmatter.{
  Value, null, num, seq, mapping, Values, nil, cons, Fields, end, field, Yaml, py_str,
}
use notes_vault_mcp.Notes.Stamps.{is_true}
use notes_vault_mcp.Schema.{Folder}
use notes_vault_mcp.Layout.Merge.{get_field}

-- `data.get(key) or {}`, for a key that holds a mapping
unfoldable pub fields_at : Fields → Text → Fields
unfolding get_field
fields_at document key = elim (get_field document key) [ some (mapping fs) ↦ fs | _ ↦ end ]

abbrev pub values_of : Values → List Value
values_of nil = []
values_of (cons v vs) = v ∷ values_of vs

module _ (yaml : Yaml) where
  -- list(value or []), of a list of words
  words_of : Option Value → List Text
  unfolding py_str
  words_of (some (seq vs)) = map (py_str yaml) (values_of vs)
  words_of _ = []

  unfoldable pub words_at : Fields → Text → List Text
  unfolding get_field words_of
  words_at document key = words_of (get_field document key)

  or_text : Text → Option Value → Text
  unfolding is_true py_str
  or_text missing none = missing
  or_text missing (some v) = if is_true v then py_str yaml v else missing

  -- str(data.get(key) or missing)
  unfoldable pub text_at : Fields → Text → Text → Text
  unfolding get_field or_text
  text_at document key missing = or_text missing (get_field document key)

  said : Text → Option Value → Text
  unfolding py_str
  said missing none = missing
  said missing (some v) = py_str yaml v

  -- str(data.get(key, missing))
  unfoldable pub said_at : Fields → Text → Text → Text
  unfolding get_field said
  said_at document key missing = said missing (get_field document key)

  -- bool(data.get(key, missing))
  unfoldable pub switch_at : Fields → Text → Bool → Bool
  unfolding get_field is_true
  switch_at document key missing = elim (get_field document key) [
    | none ↦ missing
    | some v ↦ is_true v
  ]

  -- A folder that is null is dropped.
  folder_from : Text → Value → List Folder
  unfolding said_at switch_at
  folder_from name null = []
  folder_from name (mapping spec) =
      record {
        name = name;
        kind = said_at spec (codes "kind") (codes "reference");
        searched = switch_at spec (codes "searched") true;
      }
      ∷ []
  folder_from name _ = []

  unfoldable pub folders_from : Fields → List Folder
  unfolding folder_from
  folders_from end = []
  folders_from (field name spec more) = folder_from name spec ++ folders_from more

  -- The kinds that have a rule, and those that are dropped.
  ruled : Fields → List Text
  ruled end = []
  ruled (field name null more) = ruled more
  ruled (field name _ more) = name ∷ ruled more

  dropped : Fields → List Text
  dropped end = []
  dropped (field name null more) = name ∷ dropped more
  dropped (field name _ more) = dropped more

  unfoldable pub kinds_from : Fields → List Text
  unfolding words_at fields_at ruled dropped text_in
  kinds_from document =
      let declared = fields_at document (codes "kinds") in
      let listed =
        keep (λ k. not (text_in k (dropped declared)))
          (words_at (fields_at document (codes "frontmatter")) (codes "kind_values")) in
      listed ++ keep (λ k. not (text_in k listed)) (ruled declared)

  -- The sections of a task note in the vault's language; a heading that is empty is left out.
  headings : Fields → List (Text × Text)
  unfolding is_true py_str
  headings end = []
  headings (field key heading more) =
      let rest = headings more in
      if is_true heading then (key, py_str yaml heading) ∷ rest else rest

  abbrev or_english : Fields → Fields → Fields
  or_english end english = english
  or_english (field k v fs) english = field k v fs

  unfoldable pub sections_from : Fields → List (Text × Text)
  unfolding headings fields_at text_at
  sections_from document =
      let by_language = fields_at (fields_at document (codes "task")) (codes "sections") in
      headings (
        or_english (fields_at by_language (text_at document (codes "language") (codes "en")))
          (fields_at by_language (codes "en")))

abbrev is_digit : ℕ → Bool
is_digit c = leb b'0' c && leb c b'9'

digits_from : ℕ → Text → ℕ
digits_from n [] = n
digits_from n (c ∷ s) = digits_from (n * 10 + (c - b'0')) s

-- What `str` shows of an `int`: digits, perhaps behind a sign.
unfoldable pub is_whole : Text → Bool
is_whole [] = false
is_whole (c ∷ s) = if c == b'-' then all is_digit s else all is_digit (c ∷ s)

-- data.get("stale_after_days", 30), of a whole number that is not negative
unfoldable pub days_at : Fields → Text → ℕ
unfolding get_field digits_from
days_at document key = elim (get_field document key) [ some (num s) ↦ digits_from 0 s | _ ↦ 30 ]
