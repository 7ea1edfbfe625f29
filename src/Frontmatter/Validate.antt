-- ===== src/Frontmatter/Validate.antt =====
-- `validate` of mindin/frontmatter.py: the problems that a note's frontmatter has under a schema. A
-- problem stands for the line of text that the code writes about it.
pub mod Contract
use notes_vault_mcp.Prelude.{
  ℕ, Text, codes, text_eq, Bool, true, false, not, ◌&&◌, ◌||◌, Option, none, some, List, [], ◌∷◌,
  ◌++◌, map, keep, first, ◌==◌, if◌then◌else◌,
}
use notes_vault_mcp.Prelude.Strings.{starts_with, text_in}
use notes_vault_mcp.Prelude.Dict.{Dict}
use notes_vault_mcp.Prelude.Dict
use notes_vault_mcp.Schema.{Schema, inside}
use notes_vault_mcp.Frontmatter.{
  Value, null, str, seq, nil, Yaml, py_str, stripped, tags_of, claim_fields, claim_key,
}

pub data Problem : Type 0 where
  missing_field bad_status bad_kind bad_priority missing_area bad_area unknown_tag : Text → Problem
  bad_tags bad_claim : Problem

-- frontmatter.get(field) is None or "" or []
is_missing : Option Value → Bool
is_missing none = true
is_missing (some null) = true
is_missing (some (str [])) = true
is_missing (some (seq nil)) = true
is_missing _ = false

-- frontmatter.get(field), with null and missing both `none`
abbrev pub present : Option Value → Option Value
present (some null) = none
present v = v

-- The rest of `AREA_RE` after "[[": one or more characters, perhaps "|" and an alias, then "]]".
in_alias : Bool → Text → Bool
in_alias seen [] = false
in_alias seen (c ∷ s) =
    let rest = in_alias true s in if c == b']' then seen && text_eq s (codes "]") else rest

in_name : Bool → Text → Bool
in_name seen [] = false
in_name seen (c ∷ s) =
    let rest = in_name true s in
    if c == b']'
    then seen && text_eq s (codes "]")
    else if c == b'|'
    then seen && in_alias false s
    else rest

unfoldable pub is_area_link : Text → Bool
unfolding in_name in_alias text_eq
is_area_link (a ∷ b ∷ s) = a == b'[' && b == b'[' && in_name false s
is_area_link _ = false

abbrev refused : Bool → Problem → List Problem
refused good problem = if good then [] else problem ∷ []

module _ (yaml : Yaml) where
  required_problems : Dict Value → List Text → List Problem
  unfolding is_missing Dict.get
  required_problems frontmatter [] = []
  required_problems frontmatter (field ∷ fields) =
      refused (not (is_missing (Dict.get frontmatter field))) (missing_field field)
      ++ required_problems frontmatter fields

  tags_problems : Option Value → List Problem
  tags_problems none = []
  tags_problems (some null) = []
  tags_problems (some (str s)) = []
  tags_problems (some (seq vs)) = []
  tags_problems (some _) = bad_tags ∷ []

  -- A value that is given must be one of those listed.
  listed_problems : (Text → Problem) → Option Value → List Text → List Problem
  unfolding py_str text_in
  listed_problems problem none values = []
  listed_problems problem (some v) values =
      refused (text_in (py_str yaml v) values) (problem (py_str yaml v))

  -- An empty list of priorities allows any.
  priority_problems : Option Value → List Text → List Problem
  unfolding listed_problems
  priority_problems v [] = []
  priority_problems v (p ∷ values) = listed_problems bad_priority v (p ∷ values)

  abbrev is_claim : Option Value → Bool
  is_claim v = elim (claim_fields yaml v) [ none ↦ false | some c ↦ true ]

  claim_problems : Option Value → List Problem
  unfolding claim_fields
  claim_problems none = []
  claim_problems (some v) = refused (is_claim (some v)) bad_claim

  link_problems : Text → Text → List Problem
  unfolding is_area_link
  link_problems folder [] = missing_area folder ∷ []
  link_problems folder (c ∷ s) = refused (is_area_link (c ∷ s)) (bad_area (c ∷ s))

  area_problems : Option Text → Option Value → List Problem
  unfolding link_problems stripped
  area_problems none area = []
  area_problems (some folder) none = missing_area folder ∷ []
  area_problems (some folder) (some v) = link_problems folder (stripped yaml v)

  vocabulary_problems : List Text → List Text → List Problem
  unfolding text_in
  vocabulary_problems vocabulary [] = []
  vocabulary_problems vocabulary (tag ∷ tags) =
      refused (text_in tag vocabulary) (unknown_tag tag) ++ vocabulary_problems vocabulary tags

  unfoldable pub validate : Dict Value → Text → Schema → List Problem
  unfolding required_problems tags_problems listed_problems priority_problems claim_problems
      area_problems vocabulary_problems Dict.get tags_of starts_with
  validate frontmatter key schema =
      let field = λ (name : Text). present (Dict.get frontmatter name) in
      required_problems frontmatter schema.required_fields
      ++ (tags_problems (Dict.get frontmatter (codes "tags"))
          ++ (listed_problems bad_status (field (codes "status")) schema.status_values
              ++ (listed_problems bad_kind (field (codes "kind")) schema.kind_values
                  ++ (priority_problems (field (codes "priority")) schema.priority_values
                      ++ (claim_problems (field claim_key)
                          ++ (area_problems (first (inside key) schema.area_required_in)
                                (field (codes "area"))
                              ++ (if schema.tags_strict
                                  then vocabulary_problems schema.tag_vocabulary
                                      (tags_of yaml frontmatter)
                                  else [])))))))
