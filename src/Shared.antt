-- ===== src/Shared.antt =====
-- mindin/shared.py: what a shared vault takes. The rules hold only a name, for their messages.
pub mod Recording
use notes_vault_mcp.Prelude.{
  Text, codes, text_eq, Result, ok, err, shared_refusal, Done, Bool, not, ◌&&◌, ◌||◌, Option, none,
  some, List, [], ◌∷◌, any, if◌then◌else◌,
}
use notes_vault_mcp.Prelude.Strings.{starts_with, ends_with, split, before, has, slash, text_in}
use notes_vault_mcp.Prelude.Dict.{Dict}
use notes_vault_mcp.Prelude.Dict
use notes_vault_mcp.Backends.{schema_key, is_dotted}
use notes_vault_mcp.Frontmatter.{Value, null, Yaml, py_str, parse}

abbrev pub current_kinds : List Text
current_kinds =
    codes "system" ∷ codes "howto" ∷ codes "decision" ∷ codes "reference" ∷ codes "trap" ∷ []

-- FOLDER_KINDS.get(folder)
unfoldable pub folder_kinds : Text → Option (List Text)
unfolding text_eq
folder_kinds folder =
    if text_eq folder (codes "Areas")
    then some (codes "system" ∷ [])
    else if text_eq folder (codes "Resources")
    then some (codes "howto" ∷ codes "decision" ∷ codes "reference" ∷ codes "trap" ∷ [])
    else if text_eq folder (codes "Archive")
    then some current_kinds
    else none

unfoldable pub recorded : Text → Bool
unfolding ends_with split starts_with
recorded key = not (ends_with key (codes "/")) && not (any is_dotted (split slash key))

module _ (yaml : Yaml) where
  kind_allowed : List Text → Option Value → Result Done
  unfolding py_str text_in
  kind_allowed kinds none = ok tt
  kind_allowed kinds (some null) = ok tt
  kind_allowed kinds (some kind) =
      if text_in (py_str yaml kind) kinds then ok tt else err shared_refusal

  unfoldable pub check_note : Text → Dict Value → Result Done
  unfolding folder_kinds kind_allowed Dict.get before has
  check_note key frontmatter =
      let folder = if has slash key then before slash key else [] in
      elim (folder_kinds folder) [
        | none ↦ err shared_refusal
        | some kinds ↦ kind_allowed kinds (Dict.get frontmatter (codes "kind"))
      ]

  -- Frontmatter that does not parse, or bytes that are no text, count as none.
  frontmatter_or_empty : Option Text → Dict Value
  unfolding parse
  frontmatter_or_empty none = []
  frontmatter_or_empty (some text) = elim (parse yaml text) [ ok (fm, body) ↦ fm | err x ↦ [] ]

  -- `text` is the decoded content, `none` where it does not decode.
  unfoldable pub check_write : Text → Option Text → Result Done
  unfolding check_note frontmatter_or_empty recorded starts_with ends_with text_eq
  check_write key text =
      if text_eq key schema_key || starts_with key (codes ".vault/")
      then err shared_refusal
      else if not (recorded key) || not (ends_with key (codes ".md"))
      then ok tt
      else check_note key (frontmatter_or_empty text)
