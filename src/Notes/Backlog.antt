-- ===== src/Notes/Backlog.antt =====
-- `backlog_add` of mindin/notes.py: a new note of the backlog, under a name that no note has.
pub mod Laws
use notes_vault_mcp.Prelude.{
  ℕ, zero, suc, Text, codes, text_eq, Result, ok, err, Error, version_conflict, value_error, Bool,
  true, false, ◌||◌, Option, none, some, List, [], ◌∷◌, ◌++◌, if◌then◌else◌, ◌>>=◌,
}
use notes_vault_mcp.Prelude.Strings.{before, starts_with}
use notes_vault_mcp.Prelude.Dict.{Dict}
use notes_vault_mcp.Backends.{Backend, Entry, must_not_exist}
use notes_vault_mcp.Schema.{backlog_folder}
use notes_vault_mcp.Frontmatter.{Value, str, date, seq, cons, nil, dump}
use notes_vault_mcp.Frontmatter.Validate.{Problem, validate}
use notes_vault_mcp.Notes.Key.{note_key}
use notes_vault_mcp.Notes.Vault.{Vault, Call, list_stored, put_stored, reindex}
use notes_vault_mcp.Notes.Rewrite.{rewrite_retries, is_conflict}
use notes_vault_mcp.Notes.FreeKey.{free_key}
use notes_vault_mcp.Notes.Operations.{Context, put_given}
use notes_vault_mcp.Notes.Close.{keys_of}
use notes_vault_mcp.Notes.Slug.{Letters, dash, title_slug, area_stem}

-- The slug of the title, behind the family of the area.
unfoldable pub backlog_stem : Letters → Text → Text → Text
unfolding title_slug text_eq starts_with
backlog_stem u family title =
    let slug = title_slug u title in
    if text_eq slug family || starts_with slug (family ++ codes "-")
    then slug
    else family ++ (codes "-" ++ slug)

unfoldable pub backlog_fields :
    Text → Text → Text → Text → Text → Option Text → Option Text → Dict Value
backlog_fields today title family area line priority source =
    put_given
      (put_given
        ((codes "title", str title)
          ∷ (codes "date", date today)
          ∷ (codes "updated", date today)
          ∷ (codes "tags", seq (cons (str family) nil))
          ∷ (codes "status", str (codes "backlog"))
          ∷ (codes "kind", str (codes "task"))
          ∷ (codes "area", str (codes "[[" ++ (area ++ codes "]]")))
          ∷ (codes "summary", str line)
          ∷ [])
        (codes "priority") priority)
      (codes "source") source

module _ {S : Type 0} (b : Backend S) (x : Context) where
  abbrev Again : Type 0
  Again = List Text → Vault S → Result Text × Vault S

  after_add : Text → Text → List Text → Result Text × Vault S → Again → Result Text × Vault S
  unfolding reindex is_conflict
  after_add key text lost (ok version, v) again = (ok key, reindex key text version v)
  after_add key text lost (err e, v) again =
      if is_conflict e then again (key ∷ lost) v else (err e, v)

  add_checked : Text → Text → List Text → List Problem → Vault S → Again → Result Text × Vault S
  unfolding after_add put_stored
  add_checked key text lost (p ∷ problems) v again = (err value_error, v)
  add_checked key text lost [] v again =
      after_add key text lost (put_stored b key text (some must_not_exist) v) again

  add_at : Dict Value → Text → List Text → Result Text → Vault S → Again → Result Text × Vault S
  unfolding add_checked validate
  add_at fm text lost (err e) v again = (err e, v)
  add_at fm text lost (ok key) v again =
      add_checked key text lost (validate x.yaml fm key x.schema) v again

  named : Option Text → Result Text
  unfolding note_key
  named none = err version_conflict
  named (some key) = note_key key

  add_listed :
      Text
      → Dict Value
      → Text
      → Text
      → List Text
      → Result (List Entry) × Vault S
      → Again
      → Result Text × Vault S
  unfolding add_at named free_key
  add_listed folder fm text stem lost (err e, v) again = (err e, v)
  add_listed folder fm text stem lost (ok entries, v) again =
      add_at fm text lost (named (free_key folder stem (keys_of entries ++ lost))) v again

  add_in :
      Result Text → Dict Value → Text → Text → List Text → Vault S → Again → Result Text × Vault S
  unfolding add_listed list_stored
  add_in (err e) fm text stem lost v again = (err e, v)
  add_in (ok folder) fm text stem lost v again =
      add_listed folder fm text stem lost (list_stored b v) again

  unfoldable pub add_loop : Dict Value → Text → Text → ℕ → Again
  unfolding add_in backlog_folder
  add_loop fm text stem zero lost v = (err version_conflict, v)
  add_loop fm text stem (suc rounds) lost v =
      add_in (backlog_folder x.schema) fm text stem lost v (add_loop fm text stem rounds)

  -- The area is the stem of a system note, or a link to it.
  add_for : Letters → Text → Text → Text → Option Text → Option Text → Call S Text
  unfolding add_loop backlog_fields backlog_stem dump before
  add_for u [] title line priority source v = (err value_error, v)
  add_for u (a ∷ area) title line priority source v =
      let family = before dash (a ∷ area) in
      let fm = backlog_fields x.today title family (a ∷ area) line priority source in
      add_loop fm (dump x.yaml fm (line ++ codes "\n")) (backlog_stem u family title)
        (suc rewrite_retries) [] v

  unfoldable pub backlog_add :
      Letters → Text → Text → Text → Option Text → Option Text → Call S Text
  unfolding add_for area_stem
  backlog_add u title area line priority source v =
      add_for u (area_stem area) title line priority source v
