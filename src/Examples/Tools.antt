-- ===== src/Examples/Tools.antt =====
-- The theorems on closing, the backlog, slugs and schema files at concrete inputs.
use notes_vault_mcp.Prelude.{
  ℕ, ◌≤◌, ◌<◌, ap, Text, codes, ok, ◌≡◌, ◌≢◌, refl, true, false, none, [], ◌∷◌, length, arith,
}
use notes_vault_mcp.Prelude.Strings.{join, text_in}
use notes_vault_mcp.Prelude.Dict
use notes_vault_mcp.Backends.Local.{Disk, get, put, list, delete_checked}
use notes_vault_mcp.Backends.Local.Laws.{backend, local_versioned}
use notes_vault_mcp.Backends.Local.Paths.{path_of, ancestors}
use notes_vault_mcp.Backends.{sort_entries, is_vault_key}
use notes_vault_mcp.Schema.{Schema}
use notes_vault_mcp.Frontmatter.{str, seq, cons, nil, mapping, Fields, end, field}
use notes_vault_mcp.Frontmatter.Block.{block_match}
use notes_vault_mcp.Notes.Vault.{Vault}
use notes_vault_mcp.Notes.Operations.{Context}
use notes_vault_mcp.Notes.Close.{close}
use notes_vault_mcp.Notes.Close.Laws.{IsArchived, close_archives}
use notes_vault_mcp.Notes.Backlog.{backlog_add}
use notes_vault_mcp.Notes.Backlog.Laws.{IsAdded, backlog_add_fresh}
use notes_vault_mcp.Notes.Slug.{Letters, slug_max, title_slug}
use notes_vault_mcp.Notes.Slug.Bounds.{title_slug_fits}
use notes_vault_mcp.Layout.Merge.{get_field, merge_fields, IsMerged, merge_fields-IsMerged}
use notes_vault_mcp.Layout.Loading.{
  Library, troubles, schema_from, schema_from_text, backlog_said, schema_from_text-IsHonoured,
}
use notes_vault_mcp.Layout.Contract.{IsHonoured}
use notes_vault_mcp.Examples.{
  toy_yaml, toy_outside, toy_faithful, toy_schema, note_path, quiet_vault,
}

abbrev archive_schema : Schema
archive_schema = record toy_schema {
  folders =
      record { name = codes "P"; kind = codes "task"; searched = true }
      ∷ record { name = codes "A"; kind = codes "archive"; searched = true }
      ∷ [];
  kind_values = codes "task" ∷ [];
  status_values = codes "active" ∷ codes "complete" ∷ codes "backlog" ∷ [];
}

abbrev archive_context : Context
archive_context = record {
  yaml = toy_yaml;
  schema = archive_schema;
  today = codes "2026-01-02";
  is_shared = false;
}

abbrev after_close : Vault Disk
unfolding close get put list delete_checked block_match path_of join ancestors text_in Dict.has_key
    sort_entries is_vault_key
after_close = (close (backend toy_outside) archive_context note_path none none quiet_vault).1

after_close_lem :
    close (backend toy_outside) archive_context note_path none none quiet_vault
    ≡ (ok (codes "A/a.md"), after_close)
unfolding close get put list delete_checked block_match path_of join ancestors text_in Dict.has_key
    sort_entries is_vault_key
after_close_lem = refl

first_of : Text → ℕ
first_of [] = 0
first_of (c ∷ s) = c

moved_on : codes "A/a.md" ≢ note_path
unfolding first_of
moved_on h =
    let same : first_of (codes "A/a.md") ≡ first_of note_path = ap first_of h in
    absurd (omega arith)

close_archives_example :
    IsArchived
      (backend toy_outside)
      archive_context
      (local_versioned toy_outside toy_faithful)
      note_path
      none
      none
      (codes "A/a.md")
      after_close
close_archives_example =
    close_archives (backend toy_outside) archive_context (local_versioned toy_outside toy_faithful)
      note_path none none quiet_vault after_close (codes "A/a.md") after_close_lem moved_on

abbrev plain_letters : Letters
plain_letters = record { fold = λ s. s; casefold = λ s. s; is_word = λ c. true }

title_slug_fits_example :
    (0 < length (title_slug plain_letters (codes "!!")))
    × (length (title_slug plain_letters (codes "!!")) ≤ slug_max)
title_slug_fits_example = title_slug_fits plain_letters (codes "!!")

abbrev after_add : Vault Disk
unfolding backlog_add get put list delete_checked block_match path_of join ancestors text_in
    Dict.has_key sort_entries is_vault_key
after_add =
    (backlog_add (backend toy_outside) archive_context plain_letters (codes "fix it") (codes "sys")
      (codes "do") none none quiet_vault).1

after_add_lem :
    backlog_add
      (backend toy_outside)
      archive_context
      plain_letters
      (codes "fix it")
      (codes "sys")
      (codes "do")
      none
      none
      quiet_vault
    ≡ (ok (codes "P/sys-fix-it.md"), after_add)
unfolding backlog_add get put list delete_checked block_match path_of join ancestors text_in
    Dict.has_key sort_entries is_vault_key
after_add_lem = refl

backlog_add_fresh_example :
    IsAdded
      (backend toy_outside)
      archive_context
      (local_versioned toy_outside toy_faithful)
      (codes "P/sys-fix-it.md")
      after_add
backlog_add_fresh_example =
    backlog_add_fresh (backend toy_outside) archive_context
      (local_versioned toy_outside toy_faithful) plain_letters (codes "fix it") (codes "sys")
      (codes "do") none none quiet_vault after_add (codes "P/sys-fix-it.md") after_add_lem

abbrev small_preset : Fields
small_preset =
    field (codes "frontmatter")
      (mapping (
        field (codes "status_values")
          (seq (cons (str (codes "complete")) (cons (str (codes "superseded")) nil))) end))
      end

abbrev small_library : Library
small_library = record {
  yaml = record toy_yaml {
    load = λ text. ok (mapping (field (codes "language") (str (codes "sv")) end));
  };
  formats = λ text fields. true;
  format = λ text fields. text;
  presets = codes "default" ∷ codes "custom" ∷ [];
  preset_data = λ name. small_preset;
  is_word = λ c. true;
}

merge_fields-IsMerged_example :
    IsMerged
      (get_field small_preset (codes "language"))
      (get_field (field (codes "language") (str (codes "sv")) end) (codes "language"))
      (get_field
        (merge_fields small_preset (field (codes "language") (str (codes "sv")) end))
        (codes "language"))
unfolding get_field
merge_fields-IsMerged_example =
    merge_fields-IsMerged small_preset (field (codes "language") (str (codes "sv")) end)
      (codes "language") (refl, tt)

small_preset_sound : (name : Text) → troubles small_library small_preset ≡ []
unfolding troubles
small_preset_sound name = refl

schema_from_text-IsHonoured_example :
    IsHonoured
      (backlog_said small_library (schema_from_text small_library (codes "language: sv")).document)
      (schema_from small_library (schema_from_text small_library (codes "language: sv")).document)
schema_from_text-IsHonoured_example =
    schema_from_text-IsHonoured small_library (codes "language: sv") small_preset_sound
