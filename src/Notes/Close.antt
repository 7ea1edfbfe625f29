-- ===== src/Notes/Close.antt =====
-- `close` of mindin/notes.py: a note that is done is written to the archive and taken away from where
-- it was, over the version that was read.
pub mod Laws
use notes_vault_mcp.Prelude.{
  ℕ, zero, suc, Text, codes, Result, ok, err, Error, version_conflict, Done, Bool, true, false,
  ◌||◌, Option, none, some, List, [], ◌∷◌, ◌++◌, map, if◌then◌else◌,
}
use notes_vault_mcp.Prelude.Strings.{after_last, remove_suffix, slash}
use notes_vault_mcp.Prelude.Dict.{Dict}
use notes_vault_mcp.Prelude.Dict
use notes_vault_mcp.Backends.{Backend, Entry, must_not_exist}
use notes_vault_mcp.Schema.{archive_folder, under}
use notes_vault_mcp.Frontmatter.{Value, str, claim_key, parse}
use notes_vault_mcp.Notes.Key.{note_key}
use notes_vault_mcp.Notes.Vault.{
  Vault, Call, read_stored, list_stored, put_stored, delete_stored, delete_stored_checked, reindex,
  unindex,
}
use notes_vault_mcp.Notes.Rewrite.{rewrite_retries, is_conflict}
use notes_vault_mcp.Notes.FreeKey.{free_key}
use notes_vault_mcp.Notes.Operations.{Context, finished, status_key}

-- `stem_of` of mindin/index.py
unfoldable pub stem_of : Text → Text
unfolding after_last remove_suffix
stem_of key = remove_suffix (after_last slash key) (codes ".md")

abbrev or_complete : Option Text → Text
or_complete none = codes "complete"
or_complete (some []) = codes "complete"
or_complete (some (c ∷ s)) = c ∷ s

stated : Option Text → Option Text → Dict Value → Dict Value
unfolding stem_of Dict.put
stated none status fm = Dict.put fm status_key (str (or_complete status))
stated (some []) status fm = Dict.put fm status_key (str (or_complete status))
stated (some (c ∷ merged)) status fm =
    Dict.put (Dict.put fm status_key (str (codes "superseded"))) (codes "superseded_by")
      (str (codes "[[" ++ (stem_of (c ∷ merged) ++ codes "]]")))

unfoldable pub closed_fields : Option Text → Option Text → Dict Value → Dict Value
unfolding stated Dict.remove
closed_fields merged_into status fm = Dict.remove (stated merged_into status fm) claim_key

abbrev pub keys_of : List Entry → List Text
keys_of entries = map (λ (e : Entry). e.key) entries

module _ {S : Type 0} (b : Backend S) (x : Context) (path : Text) where
  abbrev Again : Type 0
  Again = List Text → Vault S → Result Text × Vault S

  -- The copy is in the archive: the note goes, unless somebody has changed it.
  dropped_copy : Result Done × Vault S → List Text → Again → Result Text × Vault S
  dropped_copy (ok done, v) lost again = again lost v
  dropped_copy (err e, v) lost again = (err e, v)

  after_delete :
      Text → Text → Text → List Text → Result Done × Vault S → Again → Result Text × Vault S
  unfolding dropped_copy delete_stored is_conflict reindex unindex
  after_delete destination out version lost (ok done, v) again =
      (ok destination, reindex destination out version (unindex path v))
  after_delete destination out version lost (err e, v) again =
      if is_conflict e then dropped_copy (delete_stored b destination v) lost again else (err e, v)

  after_copy :
      Text → Text → Text → List Text → Result Text × Vault S → Again → Result Text × Vault S
  unfolding after_delete delete_stored_checked is_conflict
  after_copy destination out read_version lost (ok version, v) again =
      after_delete destination out version lost (delete_stored_checked b path read_version v) again
  after_copy destination out read_version lost (err e, v) again =
      if is_conflict e then again (destination ∷ lost) v else (err e, v)

  copy_printed : Text → Text → List Text → Result Text → Vault S → Again → Result Text × Vault S
  unfolding after_copy put_stored
  copy_printed destination read_version lost (err e) v again = (err e, v)
  copy_printed destination read_version lost (ok out) v again =
      after_copy destination out read_version lost
        (put_stored b destination out (some must_not_exist) v) again

  -- A name in the archive that no note has; `lost` are those that others took in earlier rounds.
  copy_to :
      Option Text → Dict Value → Text → Text → List Text → Vault S → Again → Result Text × Vault S
  unfolding copy_printed finished
  copy_to none fm body read_version lost v again = (err version_conflict, v)
  copy_to (some destination) fm body read_version lost v again =
      copy_printed destination read_version lost (finished x destination fm body) v again

  copy_listed :
      Text
      → Dict Value
      → Text
      → Text
      → List Text
      → Result (List Entry) × Vault S
      → Again
      → Result Text × Vault S
  unfolding copy_to free_key after_last
  copy_listed archive fm body read_version lost (err e, v) again = (err e, v)
  copy_listed archive fm body read_version lost (ok entries, v) again =
      copy_to (free_key archive (after_last slash path) (keys_of entries ++ lost)) fm body
        read_version lost v again

  after_place : Text → List Text → Result Text × Vault S → Again → Result Text × Vault S
  unfolding is_conflict reindex
  after_place out lost (ok version, v) again = (ok path, reindex path out version v)
  after_place out lost (err e, v) again = if is_conflict e then again lost v else (err e, v)

  place_printed : Text → List Text → Result Text → Vault S → Again → Result Text × Vault S
  unfolding after_place put_stored
  place_printed read_version lost (err e) v again = (err e, v)
  place_printed read_version lost (ok out) v again =
      after_place out lost (put_stored b path out (some read_version) v) again

  -- Where there is no archive, or the note is in it, it stays where it is.
  close_at :
      Option Text → Dict Value → Text → Text → List Text → Vault S → Again → Result Text × Vault S
  unfolding place_printed finished copy_listed list_stored under
  close_at none fm body read_version lost v again =
      place_printed read_version lost (finished x path fm body) v again
  close_at (some archive) fm body read_version lost v again =
      if under path (archive ∷ [])
      then place_printed read_version lost (finished x path fm body) v again
      else copy_listed archive fm body read_version lost (list_stored b v) again

  module _ (merged_into status : Option Text) where
    close_parsed :
        Result (Dict Value × Text) → Text → List Text → Vault S → Again → Result Text × Vault S
    unfolding close_at closed_fields archive_folder
    close_parsed (err e) read_version lost v again = (err e, v)
    close_parsed (ok (fm, body)) read_version lost v again =
        close_at (archive_folder x.schema) (closed_fields merged_into status fm) body read_version
          lost v again

    close_read : Result (Text × Text) → List Text → Vault S → Again → Result Text × Vault S
    unfolding close_parsed parse
    close_read (err e) lost v again = (err e, v)
    close_read (ok (text, version)) lost v again =
        close_parsed (parse x.yaml text) version lost v again

    unfoldable pub close_loop : ℕ → Again
    unfolding close_read read_stored
    close_loop zero lost v = (err version_conflict, v)
    close_loop (suc rounds) lost v =
        let (found, w) = read_stored b path v in close_read found lost w (close_loop rounds)

close_keyed :
    {S : Type 0} → Backend S → Context → Option Text → Option Text → Result Text → Call S Text
unfolding close_loop
close_keyed b x merged_into status (err e) v = (err e, v)
close_keyed b x merged_into status (ok key) v =
    close_loop b x key merged_into status (suc rewrite_retries) [] v

unfoldable pub close :
    {S : Type 0} → Backend S → Context → Text → Option Text → Option Text → Call S Text
unfolding close_keyed note_key
close b x path merged_into status v = close_keyed b x merged_into status (note_key path) v
