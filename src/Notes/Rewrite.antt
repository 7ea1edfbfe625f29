-- ===== src/Notes/Rewrite.antt =====
-- `rewrite` of mindin/notes.py: read, change, and write over the version that was read, again and
-- again where another writer came in between.
pub mod Laws
pub mod Ends
use notes_vault_mcp.Prelude.{
  ℕ, zero, suc, Text, Result, ok, err, Error, version_conflict, is_not_found, Bool, true, false,
  Option, none, some, if◌then◌else◌,
}
use notes_vault_mcp.Backends.{Backend, must_not_exist}
use notes_vault_mcp.Notes.Vault.{Vault, Call, read_stored, put_stored, reindex}

abbrev pub rewrite_retries : ℕ
rewrite_retries = 3

unfoldable pub is_conflict : Error → Bool
is_conflict version_conflict = true
is_conflict _ = false

-- `except NotFound: current, version = None, MUST_NOT_EXIST`
unfoldable pub current_of : Result (Text × Text) → Result (Option Text × Text)
unfolding is_not_found
current_of (ok (text, version)) = ok (some text, version)
current_of (err x) = if is_not_found x then ok (none, must_not_exist) else err x

module _ {S : Type 0} (b : Backend S) (change : Option Text → Result (Option Text))
    (key : Text) where
  abbrev Written : Type 0
  Written = Result (Option (Text × Text)) × Vault S

  -- What follows a write: on a conflict the next round, else the index and the end.
  settle : Text → Result Text × Vault S → (Vault S → Written) → Written
  unfolding is_conflict reindex
  settle text (ok version, v) again = (ok (some (text, version)), reindex key text version v)
  settle text (err x, v) again = if is_conflict x then again v else (err x, v)

  write_change : Result (Option Text) → Text → Vault S → (Vault S → Written) → Written
  unfolding settle put_stored
  write_change (err x) version v again = (err x, v)
  write_change (ok none) version v again = (ok none, v)
  write_change (ok (some text)) version v again =
      settle text (put_stored b key text (some version) v) again

  round : Result (Option Text × Text) → Vault S → (Vault S → Written) → Written
  unfolding write_change
  round (err x) v again = (err x, v)
  round (ok (current, version)) v again = write_change (change current) version v again

  unfoldable pub rewrite_loop : ℕ → Call S (Option (Text × Text))
  unfolding round read_stored current_of
  rewrite_loop zero v = (err version_conflict, v)
  rewrite_loop (suc rounds) v =
      let (found, v') = read_stored b key v in round (current_of found) v' (rewrite_loop rounds)

  unfoldable pub rewrite : Call S (Option (Text × Text))
  unfolding rewrite_loop
  rewrite v = rewrite_loop (suc rewrite_retries) v
