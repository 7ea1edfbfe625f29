-- ===== src/Notes/Vault.antt =====
-- The state that the tools of mindin/notes.py work on: `Vault` of mindin/vault.py, as far as they
-- reach it, and `upsert` and `remove` of mindin/index.py. Other writers (a person with an editor,
-- another machine, a sync client) share the storage, so before each call on it something may change:
-- `env` says what, one change for a call, and a caller knows nothing of it.
use notes_vault_mcp.Prelude.{Text, Result, Done, ◌≡◌, Option, List, [], ◌∷◌, arith}
use notes_vault_mcp.Prelude.Dict.{Dict}
use notes_vault_mcp.Prelude.Dict
use notes_vault_mcp.Backends.{Backend, Entry}

-- A row of the index. Its other columns are read off `text` by `note_from_text`.
pub record Row : Type 0 where
  pub text : Text
  pub version : Text

pub record Vault (S : Type 0) : Type 0 where
  pub store : S
  pub index : Dict Row
  pub env : List (S → S)

-- A call that may raise, and keeps what it wrote before.
abbrev pub Call : Type 0 → Type 0 → Type 0
Call S A = Vault S → Result A × Vault S

module _ {S : Type 0} where
  step_env : S → List (S → S) → S × List (S → S)
  step_env s [] = (s, [])
  step_env s (f ∷ env) = (f s, env)

  unfoldable pub interfere : Vault S → Vault S
  unfolding step_env
  interfere v = let (s, env) = step_env v.store v.env in record v { store = s; env = env }

  -- _reindex(vault, key, text, version)
  unfoldable pub reindex : Text → Text → Text → Vault S → Vault S
  unfolding Dict.put
  reindex key text version v = record v {
    index = Dict.put v.index key (record { text = text; version = version });
  }

  unfoldable pub unindex : Text → Vault S → Vault S
  unfolding Dict.remove
  unindex key v = record v { index = Dict.remove v.index key }

module _ {S : Type 0} (b : Backend S) where
  -- _read(vault, path)
  unfoldable pub read_stored : Text → Call S (Text × Text)
  unfolding interfere
  read_stored key v = let v' = interfere v in (b.get v'.store key, v')

  unfoldable pub list_stored : Call S (List Entry)
  unfolding interfere
  list_stored v =
      let v' = interfere v in let (r, s) = b.list v'.store in (r, record v' { store = s })

  unfoldable pub put_stored : Text → Text → Option Text → Call S Text
  unfolding interfere
  put_stored key text expected v =
      let v' = interfere v in
      let (r, s) = b.put v'.store key text expected in (r, record v' { store = s })

  unfoldable pub delete_stored : Text → Call S Done
  unfolding interfere
  delete_stored key v =
      let v' = interfere v in let (r, s) = b.delete v'.store key in (r, record v' { store = s })

  unfoldable pub delete_stored_checked : Text → Text → Call S Done
  unfolding interfere
  delete_stored_checked key expected v =
      let v' = interfere v in
      let (r, s) = b.delete_checked v'.store key expected in (r, record v' { store = s })

  unfoldable pub move_stored : Text → Text → Call S Done
  unfolding interfere
  move_stored src dst v =
      let v' = interfere v in let (r, s) = b.move v'.store src dst in (r, record v' { store = s })

-- With nobody else at work nothing happens between two calls.
pub interfere_quiet : {S : Type 0} (v : Vault S) → v.env ≡ [] → interfere v ≡ v
unfolding interfere
interfere_quiet v quiet = ground arith
