-- ===== src/Device.antt =====
-- The device login of mindin/auth/device.py, over the devices table of mindin/auth/hosted_store.py: a
-- device polls `token` with its code, and a person who is signed in approves or denies it. Accounts and
-- vaults are tables of the store that are asked only yes or no; whether a limit on attempts allows
-- another one is given with the call. Scopes are a list, NULL is the empty text.
pub mod Laws
use notes_vault_mcp.Prelude.{
  ℕ, ◌+◌, Text, codes, text_eq, Bool, true, false, not, ◌&&◌, ◌||◌, Option, none, some, List, [],
  ◌∷◌, ltb, if◌then◌else◌,
}
use notes_vault_mcp.Prelude.Strings.{text_in}
use notes_vault_mcp.Prelude.Dict.{Dict}
use notes_vault_mcp.Prelude.Dict

pub data Status : Type 0 where
  pending approved denied : Status

pub record Device : Type 0 where
  pub user_code : Text
  pub client_id : Text
  pub name : Text
  pub scopes : List Text
  pub status : Status
  pub account_id : Text
  pub vault_id : Text
  pub granted : List Text
  pub interval : ℕ
  pub expires_at : ℕ
  pub last_poll_at : Option ℕ

pub record Key : Type 0 where
  pub account : Text
  pub key_name : Text
  pub key_scopes : List Text
  pub vault : Text

pub record Store : Type 0 where
  -- by the digest of the device code
  pub devices : Dict Device
  pub keys : List Key

pub data Reply : Type 0 where
  issued : Key → Reply
  slow_down invalid_grant expired_token authorization_pending access_denied : Reply

-- What the other tables say: an account is active; a vault is there and an account reaches it.
pub record Tables : Type 0 where
  pub is_active : Text → Bool
  pub reaches : Text → Text → Bool

abbrev pub slow_down_step : ℕ
slow_down_step = 5

abbrev pub read_scope : Text
read_scope = codes "vault:read"

abbrev pub write_scope : Text
write_scope = codes "vault:write"

abbrev pub update_device : Text → Device → Store → Store
update_device hash row s = record s { devices = Dict.put s.devices hash row }

abbrev pub drop_device : Text → Store → Store
drop_device hash s = record s { devices = Dict.remove s.devices hash }

abbrev pub unknown_code : Bool → Reply
unknown_code true = invalid_grant
unknown_code false = slow_down

-- row["last_poll_at"] is not None and moment - row["last_poll_at"] < row["interval"]
is_early : Option ℕ → ℕ → ℕ → Bool
is_early none interval now = false
is_early (some last) interval now = ltb now (last + interval)

module _ (tables : Tables) where
  abbrev key_of : Device → Key
  key_of row = record {
    account = row.account_id;
    key_name = row.name;
    key_scopes = row.granted;
    vault = row.vault_id;
  }

  -- The code has been consumed.
  issue : Device → Store → Reply × Store
  issue row s =
      if tables.is_active row.account_id && tables.reaches row.vault_id row.account_id
      then (issued (key_of row), record s { keys = key_of row ∷ s.keys })
      else (access_denied, s)

  -- `consumed` says whether the row was still there to be dropped.
  answer : Status → Bool → Text → Device → Store → Reply × Store
  unfolding issue Dict.remove
  answer pending consumed hash row s = (authorization_pending, s)
  answer denied consumed hash row s = (access_denied, drop_device hash s)
  answer approved false hash row s = (access_denied, drop_device hash s)
  answer approved true hash row s = issue row (drop_device hash s)

  poll : Text → Device → ℕ → Store → Reply × Store
  unfolding answer is_early Dict.put Dict.has_key Dict.remove
  poll hash row now s =
      if ltb row.expires_at now
      then (expired_token, drop_device hash s)
      else if is_early row.last_poll_at row.interval now
      then (
        slow_down,
        update_device hash
            (record row { last_poll_at = some now; interval = row.interval + slow_down_step }) s,
      )
      else (let polled = update_device hash (record row { last_poll_at = some now }) s in
          answer row.status (Dict.has_key polled.devices hash) hash row polled)

  token_row : Option Device → Text → Text → Bool → ℕ → Store → Reply × Store
  unfolding poll text_eq
  token_row none hash client allowed now s = (unknown_code allowed, s)
  token_row (some row) hash client allowed now s =
      if text_eq row.client_id client then poll hash row now s else (unknown_code allowed, s)

  -- `hash` is the digest of the code that was sent.
  unfoldable pub token : Text → Text → Bool → ℕ → Store → Reply × Store
  unfolding token_row Dict.get
  token hash client allowed now s = token_row (Dict.get s.devices hash) hash client allowed now s

-- What a person may be given of what the device asked for.
unfoldable pub granted_scopes : Bool → Device → List Text
unfolding text_in
granted_scopes write row =
    if write && text_in write_scope row.scopes
    then read_scope ∷ write_scope ∷ []
    else read_scope ∷ []

-- The approval and the denial of `submit`, for the row that is pending under the code.
unfoldable pub approve : Text → Device → Text → Text → Bool → Store → Store
unfolding granted_scopes Dict.put
approve hash row account vault write s =
    update_device hash
      (record row {
        status = approved;
        account_id = account;
        vault_id = vault;
        granted = granted_scopes write row;
      })
      s

unfoldable pub deny : Text → Device → Text → Store → Store
unfolding Dict.put
deny hash row account s =
    update_device hash (record row { status = denied; account_id = account }) s
