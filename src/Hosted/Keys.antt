-- ===== src/Hosted/Keys.antt =====
-- The keys of an account: `create_key`, `key_grant` and the rest of `HostedStore` on keys, and
-- `ApiKeyCredentials`, in mindin/auth/hosted_store.py.
use notes_vault_mcp.Prelude.{
  ℕ, ◌+◌, Text, codes, text_eq, Result, ok, err, value_error, Bool, true, not, ◌&&◌, ◌||◌, Option,
  none, some, List, [], ◌∷◌, ◌++◌, first, any, length, take, drop, map, leb, ltb, if◌then◌else◌,
}
use notes_vault_mcp.Prelude.Strings.{starts_with, text_in, strip, is_space}
use notes_vault_mcp.Device.{read_scope, write_scope}
use notes_vault_mcp.Hosted.{
  Account, Vault, ApiKey, Store, Outside, account_by_id, vault, reaches, is_active, is_live_row,
}

abbrev pub key_prefix : Text
key_prefix = codes "nvm_"

abbrev pub key_id_length : ℕ
key_id_length = 12

abbrev pub last_used_resolution : ℕ
last_used_resolution = 60

pub record Grant : Type 0 where
  pub holder : Account
  pub home : Vault
  pub key_id : Text
  pub name : Text
  pub scopes : List Text
  pub purpose : Text

abbrev or_unnamed : Text → Text
or_unnamed [] = codes "unnamed"
or_unnamed (c ∷ s) = c ∷ s

-- The vault that is named, or the account's first.
unfoldable pub home_of : Store → Text → Text → Option Vault
unfolding vault text_eq
home_of s who [] = first (λ (v : Vault). text_eq v.account_id who) s.vaults
home_of s who (c ∷ ref) = vault s (c ∷ ref)

module _ (o : Outside) where
  -- `secret` is the key that is drawn, with its id behind the prefix.
  key_for :
      Option Vault → Text → Text → Text → Text → List Text → Text → Store → Result Text × Store
  unfolding reaches strip is_space
  key_for none id rest who name scopes purpose s = (err value_error, s)
  key_for (some v) id rest who name scopes purpose s =
      let secret = key_prefix ++ (id ++ rest) in
      let row : ApiKey = record {
        id = id;
        account_id = who;
        vault_id = v.id;
        name = or_unnamed (take 64 (strip is_space name));
        key_hash = o.digest secret;
        scopes = scopes;
        purpose = purpose;
        last_used_at = none;
        revoked_at = none;
      } in
      if reaches s v who
      then (ok secret, record s { keys = s.keys ++ (row ∷ []) })
      else (err value_error, s)

  unfoldable pub create_key :
      Text → Text → Text → Text → List Text → Text → Text → Store → Result Text × Store
  unfolding key_for home_of
  create_key id rest who name scopes purpose ref s =
      key_for (home_of s who ref) id rest who name scopes purpose s

  abbrev pub is_stale : Option ℕ → ℕ → Bool
  is_stale none now = true
  is_stale (some last) now = leb (last + last_used_resolution) now

  abbrev mark_used : Text → ℕ → ApiKey → ApiKey
  mark_used id now k = if text_eq k.id id then record k { last_used_at = some now } else k

  unfoldable pub used : ApiKey → ℕ → Store → Store
  unfolding text_eq
  used k now s =
      if is_stale k.last_used_at now then record s { keys = map (mark_used k.id now) s.keys } else s

  unfoldable pub grant_in : ApiKey → Option Account → Option Vault → Store → Option Grant
  unfolding reaches
  grant_in k none home s = none
  grant_in k (some holder) none s = none
  grant_in k (some holder) (some home) s =
      if reaches s home holder.id
      then some (record {
        holder = holder;
        home = home;
        key_id = k.id;
        name = k.name;
        scopes = k.scopes;
        purpose = k.purpose;
      })
      else none

  unfoldable pub grant_of : Text → ℕ → Store → Option ApiKey → Option Grant × Store
  unfolding used grant_in account_by_id vault text_eq
  grant_of key now s none = (none, s)
  grant_of key now s (some k) =
      if text_eq k.key_hash (o.digest key)
      then (let t = used k now s in
          (grant_in k (account_by_id t k.account_id) (vault t k.vault_id) t, t))
      else (none, s)

  unfoldable pub is_key : Text → Bool
  unfolding starts_with
  is_key key = starts_with key key_prefix && not (ltb (length key) 32)

  unfoldable pub key_row : Store → Text → Option ApiKey
  unfolding text_eq is_live_row
  key_row s key =
      first
        (λ (k : ApiKey). text_eq k.id (take key_id_length (drop 4 key)) && is_live_row k.revoked_at)
        s.keys

  -- Who a key lets in, and where.
  unfoldable pub key_grant : Text → ℕ → Store → Option Grant × Store
  unfolding grant_of is_key key_row
  key_grant key now s = if is_key key then grant_of key now s (key_row s key) else (none, s)

  abbrev is_its_vault : Text → Text → Bool
  is_its_vault [] ref = true
  is_its_vault (c ∷ wanted) ref = text_eq ref (c ∷ wanted)

  abbrev is_revoked_now : Text → Text → Text → ApiKey → Bool
  is_revoked_now who id wanted k =
      text_eq k.id id
      && text_eq k.account_id who
      && is_its_vault wanted k.vault_id
      && is_live_row k.revoked_at

  unfoldable pub revoke_key : Text → Text → Text → ℕ → Store → Bool × Store
  unfolding text_eq is_live_row
  revoke_key who id wanted now s = (
    any (is_revoked_now who id wanted) s.keys,
    record s {
      keys =
          map
            (λ k. if is_revoked_now who id wanted k then record k { revoked_at = some now } else k)
            s.keys;
    },
  )

  abbrev is_for_purpose : Text → Text → Text → ApiKey → Bool
  is_for_purpose ref purpose who k =
      text_eq k.vault_id ref
      && text_eq k.purpose purpose
      && text_eq k.account_id who
      && is_live_row k.revoked_at

  unfoldable pub revoke_purpose : Text → Text → Text → ℕ → Store → Store
  unfolding text_eq is_live_row
  revoke_purpose ref purpose who now s = record s {
    keys =
        map
          (λ k. if is_for_purpose ref purpose who k then record k { revoked_at = some now } else k)
          s.keys;
  }

  abbrev owner_of : Text → Option Vault → Text
  owner_of [] none = []
  owner_of [] (some v) = v.account_id
  owner_of (c ∷ who) home = c ∷ who

  -- The keys of a vault for WebDAV: a new one replaces the account's earlier ones.
  issue_for : Text → Text → ℕ → Option Vault → Option Account → Store → Result Text × Store
  unfolding is_active reaches revoke_purpose create_key
  issue_for id rest now none holder s = (err value_error, s)
  issue_for id rest now (some home) none s = (err value_error, s)
  issue_for id rest now (some home) (some holder) s =
      if is_active holder.status && reaches s home holder.id
      then create_key id rest holder.id (codes "Obsidian (WebDAV)") (read_scope ∷ write_scope ∷ [])
          (codes "webdav") home.id (revoke_purpose home.id (codes "webdav") holder.id now s)
      else (err value_error, s)

  unfoldable pub issue : Text → Text → ℕ → Text → Text → Store → Result Text × Store
  unfolding issue_for vault account_by_id
  issue id rest now subject who s =
      issue_for id rest now (vault s subject) (account_by_id s (owner_of who (vault s subject))) s

  looked_up : Option Grant → Option (Text × Bool)
  unfolding is_active text_eq text_in
  looked_up none = none
  looked_up (some g) =
      let scopes = o.allowed g.holder g.scopes in
      if not (is_active g.holder.status) || text_eq g.holder.sub []
      then none
      else if leb 1 (length scopes)
      then some (g.home.id, text_in write_scope scopes)
      else none

  -- The vault that a key is for, and whether it may write there.
  unfoldable pub lookup : Text → ℕ → Store → Option (Text × Bool) × Store
  unfolding looked_up key_grant
  lookup secret now s = let (found, t) = key_grant secret now s in (looked_up found, t)
