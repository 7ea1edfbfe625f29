-- ===== src/Hosted.antt =====
-- The tables of the hosted service: mindin/auth/hosted_store.py and mindin/auth/hosted_vaults.py. A row
-- is a record and a table the list of its rows in the order in which they were added; NULL is `none`,
-- or the empty text where the code treats the two alike. A transaction is one function.
pub mod Sharing
pub mod Keys
pub mod Tokens
pub mod Limits
use notes_vault_mcp.Prelude.{
  ℕ, Text, text_eq, Bool, true, false, ◌&&◌, ◌||◌, Option, none, some, List, first, any,
  if◌then◌else◌,
}
use notes_vault_mcp.Prelude.Dict.{Dict}
use notes_vault_mcp.Device.{Device}

pub data AccountStatus : Type 0 where
  invited active suspended : AccountStatus

pub data Kind : Type 0 where
  personal shared : Kind

pub data TokenKind : Type 0 where
  access refresh : TokenKind

pub record Account : Type 0 where
  pub id : Text
  pub email : Text
  -- who the identity provider says it is; empty before the first login
  pub sub : Text
  pub status : AccountStatus

pub record Vault : Type 0 where
  pub id : Text
  pub account_id : Text
  pub name : Text
  pub slug : Text
  pub created_at : ℕ
  pub kind : Kind

pub record Member : Type 0 where
  pub vault_id : Text
  pub account_id : Text
  pub joined_at : ℕ

pub record Invitation : Type 0 where
  pub vault_id : Text
  pub email : Text
  pub invited_by : Text
  pub created_at : ℕ

pub record ApiKey : Type 0 where
  pub id : Text
  pub account_id : Text
  pub vault_id : Text
  pub name : Text
  pub key_hash : Text
  pub scopes : List Text
  pub purpose : Text
  pub last_used_at : Option ℕ
  pub revoked_at : Option ℕ

pub record Token : Type 0 where
  pub token_hash : Text
  pub kind : TokenKind
  pub grant_id : Text
  pub client_id : Text
  pub account_id : Text
  pub vault_id : Text
  pub scopes : List Text
  pub resource : Text
  pub expires_at : ℕ
  pub revoked : Bool

pub record Code : Type 0 where
  pub code_hash : Text
  pub expires_at : ℕ
  pub client_id : Text
  pub scopes : List Text
  pub resource : Text
  pub account_id : Text
  pub vault_id : Text

pub record Store : Type 0 where
  pub accounts : List Account
  pub vaults : List Vault
  pub members : List Member
  pub invitations : List Invitation
  pub keys : List ApiKey
  pub tokens : List Token
  pub codes : List Code
  pub devices : Dict Device
  -- the vaults whose owner lets the operator in
  pub support_grants : List Text

-- What the code asks of hashing, of Unicode, of SQLite's NOCASE, of the extensions and of a URL.
pub record Outside : Type 0 where
  -- SHA-256 in hexadecimal
  pub digest : Text → Text
  -- str.lower
  pub lower : Text → Text
  -- str.isprintable of one character
  pub is_printable : ℕ → Bool
  pub same_email : Text → Text → Bool
  -- what the extensions leave of an account's scopes
  pub allowed : Account → List Text → List Text
  -- whether a resource is this server's, and the vault that it names
  pub resource_target : Text → Bool × Option Text

unfoldable pub is_active : AccountStatus → Bool
is_active active = true
is_active _ = false

unfoldable pub is_shared : Kind → Bool
is_shared shared = true
is_shared personal = false

unfoldable pub is_live_row : Option ℕ → Bool
is_live_row none = true
is_live_row (some revoked_at) = false

module _ (o : Outside) where
  -- by its id or its address
  unfoldable pub account : Store → Text → Option Account
  unfolding text_eq
  account s ref =
      first (λ (a : Account). text_eq a.id ref || o.same_email a.email (o.lower ref)) s.accounts

unfoldable pub account_by_id : Store → Text → Option Account
unfolding text_eq
account_by_id s ref = first (λ (a : Account). text_eq a.id ref) s.accounts

unfoldable pub vault : Store → Text → Option Vault
unfolding text_eq
vault s ref = first (λ (v : Vault). text_eq v.id ref) s.vaults

unfoldable pub is_member : List Member → Text → Text → Bool
unfolding text_eq
is_member members ref who =
    any (λ (m : Member). text_eq m.vault_id ref && text_eq m.account_id who) members

-- The owner reaches a vault, and where it is shared its members do.
unfoldable pub reaches : Store → Vault → Text → Bool
unfolding is_shared is_member text_eq
reaches s v who = text_eq v.account_id who || (is_shared v.kind && is_member s.members v.id who)
