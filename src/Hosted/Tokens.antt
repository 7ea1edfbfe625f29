-- ===== src/Hosted/Tokens.antt =====
-- Codes and tokens: `save_code` to `revoke_grant` of `HostedStore` in mindin/auth/hosted_store.py, and
-- what `HostedProvider` in mindin/auth/hosted.py does with them: a code or a refresh token is exchanged
-- for new tokens, and a token is authenticated for a vault.
pub mod Laws
use notes_vault_mcp.Prelude.{
  ℕ, ◌+◌, Text, text_eq, Bool, true, false, not, ◌&&◌, ◌||◌, Option, none, some, List, [], ◌∷◌,
  ◌++◌, first, any, all, keep, length, map, leb, ltb, if◌then◌else◌,
}
use notes_vault_mcp.Prelude.Strings.{text_in}
use notes_vault_mcp.Hosted.{
  Account, Vault, Token, TokenKind, access, refresh, Code, Store, Outside, account, vault, reaches,
  is_active,
}
use notes_vault_mcp.Hosted.Keys.{Grant, key_grant}

abbrev pub access_ttl : ℕ
access_ttl = 3600

abbrev pub refresh_ttl : ℕ
refresh_ttl = 2592000

unfoldable pub is_same_kind : TokenKind → TokenKind → Bool
is_same_kind access access = true
is_same_kind refresh refresh = true
is_same_kind access refresh = false
is_same_kind refresh access = false

-- The secrets that an exchange draws.
pub record Drawn : Type 0 where
  pub grant_id : Text
  pub access_token : Text
  pub refresh_token : Text

pub record Issued : Type 0 where
  pub access_token : Text
  pub refresh_token : Text
  pub scopes : List Text
  pub expires_in : ℕ

-- `AccessToken`, with what its claims say of the account and the vault.
pub record Access : Type 0 where
  pub subject : Text
  pub holder : Text
  pub slug : Text
  pub scopes : List Text
  pub is_owner : Bool
  pub expires_at : Option ℕ

-- `Verdict`: access, or a status of HTTP.
pub data Verdict : Type 0 where
  granted : Access → Verdict
  refused : ℕ → Verdict

module _ (o : Outside) where
  unfoldable pub save_code : Text → ℕ → Code → Store → Store
  save_code code now row s = record s {
    codes =
        keep (λ (c : Code). not (ltb c.expires_at now)) s.codes
        ++ (record row { code_hash = o.digest code } ∷ []);
  }

  unfoldable pub load_code : Text → Store → Option Code
  unfolding text_eq
  load_code code s = first (λ (c : Code). text_eq c.code_hash (o.digest code)) s.codes

  -- Whether the row was there to be deleted.
  unfoldable pub take_code : Text → Store → Bool × Store
  unfolding text_eq
  take_code code s = (
    any (λ (c : Code). text_eq c.code_hash (o.digest code)) s.codes,
    record s { codes = keep (λ c. not (text_eq c.code_hash (o.digest code))) s.codes },
  )

  unfoldable pub save_token : Text → Token → Store → Store
  save_token token row s = record s {
    tokens = s.tokens ++ (record row { token_hash = o.digest token } ∷ []);
  }

  abbrev pub is_token : Text → TokenKind → Token → Bool
  is_token token kind t =
      text_eq t.token_hash (o.digest token) && is_same_kind t.kind kind && not t.revoked

  unfoldable pub load_token : Text → TokenKind → Store → Option Token
  unfolding text_eq is_same_kind
  load_token token kind s = first (is_token token kind) s.tokens

  abbrev pub is_revocable : Text → Token → Bool
  is_revocable token t = text_eq t.token_hash (o.digest token) && not t.revoked

  abbrev pub revoke_this : Text → Token → Token
  revoke_this token t = if is_revocable token t then record t { revoked = true } else t

  unfoldable pub revoke_token : Text → Store → Bool × Store
  unfolding text_eq
  revoke_token token s =
      (any (is_revocable token) s.tokens, record s { tokens = map (revoke_this token) s.tokens })

  -- A token with every other of its grant.
  unfoldable pub revoke_grant : Text → Store → Store
  unfolding text_eq text_in
  revoke_grant token s =
      let grants =
        map (λ (t : Token). t.grant_id)
          (keep (λ t. text_eq t.token_hash (o.digest token)) s.tokens) in
      record s {
        tokens =
            map (λ t. if text_in t.grant_id grants then record t { revoked = true } else t)
              s.tokens;
      }

  -- `HostedProvider.issue`
  unfoldable pub issue : Drawn → Text → Text → Text → Text → List Text → ℕ → Store → Issued × Store
  unfolding save_token
  issue d client who home resource scopes now s =
      let row : TokenKind → ℕ → Token = λ kind ttl. record {
        token_hash = [];
        kind = kind;
        grant_id = d.grant_id;
        client_id = client;
        account_id = who;
        vault_id = home;
        scopes = scopes;
        resource = resource;
        expires_at = now + ttl;
        revoked = false;
      } in
      (
        record {
          access_token = d.access_token;
          refresh_token = d.refresh_token;
          scopes = scopes;
          expires_in = access_ttl;
        },
        save_token d.refresh_token (row refresh refresh_ttl)
            (save_token d.access_token (row access access_ttl) s),
      )

  active_account : Option Account → Option Account
  unfolding is_active
  active_account none = none
  active_account (some holder) = if is_active holder.status then some holder else none

  -- `require_active` and `require_vault`; `none` is invalid_grant.
  unfoldable pub require_active : Text → Store → Option Account
  unfolding active_account account
  require_active who s = active_account (account o s who)

  reached_vault : Option Vault → Text → Store → Option Vault
  unfolding reaches
  reached_vault none who s = none
  reached_vault (some home) who s = if reaches s home who then some home else none

  unfoldable pub require_vault : Account → Text → Store → Option Vault
  unfolding reached_vault vault
  require_vault holder ref s = reached_vault (vault s ref) holder.id s

  issue_in :
      Drawn → Text → Text → List Text → ℕ → Account → Option Vault → Store → Option Issued × Store
  unfolding issue
  issue_in d client resource scopes now holder none s = (none, s)
  issue_in d client resource scopes now holder (some home) s =
      let (issued, t) = issue d client holder.id home.id resource scopes now s in (some issued, t)

  issue_to :
      Drawn → Text → Text → List Text → ℕ → Option Account → Text → Store → Option Issued × Store
  unfolding issue_in require_vault
  issue_to d client resource scopes now none ref s = (none, s)
  issue_to d client resource scopes now (some holder) ref s =
      issue_in d client resource scopes now holder (require_vault holder ref s) s

  -- The code has been taken.
  redeem : Drawn → Text → List Text → ℕ → Code → Store → Option Issued × Store
  unfolding issue_to require_active
  redeem d client scopes now c s =
      if ltb c.expires_at now
      then (none, s)
      else issue_to d client c.resource scopes now (require_active c.account_id s) c.vault_id s

  exchange_found :
      Drawn → Text → List Text → ℕ → Option Code → Bool × Store → Store → Option Issued × Store
  unfolding redeem
  exchange_found d client scopes now none taken s = (none, s)
  exchange_found d client scopes now (some c) (false, t) s = (none, t)
  exchange_found d client scopes now (some c) (true, t) s = redeem d client scopes now c t

  -- `exchange_authorization_code`
  unfoldable pub exchange_code : Drawn → Text → Text → List Text → ℕ → Store → Option Issued × Store
  unfolding exchange_found load_code take_code
  exchange_code d client code scopes now s =
      exchange_found d client scopes now (load_code code s) (take_code code s) s

  abbrev or_scopes : List Text → List Text → List Text
  or_scopes [] held = held
  or_scopes (scope ∷ asked) held = scope ∷ asked

  refresh_found :
      Drawn → Text → List Text → ℕ → Option Token → Bool × Store → Store → Option Issued × Store
  unfolding issue_to require_active
  refresh_found d client scopes now none revoked s = (none, s)
  refresh_found d client scopes now (some t) (false, u) s = (none, u)
  refresh_found d client scopes now (some t) (true, u) s =
      issue_to d client t.resource (or_scopes scopes t.scopes) now (require_active t.account_id u)
        t.vault_id u

  -- `exchange_refresh_token` of a refresh token that was loaded
  unfoldable pub exchange_refresh :
      Drawn → Text → Text → List Text → ℕ → Store → Option Issued × Store
  unfolding refresh_found load_token revoke_token
  exchange_refresh d client token scopes now s =
      refresh_found d client scopes now (load_token token refresh s) (revoke_token token s) s

  unfoldable pub verdict : Account → Vault → List Text → Option ℕ → Store → Verdict
  unfolding is_active text_eq
  verdict holder home scopes expires_at s =
      let allowed = o.allowed holder scopes in
      if not (is_active holder.status) || text_eq holder.sub []
      then refused 403
      else if leb 1 (length allowed)
      then granted (record {
        subject = home.id;
        holder = holder.id;
        slug = home.slug;
        scopes = allowed;
        is_owner = text_eq home.account_id holder.id;
        expires_at = expires_at;
      })
      else refused 403

  abbrev pub is_elsewhere : Option Text → Vault → Bool
  is_elsewhere none home = false
  is_elsewhere (some slug) home = not (text_eq home.slug slug)

  -- Whether a token's resource is not this server's, or names a vault where the request names none.
  abbrev is_other_resource : Bool × Option Text → Option Text → Bool
  is_other_resource (false, issued_for) slug = true
  is_other_resource (true, none) slug = false
  is_other_resource (true, some issued_for) none = true
  is_other_resource (true, some issued_for) (some slug) = false

  of_vault : Token → Account → Option Vault → Option Text → Store → Verdict
  unfolding reaches verdict text_eq
  of_vault t holder none slug s = refused 401
  of_vault t holder (some home) slug s =
      if not (reaches s home holder.id)
      then refused 401
      else if is_elsewhere slug home
      then refused 401
      else verdict holder home t.scopes (some t.expires_at) s

  of_account : Token → Option Account → Option Text → Store → Verdict
  unfolding of_vault vault
  of_account t none slug s = refused 401
  of_account t (some holder) slug s = of_vault t holder (vault s t.vault_id) slug s

  of_token : Option Token → Option Text → ℕ → Store → Verdict
  unfolding of_account account
  of_token none slug now s = refused 401
  of_token (some t) slug now s =
      if leb t.expires_at now
      then refused 401
      else if is_other_resource (o.resource_target t.resource) slug
      then refused 401
      else of_account t (account o s t.account_id) slug s

  of_grant : Option Grant → Text → Option Text → ℕ → Store → Verdict
  unfolding verdict of_token load_token text_eq
  of_grant (some g) token slug now s =
      if is_elsewhere slug g.home then refused 403 else verdict g.holder g.home g.scopes none s
  of_grant none token slug now s = of_token (load_token token access s) slug now s

  unfoldable pub authenticate : Text → Option Text → ℕ → Store → Verdict × Store
  unfolding of_grant key_grant
  authenticate token slug now s =
      let (found, t) = key_grant o token now s in (of_grant found token slug now t, t)
