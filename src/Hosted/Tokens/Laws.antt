-- ===== src/Hosted/Tokens/Laws.antt =====
-- A code and a refresh token are good for one exchange.
pub mod Admission
use notes_vault_mcp.Prelude.{
  ℕ, Text, text_eq, text_eq_iff, ◌≡◌, ◌≢◌, refl, sym, ap, ◌∙◌, subst, Bool, true, false, not, ◌&&◌,
  Option, none, some, List, [], ◌∷◌, ◌++◌, first, any, keep, map, first-keep, first_append_none,
  ltb, if◌then◌else◌, arith, Bool-cases, inl, inr,
}
use notes_vault_mcp.Hosted.{Account, Vault, Token, TokenKind, access, refresh, Code, Store, Outside}
use notes_vault_mcp.Hosted.Tokens.{
  Drawn, Issued, load_code, take_code, save_token, load_token, is_token, is_revocable, revoke_this,
  revoke_token, issue, issue_in, issue_to, require_active, require_vault, redeem, exchange_found,
  exchange_code, refresh_found, exchange_refresh, or_scopes, is_same_kind,
}

module _ (o : Outside) where
  in_codes :
      (d : Drawn) (client resource : Text) (scopes : List Text) (now : ℕ) (holder : Account)
      (home : Option Vault) (s : Store)
      → (issue_in o d client resource scopes now holder home s).1.codes ≡ s.codes
  unfolding issue_in issue save_token
  in_codes d client resource scopes now holder none s = refl
  in_codes d client resource scopes now holder (some home) s = refl

  to_codes :
      (d : Drawn) (client resource : Text) (scopes : List Text) (now : ℕ) (holder : Option Account)
      (ref : Text) (s : Store)
      → (issue_to o d client resource scopes now holder ref s).1.codes ≡ s.codes
  unfolding issue_to
  to_codes d client resource scopes now none ref s = refl
  to_codes d client resource scopes now (some holder) ref s =
      in_codes d client resource scopes now holder (require_vault o holder ref s) s

  redeem_codes :
      (d : Drawn) (client : Text) (scopes : List Text) (now : ℕ) (c : Code) (s : Store)
      → (redeem o d client scopes now c s).1.codes ≡ s.codes
  unfolding redeem
  redeem_codes d client scopes now c s = elim (Bool-cases (ltb c.expires_at now)) [
    | inl e ↦ rw e refl
    | inr e ↦
        rw e
          (to_codes d client c.resource scopes now (require_active o c.account_id s) c.vault_id s)
  ]

  load_code_of :
      (code : Text) (s t : Store)
      → s.codes ≡ t.codes
      → load_code o code t ≡ none
      → load_code o code s ≡ none
  unfolding load_code
  load_code_of code s t e h = rw e h

  found_gone :
      (d : Drawn) (client code : Text) (scopes : List Text) (now : ℕ) (found : Option Code)
      (taken : Bool) (s t : Store)
      → load_code o code s ≡ found
      → load_code o code t ≡ none
      → load_code o code (exchange_found o d client scopes now found (taken, t) s).1 ≡ none
  unfolding exchange_found
  found_gone d client code scopes now none taken s t h g = h
  found_gone d client code scopes now (some c) false s t h g = g
  found_gone d client code scopes now (some c) true s t h g =
      load_code_of code (redeem o d client scopes now c t).1 t
        (redeem_codes d client scopes now c t) g

  taken_gone : (code : Text) (s : Store) → load_code o code (take_code o code s).1 ≡ none
  unfolding load_code take_code
  taken_gone code s = first-keep (λ (c : Code). text_eq c.code_hash (o.digest code)) s.codes

  code_gone :
      (d : Drawn) (client code : Text) (scopes : List Text) (now : ℕ) (s : Store)
      → load_code o code (exchange_code o d client code scopes now s).1 ≡ none
  unfolding exchange_code
  code_gone d client code scopes now s =
      found_gone d client code scopes now (load_code o code s) (take_code o code s).0 s
        (take_code o code s).1 refl (taken_gone code s)

  refused_of :
      (d : Drawn) (client code : Text) (scopes : List Text) (now : ℕ) (s : Store)
      → load_code o code s ≡ none
      → (exchange_code o d client code scopes now s).0 ≡ none
  unfolding exchange_code exchange_found
  refused_of d client code scopes now s h = rw h refl

  -- A code that was exchanged, whatever came of it, gives no tokens when the store that the exchange left
  -- is asked again with it.
  pub exchange_code_once :
      (d e : Drawn) (client other code : Text) (scopes asked : List Text) (now later : ℕ)
      (s : Store)
      → (exchange_code o e other code asked later (exchange_code o d client code scopes now s).1).0
        ≡ none
  exchange_code_once d e client other code scopes asked now later s =
      refused_of e other code asked later (exchange_code o d client code scopes now s).1
        (code_gone d client code scopes now s)

  -- An exchange adds tokens behind those that are there: an access token, and a refresh token with the
  -- secret that was drawn.
  module _ (token : Text) (d : Drawn) (n : o.digest d.refresh_token ≢ o.digest token) where
    fresh_hash : text_eq (o.digest d.refresh_token) (o.digest token) ≡ false
    fresh_hash = elim (Bool-cases (text_eq (o.digest d.refresh_token) (o.digest token))) [
      | inl e ↦ absurd (n ((text_eq_iff (o.digest d.refresh_token) (o.digest token)).0 e))
      | inr e ↦ e
    ]

    issue_gone :
        (client who home resource : Text) (scopes : List Text) (now : ℕ) (s : Store)
        → load_token o token refresh s ≡ none
        → load_token o token refresh (issue o d client who home resource scopes now s).1 ≡ none
    unfolding load_token issue save_token is_same_kind
    issue_gone client who home resource scopes now s h =
        first_append_none (is_token o token refresh) _ _
          (first_append_none (is_token o token refresh) s.tokens _ h
            (elim (Bool-cases (text_eq (o.digest d.access_token) (o.digest token))) [
              | inl e ↦ rw e refl
              | inr e ↦ rw e refl
            ]))
          (rw fresh_hash refl)

    issue_in_gone :
        (client resource : Text) (scopes : List Text) (now : ℕ) (holder : Account)
        (home : Option Vault) (s : Store)
        → load_token o token refresh s ≡ none
        → load_token o token refresh (issue_in o d client resource scopes now holder home s).1
          ≡ none
    unfolding issue_in
    issue_in_gone client resource scopes now holder none s h = h
    issue_in_gone client resource scopes now holder (some home) s h =
        issue_gone client holder.id home.id resource scopes now s h

    issue_to_gone :
        (client resource : Text) (scopes : List Text) (now : ℕ) (holder : Option Account)
        (ref : Text) (s : Store)
        → load_token o token refresh s ≡ none
        → load_token o token refresh (issue_to o d client resource scopes now holder ref s).1 ≡ none
    unfolding issue_to
    issue_to_gone client resource scopes now none ref s h = h
    issue_to_gone client resource scopes now (some holder) ref s h =
        issue_in_gone client resource scopes now holder (require_vault o holder ref s) s h

    refresh_found_gone :
        (client : Text) (scopes : List Text) (now : ℕ) (found : Option Token) (revoked : Bool)
        (s t : Store)
        → load_token o token refresh s ≡ found
        → load_token o token refresh t ≡ none
        → load_token o token refresh (refresh_found o d client scopes now found (revoked, t) s).1
          ≡ none
    unfolding refresh_found
    refresh_found_gone client scopes now none revoked s t h g = h
    refresh_found_gone client scopes now (some r) false s t h g = g
    refresh_found_gone client scopes now (some r) true s t h g =
        issue_to_gone client r.resource (or_scopes o scopes r.scopes) now
          (require_active o r.account_id t) r.vault_id t g

  revoked_row :
      (token : Text) (kind : TokenKind) (t : Token)
      → is_token o token kind (revoke_this o token t) ≡ false
  revoked_row token kind t = elim (Bool-cases (text_eq t.token_hash (o.digest token))) [
    | inl e ↦ elim (Bool-cases t.revoked) [
      | inl r ↦ rw (e, r) (ground arith)
      | inr r ↦ rw (e, r) (ground arith)
    ]
    | inr e ↦ rw (e, e) (ground arith)
  ]

  revoked_none :
      (token : Text) (kind : TokenKind) (ts : List Token)
      → first (is_token o token kind) (map (revoke_this o token) ts) ≡ none
  revoked_none token kind [] = refl
  revoked_none token kind (t ∷ ts) = rw (revoked_row token kind t) (revoked_none token kind ts)

  revoke_gone :
      (token : Text) (kind : TokenKind) (s : Store)
      → load_token o token kind (revoke_token o token s).1 ≡ none
  unfolding load_token revoke_token
  revoke_gone token kind s = revoked_none token kind s.tokens

  refresh_refused_of :
      (d : Drawn) (client token : Text) (scopes : List Text) (now : ℕ) (s : Store)
      → load_token o token refresh s ≡ none
      → (exchange_refresh o d client token scopes now s).0 ≡ none
  unfolding exchange_refresh refresh_found
  refresh_refused_of d client token scopes now s h = rw h refl

  refresh_gone :
      (d : Drawn) (client token : Text) (scopes : List Text) (now : ℕ) (s : Store)
      → o.digest d.refresh_token ≢ o.digest token
      → load_token o token refresh (exchange_refresh o d client token scopes now s).1 ≡ none
  unfolding exchange_refresh
  refresh_gone d client token scopes now s n =
      refresh_found_gone token d n client scopes now (load_token o token refresh s)
        (revoke_token o token s).0 s (revoke_token o token s).1 refl (revoke_gone token refresh s)

  -- A refresh token that was exchanged, whatever came of it, gives no tokens when the store that the
  -- exchange left is asked again with it, where the token that was drawn is another one.
  pub exchange_refresh_once :
      (d e : Drawn) (client other token : Text) (scopes asked : List Text) (now later : ℕ)
      (s : Store)
      → o.digest d.refresh_token ≢ o.digest token
      → (exchange_refresh o e other token asked later
          (exchange_refresh o d client token scopes now s).1).0
        ≡ none
  exchange_refresh_once d e client other token scopes asked now later s n =
      refresh_refused_of e other token asked later
        (exchange_refresh o d client token scopes now s).1
        (refresh_gone d client token scopes now s n)
