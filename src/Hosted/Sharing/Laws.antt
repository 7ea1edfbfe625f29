-- ===== src/Hosted/Sharing/Laws.antt =====
-- A member who is removed keeps no credential for the vault.
use notes_vault_mcp.Prelude.{
  ℕ, Text, text_eq, text_eq_iff, ok, ◌≡◌, ◌≢◌, refl, sym, ap, ◌∙◌, subst, Bool, true, false, not,
  ◌&&◌, Option, none, some, List, [], ◌∷◌, map, All, All-first, first_holds, arith, Bool-cases, inl,
  inr,
}
use notes_vault_mcp.Hosted.{
  Account, Vault, Member, ApiKey, Token, access, Store, Outside, account, account_by_id, vault,
  is_live_row,
}
use notes_vault_mcp.Hosted.Sharing.{revoke_key_of, revoke_token_of, remove_member}
use notes_vault_mcp.Hosted.Keys.{key_row, key_grant, grant_of, used, is_stale, is_key}
use notes_vault_mcp.Hosted.Tokens.{Access, Verdict, granted, load_token, is_token, authenticate}
use notes_vault_mcp.Hosted.Tokens.Laws.Admission.{IsKeyed, IsTokened, authenticate-IsAdmitted}

abbrev KeyIsOff : Text → Text → ApiKey → Type 0
KeyIsOff ref who k = is_live_row k.revoked_at ≡ true → k.vault_id ≡ ref → k.account_id ≡ who → ⊥

abbrev TokenIsOff : Text → Text → Token → Type 0
TokenIsOff ref who t = t.revoked ≡ false → t.vault_id ≡ ref → t.account_id ≡ who → ⊥

key_off : (ref who : Text) (now : ℕ) (k : ApiKey) → KeyIsOff ref who (revoke_key_of ref who now k)
unfolding is_live_row
key_off ref who now k =
    elim (Bool-cases
      (text_eq k.vault_id ref && text_eq k.account_id who && is_live_row k.revoked_at)) [
        | inl x ↦ rw x (λ live e f. absurd (ground arith))
        | inr x ↦ rw x (λ live e f.
            let same_vault = (text_eq_iff k.vault_id ref).1 e in
            let same_account = (text_eq_iff k.account_id who).1 f in absurd (ground arith))
      ]

token_off : (ref who : Text) (t : Token) → TokenIsOff ref who (revoke_token_of ref who t)
token_off ref who t =
    elim (Bool-cases (text_eq t.vault_id ref && text_eq t.account_id who && not t.revoked)) [
      | inl x ↦ rw x (λ live e f. absurd (ground arith))
      | inr x ↦ rw x (λ live e f.
          let same_vault = (text_eq_iff t.vault_id ref).1 e in
          let same_account = (text_eq_iff t.account_id who).1 f in absurd (ground arith))
    ]

keys_off :
    (ref who : Text) (now : ℕ) (ks : List ApiKey)
    → All (KeyIsOff ref who) (map (revoke_key_of ref who now) ks)
keys_off ref who now [] = tt
keys_off ref who now (k ∷ ks) = (key_off ref who now k, keys_off ref who now ks)

tokens_off :
    (ref who : Text) (ts : List Token) → All (TokenIsOff ref who) (map (revoke_token_of ref who) ts)
tokens_off ref who [] = tt
tokens_off ref who (t ∷ ts) = (token_off ref who t, tokens_off ref who ts)

module _ (o : Outside) where
  used_keeps :
      (k : ApiKey) (now : ℕ) (s : Store)
      → ((used o k now s).tokens ≡ s.tokens) × ((used o k now s).accounts ≡ s.accounts)
  unfolding used
  used_keeps k now s = elim (Bool-cases (is_stale o k.last_used_at now)) [
    | inl e ↦ rw e (refl, refl)
    | inr e ↦ rw e (refl, refl)
  ]

  grant_of_keeps :
      (key : Text) (now : ℕ) (s : Store) (row : Option ApiKey)
      → ((grant_of o key now s row).1.tokens ≡ s.tokens)
        × ((grant_of o key now s row).1.accounts ≡ s.accounts)
  unfolding grant_of
  grant_of_keeps key now s none = (refl, refl)
  grant_of_keeps key now s (some k) = elim (Bool-cases (text_eq k.key_hash (o.digest key))) [
    | inl e ↦ rw e (used_keeps k now s)
    | inr e ↦ rw e (refl, refl)
  ]

  key_grant_keeps :
      (key : Text) (now : ℕ) (s : Store)
      → ((key_grant o key now s).1.tokens ≡ s.tokens)
        × ((key_grant o key now s).1.accounts ≡ s.accounts)
  unfolding key_grant
  key_grant_keeps key now s = elim (Bool-cases (is_key o key)) [
    | inl e ↦ rw e (grant_of_keeps key now s (key_row o s key))
    | inr e ↦ rw e (refl, refl)
  ]

  authenticate_keeps :
      (token : Text) (slug : Option Text) (now : ℕ) (s : Store)
      → ((authenticate o token slug now s).1.tokens ≡ s.tokens)
        × ((authenticate o token slug now s).1.accounts ≡ s.accounts)
  unfolding authenticate
  authenticate_keeps token slug now s = key_grant_keeps token now s

  -- The account that a token names is found by its id: no address of an account is another's id.
  abbrev pub IsById : Store → Type 0
  IsById s =
      All (λ (r : Token). (a : Account) → account o s r.account_id ≡ some a → a.id ≡ r.account_id)
        s.tokens

  vault_named : (s : Store) (ref : Text) (v : Vault) → vault s ref ≡ some v → v.id ≡ ref
  unfolding vault
  vault_named s ref v h =
      (text_eq_iff v.id ref).0 (first_holds (λ (v : Vault). text_eq v.id ref) s.vaults v h)

  account_named : (s : Store) (ref : Text) (a : Account) → account_by_id s ref ≡ some a → a.id ≡ ref
  unfolding account_by_id
  account_named s ref a h =
      (text_eq_iff a.id ref).0 (first_holds (λ (a : Account). text_eq a.id ref) s.accounts a h)

  module _ (ref who token : Text) (s t : Store) (holder : Account) (home : Vault)
      (scopes : List Text) where
    keyed_off :
        All (KeyIsOff ref who) s.keys
        → home.id ≡ ref
        → holder.id ≡ who
        → IsKeyed o token s t holder home scopes
        → ⊥
    unfolding key_row
    keyed_off off e f c =
        let k = c.key in
        let live = first_holds _ s.keys k c.row in
        All-first (KeyIsOff ref who) _ s.keys k off c.row (ground arith)
          (sym (vault_named t k.vault_id home c.its_home) ∙ e)
          (sym (account_named t k.account_id holder c.its_holder) ∙ f)

    tokened_off :
        (now : ℕ)
        → All (TokenIsOff ref who) t.tokens
        → IsById t
        → home.id ≡ ref
        → holder.id ≡ who
        → IsTokened o token now t holder home scopes
        → ⊥
    unfolding load_token
    tokened_off now off named e f c =
        let r = c.row in
        let live = first_holds (is_token o token access) t.tokens r c.loaded in
        let its =
          All-first
            (λ (r : Token). (a : Account) → account o t r.account_id ≡ some a → a.id ≡ r.account_id)
            (is_token o token access) t.tokens r named c.loaded holder c.its_holder in
        All-first (TokenIsOff ref who) (is_token o token access) t.tokens r off c.loaded
          (ground arith) (sym (vault_named t r.vault_id home c.its_home) ∙ e) (sym its ∙ f)

  account_same :
      (s t : Store) (ref : Text) → s.accounts ≡ t.accounts → account o s ref ≡ account o t ref
  unfolding account
  account_same s t ref e = rw e refl

  abbrev Named : Store → Token → Type 0
  Named s r = (a : Account) → account o s r.account_id ≡ some a → a.id ≡ r.account_id

  revoked-Named :
      (ref who : Text) (s u : Store) (r : Token)
      → s.accounts ≡ u.accounts
      → Named s r
      → Named u (revoke_token_of ref who r)
  revoked-Named ref who s u r e h =
      elim (Bool-cases (text_eq r.vault_id ref && text_eq r.account_id who && not r.revoked)) [
        | inl x ↦ rw x (λ a g. h a (account_same s u r.account_id e ∙ g))
        | inr x ↦ rw x (λ a g. h a (account_same s u r.account_id e ∙ g))
      ]

  All-Named :
      (ref who : Text) (s u : Store) (ts : List Token)
      → s.accounts ≡ u.accounts
      → All (Named s) ts
      → All (Named u) (map (revoke_token_of ref who) ts)
  All-Named ref who s u [] e h = tt
  All-Named ref who s u (r ∷ ts) e (h, hs) =
      (revoked-Named ref who s u r e h, All-Named ref who s u ts e hs)

  -- The rows that a removal leaves, with any members afterwards.
  module _ (v : Vault) (who : Text) (now : ℕ) (s t : Store) (members : List Member) (b : Bool)
      (removed : remove_member v who now s ≡ (ok b, t)) where
    abbrev After : Store
    After = record t { members = members }

    left_over :
        (After.keys ≡ map (revoke_key_of v.id who now) s.keys)
        × (After.tokens ≡ map (revoke_token_of v.id who) s.tokens)
        × (After.accounts ≡ s.accounts)
    unfolding remove_member
    left_over = elim (Bool-cases (text_eq who v.account_id)) [
      | inl e ↦ absurd (ground arith)
      | inr e ↦ (ground arith, ground arith, ground arith)
    ]

    -- After a member is removed, whoever is made a member later, no request is let in to the vault as
    -- that account with a key or a token that was there, where no address of an account is another's id.
    pub remove_member_revokes :
        (token : Text) (slug : Option Text) (later : ℕ) (a : Access) (u : Store)
        → IsById s
        → authenticate o token slug later After ≡ (granted a, u)
        → a.subject ≡ v.id
        → a.holder ≢ who
    remove_member_revokes token slug later a u named h e f =
        let (keys, tokens, accounts) = left_over in
        let i = authenticate-IsAdmitted o token slug later After u a h in
        let (k, w) = authenticate_keeps token slug later After in
        let at : (authenticate o token slug later After).1 ≡ u =
          ap (λ (p : Verdict × Store). p.1) h in
        let same_tokens : u.tokens ≡ map (revoke_token_of v.id who) s.tokens =
          rw (sym at) (k ∙ tokens) in
        let same_accounts : s.accounts ≡ u.accounts = rw (sym at) (sym (w ∙ accounts)) in
        elim i.credential [
          | inl c ↦
              keyed_off v.id who token After u i.holder i.home i.scopes
                (rw keys (keys_off v.id who now s.keys)) (sym i.subject ∙ e) (sym i.who ∙ f) c
          | inr c ↦
              tokened_off v.id who token After u i.holder i.home i.scopes later
                (rw same_tokens (tokens_off v.id who s.tokens))
                (subst (λ ts. All (Named u) ts) (sym same_tokens)
                  (All-Named v.id who s u s.tokens same_accounts named))
                (sym i.subject ∙ e) (sym i.who ∙ f) c
        ]
