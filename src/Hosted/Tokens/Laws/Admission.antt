-- ===== src/Hosted/Tokens/Laws/Admission.antt =====
-- What a token has to be for a request to be let in.
use notes_vault_mcp.Prelude.{
  ℕ, ◌<◌, Text, text_eq, ◌≡◌, refl, ap, ◌∙◌, subst, ◌⊎◌, true, false, not, ◌&&◌, ◌||◌, Option, none,
  some, List, [], length, leb, arith, Bool-cases, inl, inr, take, drop, text_eq_iff, first_holds,
}
use notes_vault_mcp.Hosted.{
  Account, Vault, ApiKey, Token, TokenKind, access, refresh, Store, Outside, account, account_by_id,
  vault, reaches, is_active, is_live_row,
}
use notes_vault_mcp.Hosted.Keys.{
  Grant, key_id_length, is_key, key_row, key_grant, grant_of, grant_in, used,
}
use notes_vault_mcp.Hosted.Tokens.{
  Access, Verdict, granted, is_same_kind, is_token, load_token, verdict, is_elsewhere,
  is_other_resource, of_vault, of_account, of_token, of_grant, authenticate,
}

is_live_row-eq-true : (x : Option ℕ) → is_live_row x ≡ true → x ≡ none
unfolding is_live_row
is_live_row-eq-true none h = refl
is_live_row-eq-true (some revoked_at) h = absurd (ground arith)

is_same_kind-access : (k : TokenKind) → is_same_kind k access ≡ true → k ≡ access
unfolding is_same_kind
is_same_kind-access access h = refl
is_same_kind-access refresh h = absurd (ground arith)

module _ (o : Outside) where
  key_row-eq-some :
      (token : Text) (s : Store) (k : ApiKey)
      → key_row o s token ≡ some k
      → (k.revoked_at ≡ none) × (k.id ≡ take key_id_length (drop 4 token))
  unfolding key_row
  key_row-eq-some token s k h =
      let id = take key_id_length (drop 4 token) in
      let holds =
        first_holds (λ (r : ApiKey). text_eq r.id id && is_live_row r.revoked_at) s.keys k h in
      (is_live_row-eq-true k.revoked_at (ground arith), (text_eq_iff k.id id).0 (ground arith))

  load_token-eq-some :
      (token : Text) (s : Store) (t : Token)
      → load_token o token access s ≡ some t
      → (t.revoked ≡ false) × (t.kind ≡ access) × (t.token_hash ≡ o.digest token)
  unfolding load_token
  load_token-eq-some token s t h =
      let holds = first_holds (is_token o token access) s.tokens t h in
      (
        ground arith,
        is_same_kind-access t.kind (ground arith),
        (text_eq_iff t.token_hash (o.digest token)).0 (ground arith),
      )

  -- A key that is not revoked, for an account and a vault.
  pub record IsKeyed (token : Text) (s t : Store) (holder : Account) (home : Vault)
      (scopes : List Text) : Type 0 where
    pub key : ApiKey
    pub row : key_row o s token ≡ some key
    pub live : key.revoked_at ≡ none
    pub its_id : key.id ≡ take key_id_length (drop 4 token)
    pub hash : text_eq key.key_hash (o.digest token) ≡ true
    pub its_holder : account_by_id t key.account_id ≡ some holder
    pub its_home : vault t key.vault_id ≡ some home
    pub its_scopes : key.scopes ≡ scopes

  -- An access token that is neither revoked nor expired, for an account and a vault.
  pub record IsTokened (token : Text) (now : ℕ) (t : Store) (holder : Account) (home : Vault)
      (scopes : List Text) : Type 0 where
    pub row : Token
    pub loaded : load_token o token access t ≡ some row
    pub live : row.revoked ≡ false
    pub is_access : row.kind ≡ access
    pub its_hash : row.token_hash ≡ o.digest token
    pub unexpired : now < row.expires_at
    pub its_holder : account o t row.account_id ≡ some holder
    pub its_home : vault t row.vault_id ≡ some home
    pub its_scopes : row.scopes ≡ scopes

  pub record IsAdmitted (token : Text) (slug : Option Text) (now : ℕ) (s t : Store) (a : Access)
      : Type 0 where
    pub holder : Account
    pub home : Vault
    pub scopes : List Text
    pub credential : IsKeyed token s t holder home scopes ⊎ IsTokened token now t holder home scopes
    pub active : is_active holder.status ≡ true
    pub inside : reaches t home holder.id ≡ true
    pub here : is_elsewhere o slug home ≡ false
    pub subject : a.subject ≡ home.id
    pub who : a.holder ≡ holder.id
    pub allowed : a.scopes ≡ o.allowed holder scopes

  record IsGranted (holder : Account) (home : Vault) (scopes : List Text) (a : Access)
      : Type 0 where
    is_on : is_active holder.status ≡ true
    for_home : a.subject ≡ home.id
    for_holder : a.holder ≡ holder.id
    for_scopes : a.scopes ≡ o.allowed holder scopes

  verdict-IsGranted :
      (holder : Account) (home : Vault) (scopes : List Text) (e : Option ℕ) (s : Store) (a : Access)
      → verdict o holder home scopes e s ≡ granted a
      → IsGranted holder home scopes a
  unfolding verdict
  verdict-IsGranted holder home scopes e s a h =
      elim (Bool-cases (not (is_active holder.status) || text_eq holder.sub [])) [
        | inl x ↦ absurd (ground arith)
        | inr x ↦ elim (Bool-cases (leb 1 (length (o.allowed holder scopes)))) [
          | inl y ↦ record {
            is_on = ground arith;
            for_home = ground arith;
            for_holder = ground arith;
            for_scopes = ground arith;
          }
          | inr y ↦ absurd (ground arith)
        ]
      ]

  admitted :
      (token : Text) (slug : Option Text) (now : ℕ) (s t : Store) (a : Access) (holder : Account)
      (home : Vault) (scopes : List Text) (e : Option ℕ)
      → IsKeyed token s t holder home scopes ⊎ IsTokened token now t holder home scopes
      → reaches t home holder.id ≡ true
      → is_elsewhere o slug home ≡ false
      → verdict o holder home scopes e t ≡ granted a
      → IsAdmitted token slug now s t a
  admitted token slug now s t a holder home scopes e c i n h =
      let g = verdict-IsGranted holder home scopes e t a h in
      record {
        holder = holder;
        home = home;
        scopes = scopes;
        credential = c;
        active = g.is_on;
        inside = i;
        here = n;
        subject = g.for_home;
        who = g.for_holder;
        allowed = g.for_scopes;
      }

  module _ (token : Text) (slug : Option Text) (now : ℕ) (s t : Store) (a : Access) where
    vault-IsAdmitted :
        (r : Token) (holder : Account) (home : Option Vault)
        → load_token o token access t ≡ some r
        → now < r.expires_at
        → account o t r.account_id ≡ some holder
        → vault t r.vault_id ≡ home
        → of_vault o r holder home slug t ≡ granted a
        → IsAdmitted token slug now s t a
    unfolding of_vault
    vault-IsAdmitted r holder none l n w v h = absurd (ground arith)
    vault-IsAdmitted r holder (some home) l n w v h = elim (Bool-cases (reaches t home holder.id)) [
      | inl x ↦ elim (Bool-cases (is_elsewhere o slug home)) [
        | inl y ↦ absurd (ground arith)
        | inr y ↦
            admitted token slug now s t a holder home r.scopes (some r.expires_at)
              (inr (record {
                row = r;
                loaded = l;
                live = (load_token-eq-some token t r l).0;
                is_access = (load_token-eq-some token t r l).1;
                its_hash = (load_token-eq-some token t r l).2;
                unexpired = n;
                its_holder = w;
                its_home = v;
                its_scopes = refl;
              }))
              x y (ground arith)
      ]
      | inr x ↦ absurd (ground arith)
    ]

    account-IsAdmitted :
        (r : Token) (holder : Option Account)
        → load_token o token access t ≡ some r
        → now < r.expires_at
        → account o t r.account_id ≡ holder
        → of_account o r holder slug t ≡ granted a
        → IsAdmitted token slug now s t a
    unfolding of_account
    account-IsAdmitted r none l n w h = absurd (ground arith)
    account-IsAdmitted r (some holder) l n w h =
        vault-IsAdmitted r holder (vault t r.vault_id) l n w refl h

    token-IsAdmitted :
        (found : Option Token)
        → load_token o token access t ≡ found
        → of_token o found slug now t ≡ granted a
        → IsAdmitted token slug now s t a
    unfolding of_token
    token-IsAdmitted none l h = absurd (ground arith)
    token-IsAdmitted (some r) l h = elim (Bool-cases (leb r.expires_at now)) [
      | inl x ↦ absurd (ground arith)
      | inr x ↦ elim (Bool-cases (is_other_resource o (o.resource_target r.resource) slug)) [
        | inl y ↦ absurd (ground arith)
        | inr y ↦
            account-IsAdmitted r (account o t r.account_id) l (ground arith) refl (ground arith)
      ]
    ]

  record IsFound (token : Text) (s t : Store) (g : Grant) : Type 0 where
    its_key : IsKeyed token s t g.holder g.home g.scopes
    is_inside : reaches t g.home g.holder.id ≡ true

  grant_in-IsFound :
      (token : Text) (s t : Store) (k : ApiKey) (holder : Option Account) (home : Option Vault)
      (g : Grant)
      → key_row o s token ≡ some k
      → text_eq k.key_hash (o.digest token) ≡ true
      → account_by_id t k.account_id ≡ holder
      → vault t k.vault_id ≡ home
      → grant_in o k holder home t ≡ some g
      → IsFound token s t g
  unfolding grant_in
  grant_in-IsFound token s t k none home g r x w v h = cc
  grant_in-IsFound token s t k (some holder) none g r x w v h = cc
  grant_in-IsFound token s t k (some holder) (some home) g r x w v h =
      elim (Bool-cases (reaches t home holder.id)) [
        | inl y ↦
            let same_holder : holder ≡ g.holder = ground arith in
            let same_home : home ≡ g.home = ground arith in
            let same_scopes : k.scopes ≡ g.scopes = ground arith in
            record {
              its_key = record {
                key = k;
                row = r;
                live = (key_row-eq-some token s k r).0;
                its_id = (key_row-eq-some token s k r).1;
                hash = x;
                its_holder = w ∙ ap some same_holder;
                its_home = v ∙ ap some same_home;
                its_scopes = same_scopes;
              };
              is_inside =
                  subst (λ (b : Vault). reaches t b g.holder.id ≡ true) same_home
                    (subst (λ (b : Account). reaches t home b.id ≡ true) same_holder y);
            }
        | inr y ↦ absurd (ground arith)
      ]

  grant_of-IsFound :
      (token : Text) (now : ℕ) (s : Store) (row : Option ApiKey) (g : Grant) (t : Store)
      → key_row o s token ≡ row
      → grant_of o token now s row ≡ (some g, t)
      → IsFound token s t g
  unfolding grant_of
  grant_of-IsFound token now s none g t r h = absurd (ground arith)
  grant_of-IsFound token now s (some k) g t r h =
      elim (Bool-cases (text_eq k.key_hash (o.digest token))) [
        | inl x ↦
            let u = used o k now s in
            let at : u ≡ t = ground arith in
            subst (λ (w : Store). IsFound token s w g) at
              (grant_in-IsFound token s u k (account_by_id u k.account_id) (vault u k.vault_id) g r
                x refl refl (ground arith))
        | inr x ↦ absurd (ground arith)
      ]

  key_grant-IsFound :
      (token : Text) (now : ℕ) (s : Store) (g : Grant) (t : Store)
      → key_grant o token now s ≡ (some g, t)
      → IsFound token s t g
  unfolding key_grant
  key_grant-IsFound token now s g t h = elim (Bool-cases (is_key o token)) [
    | inl x ↦ grant_of-IsFound token now s (key_row o s token) g t refl (ground arith)
    | inr x ↦ absurd (ground arith)
  ]

  grant-IsAdmitted :
      (token : Text) (slug : Option Text) (now : ℕ) (s t : Store) (a : Access)
      (found : Option Grant)
      → key_grant o token now s ≡ (found, t)
      → of_grant o found token slug now t ≡ granted a
      → IsAdmitted token slug now s t a
  unfolding of_grant
  grant-IsAdmitted token slug now s t a none k h =
      token-IsAdmitted token slug now s t a (load_token o token access t) refl h
  grant-IsAdmitted token slug now s t a (some g) k h =
      elim (Bool-cases (is_elsewhere o slug g.home)) [
        | inl y ↦ absurd (ground arith)
        | inr y ↦
            let f = key_grant-IsFound token now s g t k in
            admitted token slug now s t a g.holder g.home g.scopes none (inl f.its_key) f.is_inside
              y (ground arith)
      ]

  -- A request is let in only with a key that is not revoked, or an access token that is neither revoked
  -- nor expired, of an active account that reaches the credential's vault, which is the vault that the
  -- request names if it names one; and only with the scopes that the extensions allow of the
  -- credential's.
  pub authenticate-IsAdmitted :
      (token : Text) (slug : Option Text) (now : ℕ) (s t : Store) (a : Access)
      → authenticate o token slug now s ≡ (granted a, t)
      → IsAdmitted token slug now s t a
  unfolding authenticate
  authenticate-IsAdmitted token slug now s t a h =
      let u = (key_grant o token now s).1 in
      let at : u ≡ t = ap (λ (p : Verdict × Store). p.1) h in
      subst (λ (w : Store). IsAdmitted token slug now s w a) at
        (grant-IsAdmitted token slug now s u a (key_grant o token now s).0 refl
          (ap (λ (p : Verdict × Store). p.0) h))
