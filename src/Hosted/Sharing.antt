-- ===== src/Hosted/Sharing.antt =====
-- The vaults of an account, their addresses and their members: mindin/auth/hosted_vaults.py and the
-- calls of `HostedStore` in mindin/auth/hosted_store.py on vaults, members and invitations.
pub mod Laws
pub mod Addresses
pub mod Renaming
pub mod Accepting
pub mod Handover
pub mod Rows
pub mod Steps
use notes_vault_mcp.Prelude.{
  ℕ, suc, ◌+◌, ◌-◌, Text, codes, text_eq, Result, ok, err, value_error, Done, Bool, true, false,
  not, ◌&&◌, ◌||◌, Option, none, some, List, [], ◌∷◌, ◌++◌, any, all, keep, first, length, take,
  map, leb, ltb, if◌then◌else◌,
}
use notes_vault_mcp.Prelude.Strings.{text_in, is_space, drop_while, has}
use notes_vault_mcp.Prelude.Dict.{Dict}
use notes_vault_mcp.Device.{Device}
use notes_vault_mcp.Hosted.{
  Account, Vault, Kind, Member, Invitation, ApiKey, Token, Store, Outside, account, vault, reaches,
  is_member, is_shared, is_live_row,
}

abbrev pub slug_max : ℕ
slug_max = 32

abbrev pub name_max : ℕ
name_max = 64

abbrev is_letter : ℕ → Bool
is_letter c = leb b'a' c && leb c b'z'

abbrev is_letter_or_digit : ℕ → Bool
is_letter_or_digit c = is_letter c || (leb b'0' c && leb c b'9')

-- SLUG_RE, and no reserved word
unfoldable pub valid_slug : Text → Bool
unfolding text_eq
valid_slug [] = false
valid_slug (c ∷ s) =
    is_letter c
    && all is_letter_or_digit s
    && ltb (length s) slug_max
    && not (text_eq (c ∷ s) (codes "new"))

-- " ".join(text.split()) of a text that begins with no space
squeezed : Bool → Text → Text
unfolding is_space
squeezed pending [] = []
squeezed pending (c ∷ s) =
    let rest = squeezed (is_space c) s in
    if is_space c then rest else if pending then b' ' ∷ c ∷ rest else c ∷ rest

unfoldable pub squeeze : Text → Text
unfolding squeezed drop_while
squeeze s = squeezed false (drop_while is_space s)

unfoldable pub clean_name : Outside → Text → Text
unfolding squeeze
clean_name o raw = take name_max (keep o.is_printable (squeeze raw))

unfoldable pub holders : Store → Text → List Text
unfolding text_eq
holders s ref =
    map (λ (v : Vault). v.account_id) (keep (λ v. text_eq v.id ref) s.vaults)
    ++ map (λ (m : Member). m.account_id) (keep (λ m. text_eq m.vault_id ref) s.members)

-- The vaults that one of these accounts owns or is a member of.
unfoldable pub reached : Store → List Text → List Vault
unfolding reaches
reached s accounts = keep (λ v. any (reaches s v) accounts) s.vaults

abbrev pub clashes : Text → Text → Vault → Bool
clashes slug other_than v = text_eq v.slug slug && not (text_eq v.id other_than)

unfoldable pub clash : Store → List Text → Text → Text → Option Vault
unfolding reached text_eq
clash s accounts slug other_than = first (clashes slug other_than) (reached s accounts)

unfoldable pub is_clash : Option Vault → Bool
is_clash none = false
is_clash (some found) = true

unfoldable pub insert_vault : Vault → Store → Store
insert_vault v s = record s { vaults = s.vaults ++ (v ∷ []) }

abbrev pub set_address : Text → Text → Text → Vault → Vault
set_address ref name slug v = if text_eq v.id ref then record v { name = name; slug = slug } else v

abbrev pub set_owner : Text → Text → Vault → Vault
set_owner ref who v = if text_eq v.id ref then record v { account_id = who } else v

abbrev pub is_membership : Text → Text → Member → Bool
is_membership ref who m = text_eq m.vault_id ref && text_eq m.account_id who

-- ON CONFLICT (vault_id, account_id) DO NOTHING
unfoldable pub join_member : Text → Text → ℕ → List Member → List Member
unfolding is_member
join_member ref who now members =
    if is_member members ref who
    then members
    else members ++ (record { vault_id = ref; account_id = who; joined_at = now } ∷ [])

-- What `create_vault` inserts, where the account reaches no vault at its address.
unfoldable pub created : Vault → Store → Result Vault × Store
unfolding is_clash clash insert_vault
created v s =
    if is_clash (clash s (v.account_id ∷ []) v.slug [])
    then (err value_error, s)
    else (ok v, insert_vault v s)

module _ (o : Outside) where
  -- `create_vault` with an address; the id is drawn.
  unfoldable pub create_vault : Text → Text → Text → Text → Kind → ℕ → Store → Result Vault × Store
  unfolding created valid_slug clean_name text_eq
  create_vault ref who name slug kind now s =
      let cleaned = clean_name o name in
      if text_eq cleaned []
      then (err value_error, s)
      else if not (valid_slug slug)
      then (err value_error, s)
      else created
          (record {
            id = ref;
            account_id = who;
            name = cleaned;
            slug = slug;
            created_at = now;
            kind = kind;
          })
          s

  -- Neither the owner nor another who reaches the vault has one at the new address.
  unfoldable pub renamed : Vault → Text → Text → Store → Result Vault × Store
  unfolding is_clash clash holders text_eq
  renamed v name slug s =
      if not (text_eq slug v.slug)
        && (is_clash (clash s (v.account_id ∷ []) slug v.id)
            || is_clash (clash s (holders s v.id) slug v.id))
      then (err value_error, s)
      else (
        ok (record v { name = name; slug = slug }),
        record s { vaults = map (set_address v.id name slug) s.vaults },
      )

  abbrev or_name : Option Text → Vault → Text
  or_name none v = v.name
  or_name (some name) v = clean_name o name

  abbrev or_slug : Option Text → Vault → Text
  or_slug none v = v.slug
  or_slug (some slug) v = slug

  pub rename_found : Option Vault → Option Text → Option Text → Store → Result Vault × Store
  unfolding renamed valid_slug clean_name text_eq
  rename_found none name slug s = (err value_error, s)
  rename_found (some v) name slug s =
      if text_eq (or_name name v) []
      then (err value_error, s)
      else if not (valid_slug (or_slug slug v))
      then (err value_error, s)
      else renamed v (or_name name v) (or_slug slug v) s

  unfoldable pub rename_vault : Text → Option Text → Option Text → Store → Result Vault × Store
  unfolding rename_found vault
  rename_vault ref name slug s = rename_found (vault s ref) name slug s

  abbrev is_invitation : Text → Text → Invitation → Bool
  is_invitation ref address i = text_eq i.vault_id ref && o.same_email i.email address

  reaches_already : Store → Vault → Option Account → Bool
  unfolding reaches
  reaches_already s v none = false
  reaches_already s v (some known) = reaches s v known.id

  unfoldable pub invite_member : Vault → Text → Text → ℕ → Store → Result Text × Store
  unfolding reaches_already squeeze is_shared has text_eq
  invite_member v email invited_by now s =
      let address = o.lower (squeeze email) in
      if not (is_shared v.kind)
      then (err value_error, s)
      else if not (has b'@' address) || ltb 254 (length address)
      then (err value_error, s)
      else if reaches_already s v (first (λ (a : Account). o.same_email a.email address) s.accounts)
      then (err value_error, s)
      else if any (is_invitation v.id address) s.invitations
      then (err value_error, s)
      else (
        ok address,
        record s {
          invitations =
              s.invitations
              ++ (record {
                vault_id = v.id;
                email = address;
                invited_by = invited_by;
                created_at = now;
              }
                  ∷ []);
        },
      )

  -- One invitation: the account waits while it reaches another vault at the same address.
  accept_one :
      Option Vault
      → Text
      → List Text
      → ℕ
      → Vault
      → Store
      → (Store → List (Vault × Vault) × Store)
      → List (Vault × Vault) × Store
  unfolding join_member text_eq
  accept_one (some found) who emails now v s rest =
      let (waiting, t) = rest s in ((v, found) ∷ waiting, t)
  accept_one none who emails now v s rest = rest (record s {
    members = join_member v.id who now s.members;
    invitations =
        keep
          (λ (i : Invitation). not (text_eq i.vault_id v.id && any (o.same_email i.email) emails))
          s.invitations;
  })

  unfoldable pub accept_each :
      Text → List Text → ℕ → List Vault → Store → List (Vault × Vault) × Store
  unfolding accept_one clash
  accept_each who emails now [] s = ([], s)
  accept_each who emails now (v ∷ vaults) s =
      accept_one (clash s (who ∷ []) v.slug v.id) who emails now v s
        (accept_each who emails now vaults)

  abbrev is_invited : List Text → Store → Vault → Bool
  is_invited emails s v =
      any (λ (i : Invitation). text_eq i.vault_id v.id && any (o.same_email i.email) emails)
        s.invitations

  unfoldable pub accept_invitations : Text → List Text → ℕ → Store → List (Vault × Vault) × Store
  unfolding accept_each text_eq
  accept_invitations who emails now s =
      accept_each who emails now
        (keep (λ (v : Vault). is_invited emails s v && not (text_eq v.account_id who)) s.vaults) s

abbrev revoke_key_of : Text → Text → ℕ → ApiKey → ApiKey
revoke_key_of ref who now k =
    if text_eq k.vault_id ref && text_eq k.account_id who && is_live_row k.revoked_at
    then record k { revoked_at = some now }
    else k

abbrev revoke_token_of : Text → Text → Token → Token
revoke_token_of ref who t =
    if text_eq t.vault_id ref && text_eq t.account_id who && not t.revoked
    then record t { revoked = true }
    else t

unfoldable pub remove_member : Vault → Text → ℕ → Store → Result Bool × Store
unfolding text_eq is_live_row is_member
remove_member v who now s = if text_eq who v.account_id then (err value_error, s) else (
  ok (is_member s.members v.id who),
  record s {
    members = keep (λ m. not (is_membership v.id who m)) s.members;
    keys = map (revoke_key_of v.id who now) s.keys;
    tokens = map (revoke_token_of v.id who) s.tokens;
    devices =
        keep (λ (p : Text × Device). not (text_eq p.1.vault_id v.id && text_eq p.1.account_id who))
          s.devices;
  },
)

-- The owner becomes a member, and a member the owner.
unfoldable pub hand_over : Vault → Text → ℕ → Store → Result Done × Store
unfolding reaches is_clash clash join_member text_eq
hand_over v who now s =
    if text_eq who v.account_id || not (reaches s v who)
    then (err value_error, s)
    else if is_clash (clash s (who ∷ []) v.slug v.id)
    then (err value_error, s)
    else (
      ok tt,
      record s {
        members =
            join_member v.id v.account_id now
              (keep (λ m. not (is_membership v.id who m)) s.members);
        vaults = map (set_owner v.id who) s.vaults;
        support_grants = keep (λ g. not (text_eq g v.id)) s.support_grants;
      },
    )
