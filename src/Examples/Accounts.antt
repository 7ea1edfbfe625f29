-- ===== src/Examples/Accounts.antt =====
-- The theorems on the hosted service at a store with an owner, a member and their shared vault.
use notes_vault_mcp.Prelude.{
  ℕ, zero, suc, ◌≤◌, Text, codes, text_eq, ok, ◌≡◌, ◌≢◌, refl, ap, true, false, none, some, [], ◌∷◌,
  arith,
}
use notes_vault_mcp.Hosted.{
  Account, active, Vault, shared, personal, Token, access, Store, Outside, account, is_member,
}
use notes_vault_mcp.Hosted.Sharing.{create_vault, rename_vault, remove_member, squeeze, valid_slug}
use notes_vault_mcp.Hosted.Sharing.Laws.{IsById, remove_member_revokes}
use notes_vault_mcp.Hosted.Sharing.Addresses.{IsClear, IsNew}
use notes_vault_mcp.Hosted.Sharing.Steps.{next, stop, create, rename, IsSound, Steps-IsSound}
use notes_vault_mcp.Hosted.Limits.Laws.{let_through, let_through_fits}
use notes_vault_mcp.Hosted.Tokens.{
  Drawn, Access, granted, authenticate, exchange_code, exchange_refresh,
}
use notes_vault_mcp.Hosted.Tokens.Laws.{exchange_code_once, exchange_refresh_once}
use notes_vault_mcp.Hosted.Tokens.Laws.Admission.{IsAdmitted, authenticate-IsAdmitted}

abbrev plain : Outside
plain = record {
  digest = λ s. s;
  lower = λ s. s;
  is_printable = λ c. true;
  same_email = text_eq;
  allowed = λ holder scopes. scopes;
  resource_target = λ resource. (true, none);
}

abbrev person : Text → Text → Account
person id email = record { id = id; email = email; sub = codes "s"; status = active }

abbrev team : Vault
team = record {
  id = codes "v1";
  account_id = codes "a1";
  name = codes "Team";
  slug = codes "team";
  created_at = 0;
  kind = shared;
}

abbrev token_row : Text → Text → Token
token_row hash who = record {
  token_hash = hash;
  kind = access;
  grant_id = codes "g";
  client_id = codes "c";
  account_id = who;
  vault_id = codes "v1";
  scopes = codes "vault:read" ∷ [];
  resource = codes "r";
  expires_at = 9;
  revoked = false;
}

abbrev tables : Store
tables = record {
  accounts = person (codes "a1") (codes "o@x") ∷ person (codes "a2") (codes "m@x") ∷ [];
  vaults = team ∷ [];
  members = record { vault_id = codes "v1"; account_id = codes "a2"; joined_at = 1 } ∷ [];
  invitations = [];
  keys = [];
  tokens = token_row (codes "t1") (codes "a1") ∷ token_row (codes "t2") (codes "a2") ∷ [];
  codes =
      record {
        code_hash = codes "once";
        expires_at = 9;
        client_id = codes "c";
        scopes = [];
        resource = codes "r";
        account_id = codes "a2";
        vault_id = codes "v1";
      }
      ∷ [];
  devices = [];
  support_grants = [];
}

abbrev drawn : Text → Drawn
drawn secret = record { grant_id = codes "g2"; access_token = codes "x"; refresh_token = secret }

abbrev let_in : Access
let_in = record {
  subject = codes "v1";
  holder = codes "a1";
  slug = codes "team";
  scopes = codes "vault:read" ∷ [];
  is_owner = true;
  expires_at = some 9;
}

let_in_lem :
    authenticate plain (codes "t1") (some (codes "team")) 3 tables ≡ (granted let_in, tables)
unfolding authenticate
let_in_lem = refl

authenticate-IsAdmitted_example :
    IsAdmitted plain (codes "t1") (some (codes "team")) 3 tables tables let_in
authenticate-IsAdmitted_example =
    authenticate-IsAdmitted plain (codes "t1") (some (codes "team")) 3 tables tables let_in
      let_in_lem

exchange_code_once_example :
    (exchange_code plain
      (drawn (codes "z"))
      (codes "c")
      (codes "once")
      []
      4
      (exchange_code plain (drawn (codes "y")) (codes "c") (codes "once") [] 3 tables).1).0
    ≡ none
exchange_code_once_example =
    exchange_code_once plain (drawn (codes "y")) (drawn (codes "z")) (codes "c") (codes "c")
      (codes "once") [] [] 3 4 tables

length_of : Text → ℕ
length_of [] = zero
length_of (c ∷ s) = suc (length_of s)

other_secret : codes "y" ≢ codes "t2"
unfolding length_of
other_secret h =
    let same : length_of (codes "y") ≡ length_of (codes "t2") = ap length_of h in
    absurd (omega arith)

exchange_refresh_once_example :
    (exchange_refresh plain
      (drawn (codes "z"))
      (codes "c")
      (codes "t2")
      []
      4
      (exchange_refresh plain (drawn (codes "y")) (codes "c") (codes "t2") [] 3 tables).1).0
    ≡ none
exchange_refresh_once_example =
    exchange_refresh_once plain (drawn (codes "y")) (drawn (codes "z")) (codes "c") (codes "c")
      (codes "t2") [] [] 3 4 tables other_secret

abbrev after_removal : Store
unfolding remove_member
after_removal = (remove_member team (codes "a2") 5 tables).1

removal_lem : remove_member team (codes "a2") 5 tables ≡ (ok true, after_removal)
unfolding remove_member
removal_lem = refl

by_id : IsById plain tables
unfolding account
by_id = (λ a h. ground arith, (λ a h. ground arith, tt))

still_in_lem :
    authenticate plain (codes "t1") (some (codes "team")) 6 (record after_removal { members = [] })
    ≡ (granted let_in, record after_removal { members = [] })
unfolding authenticate remove_member
still_in_lem = refl

remove_member_revokes_example : let_in.holder ≢ codes "a2"
remove_member_revokes_example =
    remove_member_revokes plain team (codes "a2") 5 tables after_removal [] true removal_lem
      (codes "t1") (some (codes "team")) 6 let_in (record after_removal { members = [] }) by_id
      still_in_lem refl

last_of : Text → ℕ
last_of [] = 0
last_of (c ∷ []) = c
last_of (c ∷ d ∷ s) = last_of (d ∷ s)

other_vault : codes "v1" ≢ codes "v2"
unfolding last_of
other_vault h =
    let same : last_of (codes "v1") ≡ last_of (codes "v2") = ap last_of h in absurd (omega arith)

IsNew-id : IsNew (codes "v2") tables
unfolding is_member
IsNew-id = record { no_member = λ who. refl; no_vault = (other_vault, tt) }

named_vault : codes "v1" ≢ []
unfolding length_of
named_vault h =
    let same : length_of (codes "v1") ≡ length_of [] = ap length_of h in absurd (omega arith)

clear : IsClear tables
clear = ((λ who a b same. refl, tt), tt)

abbrev after_creation : Store
unfolding create_vault squeeze valid_slug
after_creation =
    (create_vault plain (codes "v2") (codes "a2") (codes "Mine") (codes "mine") personal 7 tables).1

abbrev mine : Vault
mine = record {
  id = codes "v2";
  account_id = codes "a2";
  name = codes "Mine";
  slug = codes "mine";
  created_at = 7;
  kind = personal;
}

creation_lem :
    create_vault plain (codes "v2") (codes "a2") (codes "Mine") (codes "mine") personal 7 tables
    ≡ (ok mine, after_creation)
unfolding create_vault squeeze valid_slug
creation_lem = refl

abbrev after_renaming : Store
unfolding rename_vault squeeze valid_slug create_vault
after_renaming = (rename_vault plain (codes "v1") none (some (codes "crew")) after_creation).1

renaming_lem :
    rename_vault plain (codes "v1") none (some (codes "crew")) after_creation
    ≡ (ok (record team { slug = codes "crew" }), after_renaming)
unfolding rename_vault squeeze valid_slug create_vault
renaming_lem = refl

some_id : codes "v2" ≢ []
unfolding length_of
some_id h =
    let same : length_of (codes "v2") ≡ length_of [] = ap length_of h in absurd (omega arith)

IsSound-tables : IsSound plain tables
IsSound-tables = record {
  unique = ((λ same. refl, tt), tt);
  named = (named_vault, tt);
  clear = clear;
}

Steps-IsSound_example : IsSound plain after_renaming
Steps-IsSound_example =
    Steps-IsSound plain
      (next
        (create (codes "v2") (codes "a2") (codes "Mine") (codes "mine") personal 7 mine IsNew-id
          some_id creation_lem)
        (next
          (rename (codes "v1") none (some (codes "crew")) (record team { slug = codes "crew" })
            renaming_lem)
          stop))
      IsSound-tables

let_through_fits_example :
    let_through
      (codes "sign-in")
      2
      60
      (codes "here")
      0
      ((codes "here", 5) ∷ (codes "there", 6) ∷ (codes "here", 7) ∷ (codes "here", 8) ∷ [])
      []
    ≤ 2
let_through_fits_example =
    let_through_fits (codes "sign-in") 2 60 (codes "here") 0
      ((codes "here", 5) ∷ (codes "there", 6) ∷ (codes "here", 7) ∷ (codes "here", 8) ∷ [])
