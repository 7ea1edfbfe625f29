-- ===== src/Hosted/Sharing/Steps.antt =====
-- The hosted service as a state machine on its vaults and members: any sequence of the calls that
-- change them.
use notes_vault_mcp.Prelude.{
  ℕ, Text, text_eq, ok, Done, ◌≡◌, ◌≢◌, sym, ◌∙◌, subst, Bool, not, Option, some, List, [], ◌∷◌,
  map, All, All-append, All-first,
}
use notes_vault_mcp.Hosted.{Vault, Kind, Store, Outside, vault}
use notes_vault_mcp.Hosted.Sharing.{
  set_address, set_owner, is_membership, create_vault, rename_vault, accept_invitations,
  remove_member, hand_over,
}
use notes_vault_mcp.Hosted.Sharing.Addresses.{IsClear, IsNew, IsNamed, create_vault-IsClear}
use notes_vault_mcp.Hosted.Sharing.Renaming.{IsUnique, rename_vault-IsClear}
use notes_vault_mcp.Hosted.Sharing.Accepting.{accept_invitations-IsClear}
use notes_vault_mcp.Hosted.Sharing.Handover.{hand_over-IsClear}
use notes_vault_mcp.Hosted.Sharing.Rows.{
  Same, fewer-IsClear, fewer_members, same_members, unique-map, named-map, address_keeps,
  owner_keeps, unique-insert, create_rows, found_rows, each_rows, remove_rows, hand_rows,
}

module _ (o : Outside) where
  pub data Step : Store → Store → Type 0 where
    create :
        {s t : Store} (ref who name slug : Text) (kind : Kind) (now : ℕ) (w : Vault)
        → IsNew ref s
        → ref ≢ []
        → create_vault o ref who name slug kind now s ≡ (ok w, t)
        → Step s t
    rename :
        {s t : Store} (ref : Text) (name slug : Option Text) (w : Vault)
        → rename_vault o ref name slug s ≡ (ok w, t)
        → Step s t
    accept :
        {s : Store} (who : Text) (emails : List Text) (now : ℕ)
        → Step s (accept_invitations o who emails now s).1
    remove :
        {s t : Store} (v : Vault) (who : Text) (now : ℕ) (was : Bool)
        → remove_member v who now s ≡ (ok was, t)
        → Step s t
    hand :
        {s t : Store} (v : Vault) (who : Text) (now : ℕ) (done : Done)
        → vault s v.id ≡ some v
        → hand_over v who now s ≡ (ok done, t)
        → Step s t
    -- What changes other tables: invitations, keys, codes, tokens and devices.
    other : {s t : Store} → t.vaults ≡ s.vaults → t.members ≡ s.members → Step s t

  pub data Steps : Store → Store → Type 0 where
    stop : {s : Store} → Steps s s
    next : {s t u : Store} → Step s t → Steps t u → Steps s u

  -- Ids are unique and not empty, and no account reaches two vaults at one address.
  pub record IsSound (s : Store) : Type 0 where
    pub unique : IsUnique s
    pub named : IsNamed s
    pub clear : IsClear s

abbrev UniqueRows : List Vault → Type 0
UniqueRows vs = All (λ v. All (Same v) vs) vs

abbrev NamedRows : List Vault → Type 0
NamedRows vs = All (λ (x : Vault). x.id ≢ []) vs

-- The rows of a sound store under a map that keeps ids.
mapped-IsSound :
    (o : Outside) (s t : Store) (f : Vault → Vault)
    → ((x : Vault) → (f x).id ≡ x.id)
    → t.vaults ≡ map f s.vaults
    → IsSound o s
    → IsClear t
    → IsSound o t
mapped-IsSound o s t f keeps rows h clear = record {
  unique = subst UniqueRows (sym rows) (unique-map f keeps s.vaults h.unique);
  named = subst NamedRows (sym rows) (named-map f keeps s.vaults h.named);
  clear = clear;
}

same-IsSound :
    (o : Outside) (s t : Store) → t.vaults ≡ s.vaults → IsSound o s → IsClear t → IsSound o t
same-IsSound o s t rows h clear = record {
  unique = subst UniqueRows (sym rows) h.unique;
  named = subst NamedRows (sym rows) h.named;
  clear = clear;
}

found_row :
    (s : Store) (v : Vault)
    → vault s v.id ≡ some v
    → IsUnique s
    → All (λ x. x.id ≡ v.id → x ≡ v) s.vaults
unfolding vault
found_row s v q u =
    All-first (λ v. All (Same v) s.vaults) (λ (w : Vault). text_eq w.id v.id) s.vaults v u q

step-IsSound : (o : Outside) {s t : Store} → Step o s t → IsSound o s → IsSound o t
unfolding accept_invitations
step-IsSound o {s} {t} (create ref who name slug kind now w new some_id h) k =
    let (rows, id) = create_rows o ref who name slug kind now w s t h in
    let fresh : All (λ (x : Vault). x.id ≢ w.id) s.vaults =
      subst (λ i. All (λ (x : Vault). x.id ≢ i) s.vaults) (sym id) new.no_vault in
    record {
      unique = subst UniqueRows (sym rows) (unique-insert w s.vaults k.unique fresh);
      named = subst NamedRows (sym rows) (
          All-append (λ (x : Vault). x.id ≢ []) s.vaults (w ∷ []) k.named
            (λ e. some_id (sym id ∙ e), tt));
      clear = create_vault-IsClear o ref who name slug kind now w s t new k.named k.clear h;
    }
step-IsSound o {s} {t} (rename ref name slug w h) k =
    let (id, to, at, rows) =
      found_rows o (vault s ref) name slug w s t (unfold rename_vault in h) in
    mapped-IsSound o s t (set_address id to at) (address_keeps id to at) rows k
      (rename_vault-IsClear o ref name slug w s t k.unique k.clear h)
step-IsSound o {s} {t} (accept who emails now) k =
    same-IsSound o s _ (each_rows o who emails now _ s) k
      (accept_invitations-IsClear o who emails now s k.unique k.clear)
step-IsSound o {s} {t} (remove v who now was h) k =
    let (rows, members) = remove_rows v who now was s t h in
    same-IsSound o s t rows k (
      fewer-IsClear s t rows
        (λ x by. fewer_members (λ m. not (is_membership v.id who m)) s t x by members) k.clear)
step-IsSound o {s} {t} (hand v who now done found h) k =
    mapped-IsSound o s t (set_owner v.id who) (owner_keeps v.id who)
      (hand_rows v who now done s t h) k
      (hand_over-IsClear v who now done s t (found_row s v found k.unique) k.clear h)
step-IsSound o {s} {t} (other rows members) k =
    same-IsSound o s t rows k
      (fewer-IsClear s t rows (λ x by. same_members s t x by members) k.clear)

-- From a store where ids are unique and not empty and no account reaches two vaults at one address,
-- such as an empty one, any sequence of creating vaults under new ids, renaming them and handing
-- them over, accepting invitations, removing members and calls that change neither vaults nor
-- members leads to such a store.
pub Steps-IsSound : (o : Outside) {s t : Store} → Steps o s t → IsSound o s → IsSound o t
Steps-IsSound o stop h = h
Steps-IsSound o (next step rest) h = Steps-IsSound o rest (step-IsSound o step h)
