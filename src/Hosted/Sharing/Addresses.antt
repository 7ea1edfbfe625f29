-- ===== src/Hosted/Sharing/Addresses.antt =====
-- No account reaches two vaults at one address.
use notes_vault_mcp.Prelude.{
  ℕ, Text, text_eq, text_eq_iff, ok, ◌≡◌, ◌≢◌, refl, sym, subst, true, false, List, [], ◌∷◌, ◌++◌,
  first, any, keep, map, All, All-append, arith, Bool-cases, inl, inr,
}
use notes_vault_mcp.Hosted.{Vault, Kind, Store, Outside, reaches, is_member}
use notes_vault_mcp.Hosted.Sharing.{
  reached, clash, clashes, is_clash, insert_vault, created, create_vault, valid_slug, clean_name,
}

-- What `clash` finds nothing of.
module _ (s : Store) (accounts : List Text) (slug other : Text) where
  abbrev pub Elsewhere : Vault → Type 0
  Elsewhere v = any (reaches s v) accounts ≡ true → v.slug ≡ slug → v.id ≡ other

  kept-Elsewhere :
      (vs : List Vault)
      → is_clash (first (clashes slug other) (keep (λ v. any (reaches s v) accounts) vs)) ≡ false
      → All Elsewhere vs
  unfolding is_clash
  kept-Elsewhere [] h = tt
  kept-Elsewhere (v ∷ vs) h = elim (Bool-cases (any (reaches s v) accounts)) [
    | inl x ↦ elim (Bool-cases (clashes slug other v)) [
      | inl y ↦ absurd (ground arith)
      | inr y ↦ (
        λ e f.
            let same = (text_eq_iff v.slug slug).1 f in
            let equal : text_eq v.id other ≡ true = ground arith in
            (text_eq_iff v.id other).0 equal,
        kept-Elsewhere vs (ground arith),
      )
    ]
    | inr x ↦ (λ e f. absurd (ground arith), kept-Elsewhere vs (ground arith))
  ]

  pub clash-All : is_clash (clash s accounts slug other) ≡ false → All Elsewhere s.vaults
  unfolding clash reached
  clash-All h = kept-Elsewhere s.vaults h

-- Two vaults at one address that one account reaches are one vault.
abbrev pub IsApart : Store → Vault → Vault → Type 0
IsApart s v w =
    (who : Text) → reaches s v who ≡ true → reaches s w who ≡ true → v.slug ≡ w.slug → v.id ≡ w.id

abbrev pub IsClear : Store → Type 0
IsClear s = All (λ v. All (IsApart s v) s.vaults) s.vaults

-- The id is new: no vault and no member has it.
pub record IsNew (ref : Text) (s : Store) : Type 0 where
  pub no_member : (who : Text) → is_member s.members ref who ≡ false
  pub no_vault : All (λ (x : Vault). x.id ≢ ref) s.vaults

-- What holds of every two rows, by what is known of each, holds of the rows that they become.
module _ (P Q : Vault → Vault → Type 0) (R : Vault → Type 0) (f : Vault → Vault)
    (step : (x y : Vault) → P x y → R x → R y → Q (f x) (f y)) where
  pairs_of :
      (x : Vault) (ys : List Vault) → R x → All R ys → All (P x) ys → All (Q (f x)) (map f ys)
  pairs_of x [] rx rows h = tt
  pairs_of x (y ∷ ys) rx (ry, rows) (h, hs) = (step x y h rx ry, pairs_of x ys rx rows hs)

  pairs_from :
      (every xs : List Vault)
      → All R every
      → All R xs
      → All (λ x. All (P x) every) xs
      → All (λ x. All (Q x) (map f every)) (map f xs)
  pairs_from every [] ra rows h = tt
  pairs_from every (x ∷ xs) ra (rx, rows) (h, hs) =
      (pairs_of x every rx ra h, pairs_from every xs ra rows hs)

  pub pairs-map :
      (vs : List Vault)
      → All R vs
      → All (λ x. All (P x) vs) vs
      → All (λ x. All (Q x) (map f vs)) (map f vs)
  pairs-map vs rows h = pairs_from vs vs rows rows h

reaches_alone :
    (s : Store) (v : Vault) (who : Text)
    → IsNew v.id s
    → reaches s v who ≡ true
    → who ≡ v.account_id
unfolding reaches
reaches_alone s v who n h =
    let alone = n.no_member who in
    let owner : text_eq v.account_id who ≡ true = ground arith in
    sym ((text_eq_iff v.account_id who).0 owner)

-- A new vault at an address where its owner reaches none.
created-IsApart :
    (v : Vault) (s : Store)
    → IsNew v.id s
    → All (Elsewhere s (v.account_id ∷ []) v.slug []) s.vaults
    → All (λ (w : Vault). w.id ≢ []) s.vaults
    → All (IsApart s v) s.vaults
created-IsApart v s n free named = go s.vaults free named
  where
    go :
        (vs : List Vault)
        → All (Elsewhere s (v.account_id ∷ []) v.slug []) vs
        → All (λ (w : Vault). w.id ≢ []) vs
        → All (IsApart s v) vs
    go [] free named = tt
    go (w ∷ vs) (f, free) (m, named) = (
      λ who a b same.
          let owner = reaches_alone s v who n a in
          let seen : reaches s w v.account_id ≡ true = subst (λ k. reaches s w k ≡ true) owner b in
          absurd (m (f (ground arith) (sym same))),
      go vs free named,
    )

turned : (s : Store) (v w : Vault) → IsApart s v w → IsApart s w v
turned s v w h who a b same = sym (h who b a (sym same))

joined_rows :
    (s : Store) (v : Vault) (rows vs : List Vault)
    → All (λ x. All (IsApart s x) rows) vs
    → All (IsApart s v) vs
    → All (λ x. All (IsApart s x) (rows ++ (v ∷ []))) vs
joined_rows s v rows [] h k = tt
joined_rows s v rows (x ∷ vs) (h, hs) (k, ks) =
    (All-append (IsApart s x) rows (v ∷ []) h (turned s v x k, tt), joined_rows s v rows vs hs ks)

-- The ids of a store with no empty id, and of the vault to come.
abbrev pub IsNamed : Store → Type 0
IsNamed s = All (λ (w : Vault). w.id ≢ []) s.vaults

created-IsClear :
    (v w : Vault) (s t : Store)
    → IsNew v.id s
    → IsNamed s
    → IsClear s
    → created v s ≡ (ok w, t)
    → IsClear t
unfolding created insert_vault reaches
created-IsClear v w s t n named clear h =
    elim (Bool-cases (is_clash (clash s (v.account_id ∷ []) v.slug []))) [
      | inl e ↦ absurd (ground arith)
      | inr e ↦
          let apart = created-IsApart v s n (clash-All s (v.account_id ∷ []) v.slug [] e) named in
          let own = All-append (IsApart s v) s.vaults (v ∷ []) apart (λ who a b same. refl, tt) in
          let at : insert_vault v s ≡ t = ground arith in
          subst IsClear at (
            All-append (λ x. All (IsApart s x) (s.vaults ++ (v ∷ []))) s.vaults (v ∷ [])
              (joined_rows s v s.vaults s.vaults clear apart) (own, tt))
    ]

-- Where no account reaches two vaults at one address, none does after a vault is created under an id
-- that is new.
pub create_vault-IsClear :
    (o : Outside) (ref who name slug : Text) (kind : Kind) (now : ℕ) (w : Vault) (s t : Store)
    → IsNew ref s
    → IsNamed s
    → IsClear s
    → create_vault o ref who name slug kind now s ≡ (ok w, t)
    → IsClear t
unfolding create_vault
create_vault-IsClear o ref who name slug kind now w s t n named clear h =
    elim (Bool-cases (text_eq (clean_name o name) [])) [
      | inl e ↦ absurd (ground arith)
      | inr e ↦ elim (Bool-cases (valid_slug slug)) [
        | inl f ↦
            created-IsClear
              (record {
                id = ref;
                account_id = who;
                name = clean_name o name;
                slug = slug;
                created_at = now;
                kind = kind;
              })
              w s t n named clear (ground arith)
        | inr f ↦ absurd (ground arith)
      ]
    ]
