-- ===== src/Hosted/Sharing/Renaming.antt =====
-- A vault that is renamed clashes with no vault of anybody who reaches it.
use notes_vault_mcp.Prelude.{
  Text, text_eq, text_eq_iff, ok, ◌≡◌, refl, sym, ap, ◌∙◌, subst, ◌⊎◌, Bool, true, false, not, ◌&&◌,
  ◌||◌, Option, none, some, List, [], ◌∷◌, ◌++◌, first, first_holds, All-first, any, keep, map, All,
  arith, Bool-cases, inl, inr,
}
use notes_vault_mcp.Hosted.{Vault, Member, Store, Outside, reaches, is_member, vault}
use notes_vault_mcp.Hosted.Sharing.{
  clash, is_clash, holders, renamed, rename_found, rename_vault, set_address, or_name, or_slug,
  valid_slug,
}
use notes_vault_mcp.Hosted.Sharing.Addresses.{Elsewhere, clash-All, pairs-map, IsApart, IsClear}

any-append : (p : Text → Bool) (xs ys : List Text) → any p (xs ++ ys) ≡ (any p xs || any p ys)
any-append p [] ys = refl
any-append p (x ∷ xs) ys = elim (Bool-cases (p x)) [
  | inl e ↦ rw e refl
  | inr e ↦ rw e (any-append p xs ys)
]

any_owner :
    (p : Text → Bool) (v : Vault) (ref : Text) (vs : List Vault)
    → first (λ (v : Vault). text_eq v.id ref) vs ≡ some v
    → p v.account_id ≡ true
    → any p (map (λ (v : Vault). v.account_id) (keep (λ v. text_eq v.id ref) vs)) ≡ true
any_owner p v ref [] h k = cc
any_owner p v ref (w ∷ vs) h k = elim (Bool-cases (text_eq w.id ref)) [
  | inl e ↦
      let same : w ≡ v = ground arith in
      let hit : p w.account_id ≡ true = subst (λ (x : Vault). p x.account_id ≡ true) (sym same) k in
      rw (e, hit) refl
  | inr e ↦ rw e (any_owner p v ref vs (ground arith) k)
]

any_member :
    (p : Text → Bool) (ref who : Text) (ms : List Member)
    → is_member ms ref who ≡ true
    → p who ≡ true
    → any p (map (λ (m : Member). m.account_id) (keep (λ m. text_eq m.vault_id ref) ms)) ≡ true
unfolding is_member
any_member p ref who [] h k = cc
any_member p ref who (m ∷ ms) h k = elim (Bool-cases (text_eq m.vault_id ref)) [
  | inl e ↦ elim (Bool-cases (text_eq m.account_id who)) [
    | inl f ↦
        let hit : p m.account_id ≡ true =
          subst (λ x. p x ≡ true) (sym ((text_eq_iff m.account_id who).0 f)) k in
        rw (e, hit) refl
    | inr f ↦
        let later = any_member p ref who ms (ground arith) k in
        rw e (elim (Bool-cases (p m.account_id)) [ inl g ↦ rw g refl | inr g ↦ rw g later ])
  ]
  | inr e ↦ rw e (any_member p ref who ms (ground arith) k)
]

-- Who reaches a vault is among its holders.
any-holders :
    (p : Text → Bool) (s : Store) (v : Vault) (who : Text)
    → vault s v.id ≡ some v
    → reaches s v who ≡ true
    → p who ≡ true
    → any p (holders s v.id) ≡ true
unfolding holders reaches vault
any-holders p s v who found h k =
    let owners = map (λ (v : Vault). v.account_id) (keep (λ w. text_eq w.id v.id) s.vaults) in
    let joined =
      map (λ (m : Member). m.account_id) (keep (λ m. text_eq m.vault_id v.id) s.members) in
    any-append p owners joined ∙ elim (Bool-cases (text_eq v.account_id who)) [
      | inl e ↦
          let hit : p v.account_id ≡ true =
            subst (λ x. p x ≡ true) (sym ((text_eq_iff v.account_id who).0 e)) k in
          rw (any_owner p v v.id s.vaults found hit) refl
      | inr e ↦
          let in_table : is_member s.members v.id who ≡ true = ground arith in
          let hit = any_member p v.id who s.members in_table k in ground arith
    ]

module _ (o : Outside) (v : Vault) (name slug : Text) (s : Store)
    (found : vault s v.id ≡ some v) where
  abbrev move : Vault → Vault
  move = set_address v.id name slug

  -- A row of the table: it is the vault itself if it has its id, and no clash if not.
  abbrev Row : Vault → Type 0
  Row x = (x.id ≡ v.id → x ≡ v) × (slug ≡ v.slug ⊎ Elsewhere s (holders s v.id) slug v.id x)

  abbrev Moved : Store
  Moved = record s { vaults = map move s.vaults }

  same_id : (x : Vault) → (move x).id ≡ x.id
  same_id x = elim (Bool-cases (text_eq x.id v.id)) [ inl e ↦ rw e refl | inr e ↦ rw e refl ]

  same_reach : (x : Vault) (who : Text) → reaches Moved (move x) who ≡ reaches s x who
  unfolding reaches
  same_reach x who = elim (Bool-cases (text_eq x.id v.id)) [ inl e ↦ rw e refl | inr e ↦ rw e refl ]

  moved_slug : (x : Vault) → text_eq x.id v.id ≡ true → (move x).slug ≡ slug
  moved_slug x e = rw e refl

  left_slug : (x : Vault) → text_eq x.id v.id ≡ false → (move x).slug ≡ x.slug
  left_slug x e = rw e refl

  -- The vault itself beside another one.
  beside :
      (x y : Vault) (who : Text)
      → IsApart s x y
      → Row x
      → Row y
      → x.id ≡ v.id
      → reaches s x who ≡ true
      → reaches s y who ≡ true
      → slug ≡ y.slug
      → x.id ≡ y.id
  beside x y who h (ux, fx) (uy, inl unchanged) e a b same =
      h who a b (ap (λ (w : Vault). w.slug) (ux e) ∙ sym unchanged ∙ same)
  beside x y who h (ux, fx) (uy, inr free) e a b same =
      let it = ux e in
      let holds =
        any-holders (reaches s y) s v who found (subst (λ (w : Vault). reaches s w who ≡ true) it a)
          b in
      e ∙ sym (free holds (sym same))

  pair-IsApart : (x y : Vault) → IsApart s x y → Row x → Row y → IsApart Moved (move x) (move y)
  pair-IsApart x y h rx ry who a b same =
      let a1 = sym (same_reach x who) ∙ a in
      let b1 = sym (same_reach y who) ∙ b in
      let ids : x.id ≡ y.id = elim (Bool-cases (text_eq x.id v.id)) [
        | inl e ↦ elim (Bool-cases (text_eq y.id v.id)) [
          | inl f ↦ (text_eq_iff x.id v.id).0 e ∙ sym ((text_eq_iff y.id v.id).0 f)
          | inr f ↦
              beside x y who h rx ry ((text_eq_iff x.id v.id).0 e) a1 b1
                (sym (moved_slug x e) ∙ same ∙ left_slug y f)
        ]
        | inr e ↦ elim (Bool-cases (text_eq y.id v.id)) [
          | inl f ↦ sym (
              beside y x who (λ k c d i. sym (h k d c (sym i))) ry rx ((text_eq_iff y.id v.id).0 f)
                b1 a1 (sym (moved_slug y f) ∙ sym same ∙ left_slug x e))
          | inr f ↦ h who a1 b1 (sym (left_slug x e) ∙ same ∙ left_slug y f)
        ]
      ] in
      same_id x ∙ ids ∙ sym (same_id y)

  clear_rows :
      (xs : List Vault)
      → All (λ x. x.id ≡ v.id → x ≡ v) xs
      → slug ≡ v.slug ⊎ All (Elsewhere s (holders s v.id) slug v.id) xs
      → All Row xs
  clear_rows [] u f = tt
  clear_rows (x ∷ xs) (ux, us) (inl e) = ((ux, inl e), clear_rows xs us (inl e))
  clear_rows (x ∷ xs) (ux, us) (inr (f, fs)) = ((ux, inr f), clear_rows xs us (inr fs))

  renamed-IsClear :
      (w : Vault) (t : Store)
      → All (λ x. x.id ≡ v.id → x ≡ v) s.vaults
      → IsClear s
      → renamed o v name slug s ≡ (ok w, t)
      → IsClear t
  unfolding renamed
  renamed-IsClear w t u clear h =
      let free : slug ≡ v.slug ⊎ All (Elsewhere s (holders s v.id) slug v.id) s.vaults =
        elim (Bool-cases (text_eq slug v.slug)) [
          | inl e ↦ inl ((text_eq_iff slug v.slug).0 e)
          | inr e ↦ elim (Bool-cases (is_clash (clash s (holders s v.id) slug v.id))) [
            | inl f ↦ absurd (ground arith)
            | inr f ↦ inr (clash-All s (holders s v.id) slug v.id f)
          ]
        ] in
      let rows = clear_rows s.vaults u free in
      let at : Moved ≡ t =
        elim (Bool-cases (
          not (text_eq slug v.slug)
          && (is_clash (clash s (v.account_id ∷ []) slug v.id)
              || is_clash (clash s (holders s v.id) slug v.id)))) [
                | inl e ↦ absurd (ground arith)
                | inr e ↦ ground arith
              ] in
      subst IsClear at
        (pairs-map (IsApart s) (IsApart Moved) Row move pair-IsApart s.vaults rows clear)

-- The id is the table's key.
abbrev pub IsUnique : Store → Type 0
IsUnique s = All (λ v. All (λ x. x.id ≡ v.id → x ≡ v) s.vaults) s.vaults

found-IsClear :
    (o : Outside) (found : Option Vault) (ref : Text) (name slug : Option Text) (w : Vault)
    (s t : Store)
    → vault s ref ≡ found
    → IsUnique s
    → IsClear s
    → rename_found o found name slug s ≡ (ok w, t)
    → IsClear t
unfolding rename_found vault
found-IsClear o none ref name slug w s t q u clear h = absurd (ground arith)
found-IsClear o (some v) ref name slug w s t q u clear h =
    elim (Bool-cases (text_eq (or_name o name v) [])) [
      | inl e ↦ absurd (ground arith)
      | inr e ↦ elim (Bool-cases (valid_slug (or_slug o slug v))) [
        | inl f ↦
            let id : v.id ≡ ref =
              (text_eq_iff v.id ref).0
                (first_holds (λ (v : Vault). text_eq v.id ref) s.vaults v q) in
            let known : vault s v.id ≡ some v = subst (λ k. vault s k ≡ some v) (sym id) q in
            renamed-IsClear o v (or_name o name v) (or_slug o slug v) s known w t
              (All-first (λ v. All (λ x. x.id ≡ v.id → x ≡ v) s.vaults)
                (λ (v : Vault). text_eq v.id ref) s.vaults v u q)
              clear (ground arith)
        | inr f ↦ absurd (ground arith)
      ]
    ]

-- Where no account reaches two vaults at one address, none does after a vault is renamed or moved to
-- another address, whoever else reaches it.
pub rename_vault-IsClear :
    (o : Outside) (ref : Text) (name slug : Option Text) (w : Vault) (s t : Store)
    → IsUnique s
    → IsClear s
    → rename_vault o ref name slug s ≡ (ok w, t)
    → IsClear t
unfolding rename_vault
rename_vault-IsClear o ref name slug w s t u clear h =
    found-IsClear o (vault s ref) ref name slug w s t refl u clear h
