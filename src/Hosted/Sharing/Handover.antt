-- ===== src/Hosted/Sharing/Handover.antt =====
-- A vault that is handed over is reached by nobody who did not reach it.
use notes_vault_mcp.Prelude.{
  ℕ, Text, text_eq, text_eq_iff, ok, Done, ◌≡◌, refl, sym, ap, ◌∙◌, subst, ◌⊎◌, Bool, true, false,
  not, ◌&&◌, ◌||◌, List, [], ◌∷◌, keep, map, All, arith, Bool-cases, inl, inr,
}
use notes_vault_mcp.Hosted.{Vault, Member, Store, reaches, is_member}
use notes_vault_mcp.Hosted.Sharing.{
  clash, is_clash, join_member, set_owner, is_membership, hand_over,
}
use notes_vault_mcp.Hosted.Sharing.Addresses.{pairs-map, IsApart, IsClear}
use notes_vault_mcp.Hosted.Sharing.Accepting.{is_member-join_member}

pub is_member-keep :
    (p : Member → Bool) (ms : List Member) (ref who : Text)
    → is_member (keep p ms) ref who ≡ true
    → is_member ms ref who ≡ true
unfolding is_member
is_member-keep p [] ref who h = h
is_member-keep p (m ∷ ms) ref who h =
    elim (Bool-cases (text_eq m.vault_id ref && text_eq m.account_id who)) [
      | inl e ↦ ground arith
      | inr e ↦ elim (Bool-cases (p m)) [
        | inl f ↦ let later = is_member-keep p ms ref who (ground arith) in ground arith
        | inr f ↦ let later = is_member-keep p ms ref who (ground arith) in ground arith
      ]
    ]

module _ (v : Vault) (who : Text) (now : ℕ) (s t : Store)
    (handed : t.members
      ≡ join_member v.id v.account_id now (keep (λ m. not (is_membership v.id who m)) s.members))
    (reached : reaches s v who ≡ true) where
  member-cases :
      (at by : Text)
      → is_member t.members at by ≡ true
      → is_member s.members at by ≡ true ⊎ ((at ≡ v.id) × (by ≡ v.account_id))
  member-cases at by h =
      let left = keep (λ m. not (is_membership v.id who m)) s.members in
      elim (is_member-join_member left v.id v.account_id now at by
        (subst (λ ms. is_member ms at by ≡ true) handed h)) [
          | inl f ↦ inl (is_member-keep (λ m. not (is_membership v.id who m)) s.members at by f)
          | inr f ↦ inr f
        ]

  of_itself :
      (by : Text) → reaches t (record v { account_id = who }) by ≡ true → reaches s v by ≡ true
  of_itself by h = elim (Bool-cases (text_eq who by)) [
    | inl e ↦ subst (λ k. reaches s v k ≡ true) ((text_eq_iff who by).0 e) reached
    | inr e ↦ elim (member-cases v.id by (unfold reaches in ground arith)) [
      | inl f ↦ unfold reaches in ground arith
      | inr (i, f) ↦
          let owner = (text_eq_iff v.account_id by).1 (sym f) in unfold reaches in ground arith
    ]
  ]

  of_other :
      (x : Vault) (by : Text)
      → text_eq x.id v.id ≡ false
      → reaches t x by ≡ true
      → reaches s x by ≡ true
  unfolding reaches
  of_other x by n h = elim (Bool-cases (text_eq x.account_id by)) [
    | inl e ↦ ground arith
    | inr e ↦ elim (member-cases x.id by (ground arith)) [
      | inl f ↦ ground arith
      | inr (i, f) ↦ let same = (text_eq_iff x.id v.id).1 i in absurd (ground arith)
    ]
  ]

  abbrev Row : Vault → Type 0
  Row x = x.id ≡ v.id → x ≡ v

  -- Whoever reaches a vault now reached it before.
  reached_before :
      (x : Vault) (by : Text)
      → Row x
      → reaches t (set_owner v.id who x) by ≡ true
      → reaches s x by ≡ true
  reached_before x by u h = elim (Bool-cases (text_eq x.id v.id)) [
    | inl e ↦
        let it = u ((text_eq_iff x.id v.id).0 e) in
        let moved : set_owner v.id who x ≡ record v { account_id = who } =
          rw e (ap (λ (y : Vault). record y { account_id = who }) it) in
        subst (λ (y : Vault). reaches s y by ≡ true) (sym it)
          (of_itself by (subst (λ (y : Vault). reaches t y by ≡ true) moved h))
    | inr e ↦
        let kept : set_owner v.id who x ≡ x = rw e refl in
        of_other x by e (subst (λ (y : Vault). reaches t y by ≡ true) kept h)
  ]

  same_address :
      (x : Vault) → ((set_owner v.id who x).id ≡ x.id) × ((set_owner v.id who x).slug ≡ x.slug)
  same_address x = elim (Bool-cases (text_eq x.id v.id)) [
    | inl e ↦ rw e (refl, refl)
    | inr e ↦ rw e (refl, refl)
  ]

  pub pair-IsApart :
      (x y : Vault)
      → IsApart s x y
      → Row x
      → Row y
      → IsApart t (set_owner v.id who x) (set_owner v.id who y)
  pair-IsApart x y h rx ry by a b same =
      let (i, k) = same_address x in
      let (j, l) = same_address y in
      i ∙ h by (reached_before x by rx a) (reached_before y by ry b) (sym k ∙ same ∙ l) ∙ sym j

-- Where no account reaches two vaults at one address, none does after a vault is handed over to one of
-- its members.
pub hand_over-IsClear :
    (v : Vault) (who : Text) (now : ℕ) (done : Done) (s t : Store)
    → All (λ x. x.id ≡ v.id → x ≡ v) s.vaults
    → IsClear s
    → hand_over v who now s ≡ (ok done, t)
    → IsClear t
unfolding hand_over
hand_over-IsClear v who now done s t u clear h =
    elim (Bool-cases (text_eq who v.account_id || not (reaches s v who))) [
      | inl e ↦ absurd (ground arith)
      | inr e ↦ elim (Bool-cases (is_clash (clash s (who ∷ []) v.slug v.id))) [
        | inl f ↦ absurd (ground arith)
        | inr f ↦
            let reached : reaches s v who ≡ true = ground arith in
            let members : t.members
                ≡ join_member v.id v.account_id now
                    (keep (λ m. not (is_membership v.id who m)) s.members) =
              ground arith in
            let vaults : t.vaults ≡ map (set_owner v.id who) s.vaults = ground arith in
            subst (λ vs. All (λ x. All (IsApart t x) vs) vs) (sym vaults)
              (pairs-map (IsApart s) (IsApart t) (λ x. x.id ≡ v.id → x ≡ v) (set_owner v.id who)
                (pair-IsApart v who now s t members reached) s.vaults u clear)
      ]
    ]
