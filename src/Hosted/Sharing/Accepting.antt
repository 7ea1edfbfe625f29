-- ===== src/Hosted/Sharing/Accepting.antt =====
-- An account that accepts its invitations joins no vault at an address where it reaches another.
use notes_vault_mcp.Prelude.{
  ℕ, Text, text_eq, text_eq_iff, ◌≡◌, refl, sym, ap, ◌∙◌, subst, ◌⊎◌, Bool, true, ◌&&◌, Option,
  none, some, List, [], ◌∷◌, ◌++◌, keep, map, All, arith, Bool-cases, inl, inr,
}
use notes_vault_mcp.Hosted.{Vault, Member, Store, Outside, reaches, is_member, is_shared}
use notes_vault_mcp.Hosted.Sharing.{
  clash, is_clash, join_member, accept_one, accept_each, accept_invitations,
}
use notes_vault_mcp.Hosted.Sharing.Addresses.{Elsewhere, clash-All, pairs-map, IsApart, IsClear}
use notes_vault_mcp.Hosted.Sharing.Renaming.{IsUnique}

pub map_id : (vs : List Vault) → map (λ v. v) vs ≡ vs
map_id [] = refl
map_id (v ∷ vs) = ap (◌∷◌ v) (map_id vs)

is_member-append :
    (ms : List Member) (m : Member) (ref who : Text)
    → is_member (ms ++ (m ∷ [])) ref who ≡ true
    → is_member ms ref who ≡ true ⊎ (text_eq m.vault_id ref && text_eq m.account_id who) ≡ true
unfolding is_member
is_member-append [] m ref who h = inr (ground arith)
is_member-append (n ∷ ms) m ref who h =
    elim (Bool-cases (text_eq n.vault_id ref && text_eq n.account_id who)) [
      | inl e ↦ inl (ground arith)
      | inr e ↦ elim (is_member-append ms m ref who (ground arith)) [
        | inl f ↦ inl (ground arith)
        | inr f ↦ inr f
      ]
    ]

-- Who is a member after one joins was one before, or is that one.
pub is_member-join_member :
    (ms : List Member) (ref who : Text) (now : ℕ) (at by : Text)
    → is_member (join_member ref who now ms) at by ≡ true
    → is_member ms at by ≡ true ⊎ ((at ≡ ref) × (by ≡ who))
unfolding join_member
is_member-join_member ms ref who now at by h = elim (Bool-cases (is_member ms ref who)) [
  | inl e ↦ inl (ground arith)
  | inr e ↦
      let row : Member = record { vault_id = ref; account_id = who; joined_at = now } in
      let joined : is_member (ms ++ (row ∷ [])) at by ≡ true = ground arith in
      elim (is_member-append ms row at by joined) [
        | inl f ↦ inl f
        | inr f ↦
            let its : text_eq ref at ≡ true = ground arith in
            let his : text_eq who by ≡ true = ground arith in
            inr (sym ((text_eq_iff ref at).0 its), sym ((text_eq_iff who by).0 his))
      ]
]

module _ (v : Vault) (who : Text) (now : ℕ) (s t : Store)
    (joined : t.members ≡ join_member v.id who now s.members) where
  -- A row of the table: it is the vault itself if it has its id, and no clash if not.
  abbrev Row : Vault → Type 0
  Row x = (x.id ≡ v.id → x ≡ v) × Elsewhere s (who ∷ []) v.slug v.id x

  reaches-cases :
      (x : Vault) (by : Text)
      → reaches t x by ≡ true
      → reaches s x by ≡ true ⊎ ((x.id ≡ v.id) × (by ≡ who))
  unfolding reaches
  reaches-cases x by h = elim (Bool-cases (text_eq x.account_id by)) [
    | inl e ↦ inl (ground arith)
    | inr e ↦
        let opened : is_shared x.kind ≡ true = ground arith in
        let later : is_member t.members x.id by ≡ true = ground arith in
        let in_join = subst (λ ms. is_member ms x.id by ≡ true) joined later in
        elim (is_member-join_member s.members v.id who now x.id by in_join) [
          | inl f ↦ inl (ground arith)
          | inr f ↦ inr f
        ]
  ]

  beside :
      (x y : Vault) (by : Text)
      → Row x
      → Row y
      → x.id ≡ v.id
      → by ≡ who
      → reaches s y by ≡ true
      → x.slug ≡ y.slug
      → x.id ≡ y.id
  beside x y by (ux, fx) (uy, fy) e w b same =
      let seen : reaches s y who ≡ true = subst (λ k. reaches s y k ≡ true) w b in
      e ∙ sym (fy (ground arith) (sym same ∙ ap (λ (z : Vault). z.slug) (ux e)))

  pair-IsApart : (x y : Vault) → IsApart s x y → Row x → Row y → IsApart t x y
  pair-IsApart x y h rx ry by a b same = elim (reaches-cases x by a) [
    | inl c ↦ elim (reaches-cases y by b) [
      | inl d ↦ h by c d same
      | inr (f, w) ↦ sym (beside y x by ry rx f w c (sym same))
    ]
    | inr (e, w) ↦ elim (reaches-cases y by b) [
      | inl d ↦ beside x y by rx ry e w d same
      | inr (f, z) ↦ e ∙ sym f
    ]
  ]

  both-All :
      (xs : List Vault)
      → All (λ x. x.id ≡ v.id → x ≡ v) xs
      → All (Elsewhere s (who ∷ []) v.slug v.id) xs
      → All Row xs
  both-All [] u f = tt
  both-All (x ∷ xs) (ux, us) (fx, fs) = ((ux, fx), both-All xs us fs)

  pub joined-IsClear :
      t.vaults ≡ s.vaults
      → All (λ x. x.id ≡ v.id → x ≡ v) s.vaults
      → All (Elsewhere s (who ∷ []) v.slug v.id) s.vaults
      → IsClear s
      → IsClear t
  joined-IsClear same u f clear =
      let rows = both-All s.vaults u f in
      let found = pairs-map (IsApart s) (IsApart t) Row (λ x. x) pair-IsApart s.vaults rows clear in
      subst (λ vs. All (λ x. All (IsApart t x) vs) vs) (map_id s.vaults ∙ sym same) found

module _ (o : Outside) (who : Text) (emails : List Text) (now : ℕ) where
  abbrev Kept : List Vault → (Store → List (Vault × Vault) × Store) → Type 0
  Kept vaults rest = (s : Store) → s.vaults ≡ vaults → IsClear s → IsClear (rest s).1

  one-IsClear :
      (v : Vault) (vaults : List Vault) (s : Store) (found : Option Vault)
      (rest : Store → List (Vault × Vault) × Store)
      → Kept vaults rest
      → s.vaults ≡ vaults
      → clash s (who ∷ []) v.slug v.id ≡ found
      → All (λ x. x.id ≡ v.id → x ≡ v) vaults
      → IsClear s
      → IsClear (accept_one o found who emails now v s rest).1
  unfolding accept_one is_clash
  one-IsClear v vaults s (some w) rest ih same q u clear = ih s same clear
  one-IsClear v vaults s none rest ih same q u clear = ih _ same (
      joined-IsClear v who now s _ refl refl
        (subst (λ vs. All (λ x. x.id ≡ v.id → x ≡ v) vs) (sym same) u)
        (clash-All s (who ∷ []) v.slug v.id (ap is_clash q)) clear)

  each-IsClear :
      (vaults vs : List Vault)
      → All (λ v. All (λ x. x.id ≡ v.id → x ≡ v) vaults) vs
      → Kept vaults (accept_each o who emails now vs)
  unfolding accept_each
  each-IsClear vaults [] u s same clear = clear
  each-IsClear vaults (v ∷ vs) (u, us) s same clear =
      one-IsClear v vaults s (clash s (who ∷ []) v.slug v.id) (accept_each o who emails now vs)
        (each-IsClear vaults vs us) same refl u clear

  kept-All :
      (p : Vault → Bool) (P : Vault → Type 0) (vs : List Vault) → All P vs → All P (keep p vs)
  kept-All p P [] h = tt
  kept-All p P (v ∷ vs) (h, hs) = elim (Bool-cases (p v)) [
    | inl e ↦ rw e (h, kept-All p P vs hs)
    | inr e ↦ rw e (kept-All p P vs hs)
  ]

  -- Where no account reaches two vaults at one address, none does after an account has accepted its
  -- invitations, however many there are.
  pub accept_invitations-IsClear :
      (s : Store) → IsUnique s → IsClear s → IsClear (accept_invitations o who emails now s).1
  unfolding accept_invitations
  accept_invitations-IsClear s u clear =
      each-IsClear s.vaults _ (kept-All _ (λ v. All (λ x. x.id ≡ v.id → x ≡ v) s.vaults) s.vaults u)
        s refl clear
