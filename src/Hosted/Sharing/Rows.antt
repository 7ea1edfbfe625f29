-- ===== src/Hosted/Sharing/Rows.antt =====
-- What the calls on vaults and members do to the rows of the two tables.
use notes_vault_mcp.Prelude.{
  ℕ, Text, text_eq, ok, Done, ◌≡◌, ◌≢◌, refl, sym, ap, ◌∙◌, subst, Bool, true, not, ◌&&◌, ◌||◌,
  Option, none, some, List, [], ◌∷◌, ◌++◌, keep, map, All, All-append, arith, Bool-cases, inl, inr,
}
use notes_vault_mcp.Hosted.{Vault, Kind, Member, Store, Outside, reaches, is_member, is_shared}
use notes_vault_mcp.Hosted.Sharing.{
  set_address, set_owner, is_membership, create_vault, remove_member, hand_over, created, renamed,
  rename_found, accept_one, accept_each, clash, is_clash, holders, or_name, or_slug, valid_slug,
  clean_name, insert_vault,
}
use notes_vault_mcp.Hosted.Sharing.Addresses.{IsApart, IsClear, pairs-map}
use notes_vault_mcp.Hosted.Sharing.Accepting.{map_id}
use notes_vault_mcp.Hosted.Sharing.Handover.{is_member-keep}

abbrev pub Same : Vault → Vault → Type 0
Same v x = x.id ≡ v.id → x ≡ v

abbrev IsAny : Vault → Type 0
IsAny v = Unit

IsAny-All : (vs : List Vault) → All IsAny vs
IsAny-All [] = tt
IsAny-All (v ∷ vs) = (tt, IsAny-All vs)

-- A table that gives nobody more than it did.
pub fewer-IsClear :
    (s t : Store)
    → t.vaults ≡ s.vaults
    → ((x : Vault) (by : Text) → reaches t x by ≡ true → reaches s x by ≡ true)
    → IsClear s
    → IsClear t
fewer-IsClear s t same less clear =
    let found =
      pairs-map (IsApart s) (IsApart t) IsAny (λ x. x)
        (λ x y h p q by a b i. h by (less x by a) (less y by b) i) s.vaults (IsAny-All s.vaults)
        clear in
    subst (λ vs. All (λ x. All (IsApart t x) vs) vs) (map_id s.vaults ∙ sym same) found

pub fewer_members :
    (p : Member → Bool) (s t : Store) (x : Vault) (by : Text)
    → t.members ≡ keep p s.members
    → reaches t x by ≡ true
    → reaches s x by ≡ true
unfolding reaches
fewer_members p s t x by e h = elim (Bool-cases (text_eq x.account_id by)) [
  | inl f ↦ ground arith
  | inr f ↦
      let later : is_member t.members x.id by ≡ true = ground arith in
      let before =
        is_member-keep p s.members x.id by (subst (λ ms. is_member ms x.id by ≡ true) e later) in
      ground arith
]

pub same_members :
    (s t : Store) (x : Vault) (by : Text)
    → t.members ≡ s.members
    → reaches t x by ≡ true
    → reaches s x by ≡ true
unfolding reaches
same_members s t x by e h =
    subst (λ ms. (text_eq x.account_id by || (is_shared x.kind && is_member ms x.id by)) ≡ true) e h

module _ (f : Vault → Vault) (keeps : (x : Vault) → (f x).id ≡ x.id) where
  pub unique-map :
      (vs : List Vault)
      → All (λ v. All (Same v) vs) vs
      → All (λ v. All (Same v) (map f vs)) (map f vs)
  unique-map vs u =
      pairs-map Same Same IsAny f (λ v x h p q i. ap f (h (sym (keeps x) ∙ i ∙ keeps v))) vs
        (IsAny-All vs) u

  pub named-map :
      (vs : List Vault)
      → All (λ (x : Vault). x.id ≢ []) vs
      → All (λ (x : Vault). x.id ≢ []) (map f vs)
  named-map [] h = tt
  named-map (v ∷ vs) (h, hs) = (λ e. h (sym (keeps v) ∙ e), named-map vs hs)

pub address_keeps : (ref name slug : Text) (x : Vault) → (set_address ref name slug x).id ≡ x.id
address_keeps ref name slug x = elim (Bool-cases (text_eq x.id ref)) [
  | inl e ↦ rw e refl
  | inr e ↦ rw e refl
]

pub owner_keeps : (ref who : Text) (x : Vault) → (set_owner ref who x).id ≡ x.id
owner_keeps ref who x = elim (Bool-cases (text_eq x.id ref)) [
  | inl e ↦ rw e refl
  | inr e ↦ rw e refl
]

-- A table whose ids are kept, with or without a new one.
unique_new :
    (n : Vault) (rows vs : List Vault)
    → All (λ v. All (Same v) rows) vs
    → All (λ (x : Vault). x.id ≢ n.id) vs
    → All (λ v. All (Same v) (rows ++ (n ∷ []))) vs
unique_new n rows [] u h = tt
unique_new n rows (v ∷ vs) (u, us) (h, hs) =
    (All-append (Same v) rows (n ∷ []) u (λ e. absurd (h (sym e)), tt), unique_new n rows vs us hs)

none_of : (n : Vault) (vs : List Vault) → All (λ (x : Vault). x.id ≢ n.id) vs → All (Same n) vs
none_of n [] h = tt
none_of n (v ∷ vs) (h, hs) = (λ e. absurd (h e), none_of n vs hs)

pub unique-insert :
    (n : Vault) (vs : List Vault)
    → All (λ v. All (Same v) vs) vs
    → All (λ (x : Vault). x.id ≢ n.id) vs
    → All (λ v. All (Same v) (vs ++ (n ∷ []))) (vs ++ (n ∷ []))
unique-insert n vs u h =
    All-append (λ v. All (Same v) (vs ++ (n ∷ []))) vs (n ∷ []) (unique_new n vs vs u h)
      (All-append (Same n) vs (n ∷ []) (none_of n vs h) (λ e. refl, tt), tt)

module _ (o : Outside) where
  pub create_rows :
      (ref who name slug : Text) (kind : Kind) (now : ℕ) (w : Vault) (s t : Store)
      → create_vault o ref who name slug kind now s ≡ (ok w, t)
      → (t.vaults ≡ s.vaults ++ (w ∷ [])) × (w.id ≡ ref)
  unfolding create_vault created insert_vault
  create_rows ref who name slug kind now w s t h =
      elim (Bool-cases (text_eq (clean_name o name) [])) [
        | inl e ↦ absurd (ground arith)
        | inr e ↦ elim (Bool-cases (valid_slug slug)) [
          | inl f ↦ elim (Bool-cases (is_clash (clash s (who ∷ []) slug []))) [
            | inl g ↦ absurd (ground arith)
            | inr g ↦ (ground arith, ground arith)
          ]
          | inr f ↦ absurd (ground arith)
        ]
      ]

  renamed_rows :
      (v : Vault) (name slug : Text) (w : Vault) (s t : Store)
      → renamed o v name slug s ≡ (ok w, t)
      → t.vaults ≡ map (set_address v.id name slug) s.vaults
  unfolding renamed
  renamed_rows v name slug w s t h =
      elim (Bool-cases (
        not (text_eq slug v.slug)
        && (is_clash (clash s (v.account_id ∷ []) slug v.id)
            || is_clash (clash s (holders s v.id) slug v.id)))) [
              | inl e ↦ absurd (ground arith)
              | inr e ↦ ground arith
            ]

  pub found_rows :
      (found : Option Vault) (name slug : Option Text) (w : Vault) (s t : Store)
      → rename_found o found name slug s ≡ (ok w, t)
      → (ref to at : Text) × (t.vaults ≡ map (set_address ref to at) s.vaults)
  unfolding rename_found
  found_rows none name slug w s t h = absurd (ground arith)
  found_rows (some v) name slug w s t h = elim (Bool-cases (text_eq (or_name o name v) [])) [
    | inl e ↦ absurd (ground arith)
    | inr e ↦ elim (Bool-cases (valid_slug (or_slug o slug v))) [
      | inl f ↦ (
        v.id,
        or_name o name v,
        or_slug o slug v,
        renamed_rows v (or_name o name v) (or_slug o slug v) w s t (ground arith),
      )
      | inr f ↦ absurd (ground arith)
    ]
  ]

  one_rows :
      (found : Option Vault) (who : Text) (emails : List Text) (now : ℕ) (v : Vault) (s : Store)
      (rest : Store → List (Vault × Vault) × Store)
      → ((u : Store) → (rest u).1.vaults ≡ u.vaults)
      → (accept_one o found who emails now v s rest).1.vaults ≡ s.vaults
  unfolding accept_one
  one_rows (some found) who emails now v s rest ih = ih s
  one_rows none who emails now v s rest ih = ih _

  pub each_rows :
      (who : Text) (emails : List Text) (now : ℕ) (vs : List Vault) (s : Store)
      → (accept_each o who emails now vs s).1.vaults ≡ s.vaults
  unfolding accept_each
  each_rows who emails now [] s = refl
  each_rows who emails now (v ∷ vs) s =
      one_rows (clash s (who ∷ []) v.slug v.id) who emails now v s (accept_each o who emails now vs)
        (each_rows who emails now vs)

pub remove_rows :
    (v : Vault) (who : Text) (now : ℕ) (was : Bool) (s t : Store)
    → remove_member v who now s ≡ (ok was, t)
    → (t.vaults ≡ s.vaults) × (t.members ≡ keep (λ m. not (is_membership v.id who m)) s.members)
unfolding remove_member
remove_rows v who now was s t h = elim (Bool-cases (text_eq who v.account_id)) [
  | inl e ↦ absurd (ground arith)
  | inr e ↦ (ground arith, ground arith)
]

pub hand_rows :
    (v : Vault) (who : Text) (now : ℕ) (done : Done) (s t : Store)
    → hand_over v who now s ≡ (ok done, t)
    → t.vaults ≡ map (set_owner v.id who) s.vaults
unfolding hand_over
hand_rows v who now done s t h =
    elim (Bool-cases (text_eq who v.account_id || not (reaches s v who))) [
      | inl e ↦ absurd (ground arith)
      | inr e ↦ elim (Bool-cases (is_clash (clash s (who ∷ []) v.slug v.id))) [
        | inl f ↦ absurd (ground arith)
        | inr f ↦ ground arith
      ]
    ]
