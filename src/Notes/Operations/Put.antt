-- ===== src/Notes/Operations/Put.antt =====
-- What a write of frontmatter over a named version has done when it returns.
use notes_vault_mcp.Prelude.{
  Text, Result, ok, err, ◌≡◌, refl, sym, ◌∙◌, Result-cases, inl, inr, some, arith,
}
use notes_vault_mcp.Prelude.Dict.{Dict}
use notes_vault_mcp.Backends.{Backend}
use notes_vault_mcp.Frontmatter.{Value}
use notes_vault_mcp.Notes.Vault.{Vault, put_stored, interfere, reindex}
use notes_vault_mcp.Notes.Operations.{
  Context, finished, put_frontmatter, put_and_index, put_printed,
}

module _ {S : Type 0} (b : Backend S) (x : Context) where
  -- `before` is the storage just before the write.
  pub record IsPut (key : Text) (fm : Dict Value) (body version w : Text) (before : S) (v : Vault S)
      : Type 0 where
    pub text : Text
    pub printed : finished x key fm body ≡ ok text
    pub accepted : (b.put before key text (some version)).0 ≡ ok w
    pub stored : v.store ≡ (b.put before key text (some version)).1

  put_and_index-eq-ok :
      (key text version w : Text) (u v : Vault S)
      → put_and_index b x key text version u ≡ (ok w, v)
      → ((b.put (interfere u).store key text (some version)).0 ≡ ok w)
        × (v.store ≡ (b.put (interfere u).store key text (some version)).1)
  unfolding put_and_index put_stored reindex
  put_and_index-eq-ok key text version w u v h =
      elim (Result-cases (b.put (interfere u).store key text (some version)).0) [
        | inl (y, e) ↦ ground arith
        | inr (y, e) ↦ absurd (ground arith)
      ]

  put_frontmatter_lem :
      (key body version : Text) (fm : Dict Value) (u : Vault S)
      → put_frontmatter b x key fm body version u
        ≡ put_printed b x key version (finished x key fm body) u
  unfolding put_frontmatter
  put_frontmatter_lem key body version fm u = refl

  put_printed-IsPut :
      (key body version w : Text) (fm : Dict Value) (u v : Vault S) (printed : Result Text)
      → finished x key fm body ≡ printed
      → put_printed b x key version printed u ≡ (ok w, v)
      → IsPut key fm body version w (interfere u).store v
  unfolding put_printed
  put_printed-IsPut key body version w fm u v (err e) r h = absurd (ground arith)
  put_printed-IsPut key body version w fm u v (ok text) r h =
      let (accepted, stored) = put_and_index-eq-ok key text version w u v h in
      record { text = text; printed = r; accepted = accepted; stored = stored }

  pub put_frontmatter-IsPut :
      (key body version w : Text) (fm : Dict Value) (u v : Vault S)
      → put_frontmatter b x key fm body version u ≡ (ok w, v)
      → IsPut key fm body version w (interfere u).store v
  put_frontmatter-IsPut key body version w fm u v h =
      put_printed-IsPut key body version w fm u v (finished x key fm body) refl
        (sym (put_frontmatter_lem key body version fm u) ∙ h)
