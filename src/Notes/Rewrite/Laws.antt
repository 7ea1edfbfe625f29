-- ===== src/Notes/Rewrite/Laws.antt =====
-- No update is lost by `rewrite`, and what it raises it raises before it wrote anything.
use notes_vault_mcp.Prelude.{
  ℕ, zero, suc, Text, Result, ok, err, Error, ◌≡◌, ◌≢◌, refl, sym, subst, ◌⊎◌, inl, inr, Bool-cases,
  Result-cases, true, Option, none, some, arith, [],
}
use notes_vault_mcp.Prelude.Dict
use notes_vault_mcp.Prelude.Dict.{get-put_self}
use notes_vault_mcp.Prelude.Strings.{is_canonical}
use notes_vault_mcp.Backends.{Backend, Versioned, must_not_exist}
use notes_vault_mcp.Notes.Vault.{Vault, put_stored, reindex, interfere, interfere_quiet}
use notes_vault_mcp.Notes.Rewrite.{
  current_of, is_conflict, settle, write_change, round, rewrite_loop, rewrite, rewrite_retries,
}

module _ {S : Type 0} (b : Backend S) (change : Option Text → Result (Option Text))
    (key : Text) where
  -- A write that lost nothing: `text` is what `change` makes of the note as it stood in the storage
  -- just before the write (if a note could be read there), it is what is stored now, and indexed.
  pub record IsCleanWrite (v : Vault S) (text version : Text) : Type 0 where
    pub before : S
    pub current : Option Text
    pub expected : Text
    pub chosen : change current ≡ ok (some text)
    pub seen : (u z : Text) → b.get before key ≡ ok (u, z) → current ≡ some u
    pub written : v.store ≡ (b.put before key text (some expected)).1
    pub stored : b.get v.store key ≡ ok (text, version)
    pub indexed : Dict.get v.index key ≡ some (record { text = text; version = version })

  settle_inv :
      (text t w : Text) (p : Result Text × Vault S)
      (again : Vault S → Result (Option (Text × Text)) × Vault S) (v : Vault S)
      → settle b change key text p again ≡ (ok (some (t, w)), v)
      → ((p.0 ≡ ok w) × (t ≡ text) × (v ≡ reindex key text w p.1))
        ⊎ ((u : Vault S) × (again u ≡ (ok (some (t, w)), v)))
  unfolding settle
  settle_inv text t w (ok version, u) again v h = inl (ground arith)
  settle_inv text t w (err x, u) again v h = elim (Bool-cases (is_conflict x)) [
    | inl e ↦ inr (u, ground arith)
    | inr e ↦ absurd (ground arith)
  ]

  -- What was read is what is there when the checked write goes through.
  seen_of :
      (l : Versioned b) (s0 s : S) (current : Option Text) (version text w u z : Text)
      → is_canonical key ≡ true
      → current_of (b.get s0 key) ≡ ok (current, version)
      → (b.put s key text (some version)).0 ≡ ok w
      → b.get s key ≡ ok (u, z)
      → current ≡ some u
  unfolding current_of
  seen_of l s0 s current version text w u z c r p g = elim (Result-cases (b.get s0 key)) [
    | inl ((t, y), found) ↦
        let same = l.put_checks s key text version w u z c p g in
        let e : y ≡ version = ground arith in
        let q = l.version_content s0 s key t u z c (ground arith) g in ground arith
    | inr (x, missing) ↦
        let same = l.put_checks s key text version w u z c p g in
        let named = l.version_named s key u z c g in
        let e : version ≡ must_not_exist = ground arith in absurd (named (ground arith))
  ]

  write_clean :
      (l : Versioned b) (s0 : S) (current : Option Text) (version t w : Text) (u v : Vault S)
      (again : Vault S → Result (Option (Text × Text)) × Vault S) (next : Result (Option Text))
      → is_canonical key ≡ true
      → current_of (b.get s0 key) ≡ ok (current, version)
      → change current ≡ next
      → write_change b change key next version u again ≡ (ok (some (t, w)), v)
      → ((x : Vault S) → again x ≡ (ok (some (t, w)), v) → IsCleanWrite v t w)
      → IsCleanWrite v t w
  unfolding write_change put_stored
  write_clean l s0 current version t w u v again (err x) c r e h ih = absurd (ground arith)
  write_clean l s0 current version t w u v again (ok none) c r e h ih = absurd (ground arith)
  write_clean l s0 current version t w u v again (ok (some text)) c r e h ih =
      let s = (interfere u).store in
      elim (settle_inv text t w (put_stored b key text (some version) u) again v h) [
        | inr (x, more) ↦ ih x more
        | inl (p, same, state) ↦
            rw (same, state)
              (record {
                before = s;
                current = current;
                expected = version;
                chosen = e;
                seen = λ y z g. seen_of l s0 s current version text w y z c r p g;
                written = unfold reindex in refl;
                stored = unfold reindex in l.put_stores s key text (some version) w c p;
                indexed =
                    unfold reindex in
                    get-put_self u.index key (record { text = text; version = w });
              })
      ]

  round_clean :
      (l : Versioned b) (s0 : S) (t w : Text) (u v : Vault S)
      (again : Vault S → Result (Option (Text × Text)) × Vault S) (r : Result (Option Text × Text))
      → is_canonical key ≡ true
      → current_of (b.get s0 key) ≡ r
      → round b change key r u again ≡ (ok (some (t, w)), v)
      → ((x : Vault S) → again x ≡ (ok (some (t, w)), v) → IsCleanWrite v t w)
      → IsCleanWrite v t w
  unfolding round
  round_clean l s0 t w u v again (err x) c r h ih = absurd (ground arith)
  round_clean l s0 t w u v again (ok (current, version)) c r h ih =
      write_clean l s0 current version t w u v again (change current) c r refl h ih

  loop_clean :
      (l : Versioned b) (rounds : ℕ) (t w : Text) (u v : Vault S)
      → is_canonical key ≡ true
      → rewrite_loop b change key rounds u ≡ (ok (some (t, w)), v)
      → IsCleanWrite v t w
  unfolding rewrite_loop
  loop_clean l zero t w u v c h = absurd (ground arith)
  loop_clean l (suc rounds) t w u v c h =
      let s0 = (interfere u).store in
      round_clean l s0 t w (interfere u) v (rewrite_loop b change key rounds)
        (current_of (b.get s0 key)) c refl h (λ x. loop_clean l rounds t w x v c)

  -- Whatever other writers do in between, a rewrite that reports a written text has lost no update.
  pub rewrite_clean :
      (l : Versioned b) (t w : Text) (u v : Vault S)
      → is_canonical key ≡ true
      → rewrite b change key u ≡ (ok (some (t, w)), v)
      → IsCleanWrite v t w
  unfolding rewrite
  rewrite_clean l t w u v c h = loop_clean l (suc rewrite_retries) t w u v c h

  -- A note at another key, or the same, that can be read.
  abbrev Holds : Vault S → Text → Text → Text → Type 0
  Holds v j text version = (v.env ≡ []) × (b.get v.store j ≡ ok (text, version))

  put_stored_refused :
      (l : Versioned b) (j text y z e : Text) (x : Error) (v : Vault S)
      → is_canonical key ≡ true
      → is_canonical j ≡ true
      → Holds v j y z
      → (put_stored b key text (some e) v).0 ≡ err x
      → Holds (put_stored b key text (some e) v).1 j y z
  unfolding put_stored
  put_stored_refused l j text y z e x v c cj (quiet, g) h =
      let q = interfere_quiet v quiet in
      (
        subst (λ (u : Vault S). u.env ≡ []) (sym q) quiet,
        l.put_refused (interfere v).store key j text (some e) x y z c cj h
            (subst (λ (u : Vault S). b.get u.store j ≡ ok (y, z)) (sym q) g),
      )

  -- From here on one note is followed; the rounds that come are `again`.
  module _ (l : Versioned b) (j y z : Text) (c : is_canonical key ≡ true)
      (cj : is_canonical j ≡ true) where
    settle_keeps :
        (text : Text) (x : Error) (p : Result Text × Vault S)
        (again : Vault S → Result (Option (Text × Text)) × Vault S)
        → ((a : Error) → p.0 ≡ err a → Holds p.1 j y z)
        → (settle b change key text p again).0 ≡ err x
        → ((u : Vault S) → Holds u j y z → (again u).0 ≡ err x → Holds (again u).1 j y z)
        → Holds (settle b change key text p again).1 j y z
    unfolding settle
    settle_keeps text x (ok w, u) again kept h ih = absurd (ground arith)
    settle_keeps text x (err a, u) again kept h ih = elim (Bool-cases (is_conflict a)) [
      | inl k ↦ rw k (ih u (kept a refl) (rw k at h))
      | inr k ↦ rw k (kept a refl)
    ]

    round_keeps :
        (x : Error) (v : Vault S) (r : Result (Option Text × Text))
        (again : Vault S → Result (Option (Text × Text)) × Vault S)
        → Holds v j y z
        → (round b change key r v again).0 ≡ err x
        → ((u : Vault S) → Holds u j y z → (again u).0 ≡ err x → Holds (again u).1 j y z)
        → Holds (round b change key r v again).1 j y z
    unfolding round
    round_keeps x v (err a) again g h ih = g
    round_keeps x v (ok (current, version)) again g h ih = change_keeps (change current) h
      where
        change_keeps :
            (next : Result (Option Text))
            → (write_change b change key next version v again).0 ≡ err x
            → Holds (write_change b change key next version v again).1 j y z
        change_keeps (err a) k = unfold write_change in g
        change_keeps (ok none) k = unfold write_change in g
        change_keeps (ok (some text)) k =
            unfold write_change in
            settle_keeps text x (put_stored b key text (some version) v) again
              (λ a p. put_stored_refused l j text y z version a v c cj g p) k ih

    loop_keeps :
        (rounds : ℕ) (x : Error) (v : Vault S)
        → Holds v j y z
        → (rewrite_loop b change key rounds v).0 ≡ err x
        → Holds (rewrite_loop b change key rounds v).1 j y z
    unfolding rewrite_loop
    loop_keeps zero x v g h = g
    loop_keeps (suc rounds) x v g h =
        let q = interfere_quiet v g.0 in
        round_keeps x (interfere v) (current_of (b.get (interfere v).store key))
          (rewrite_loop b change key rounds) (subst (λ (u : Vault S). Holds u j y z) (sym q) g) h
          (λ u k e. loop_keeps rounds x u k e)

    -- With nobody else at work, a rewrite that raises leaves every note that can be read as it is.
    pub rewrite_keeps :
        (x : Error) (v : Vault S)
        → v.env ≡ []
        → b.get v.store j ≡ ok (y, z)
        → (rewrite b change key v).0 ≡ err x
        → b.get (rewrite b change key v).1.store j ≡ ok (y, z)
    unfolding rewrite
    rewrite_keeps x v quiet g h = (loop_keeps (suc rewrite_retries) x v (quiet, g) h).1

  -- A change that always has a text to write is written, or raises.
  module _ (writes : (current : Option Text) → change current ≢ ok none) where
    settle-ne-none :
        (text : Text) (p : Result Text × Vault S) (v : Vault S)
        (again : Vault S → Result (Option (Text × Text)) × Vault S)
        → ((u : Vault S) → again u ≢ (ok none, v))
        → settle b change key text p again ≢ (ok none, v)
    unfolding settle
    settle-ne-none text (ok w, u) v again ih = cc
    settle-ne-none text (err a, u) v again ih = elim (Bool-cases (is_conflict a)) [
      | inl k ↦ rw k (ih u)
      | inr k ↦ rw k (cc)
    ]

    round-ne-none :
        (u v : Vault S) (r : Result (Option Text × Text))
        (again : Vault S → Result (Option (Text × Text)) × Vault S)
        → ((x : Vault S) → again x ≢ (ok none, v))
        → round b change key r u again ≢ (ok none, v)
    unfolding round
    round-ne-none u v (err a) again ih = cc
    round-ne-none u v (ok (current, version)) again ih =
        change-ne-none (change current) (writes current)
      where
        change-ne-none :
            (next : Result (Option Text))
            → next ≢ ok none
            → write_change b change key next version u again ≢ (ok none, v)
        change-ne-none (err a) ne = unfold write_change in cc
        change-ne-none (ok none) ne = absurd (ne refl)
        change-ne-none (ok (some text)) ne =
            unfold write_change in
            settle-ne-none text (put_stored b key text (some version) u) v again ih

    loop-ne-none : (rounds : ℕ) (u v : Vault S) → rewrite_loop b change key rounds u ≢ (ok none, v)
    unfolding rewrite_loop
    loop-ne-none zero u v = cc
    loop-ne-none (suc rounds) u v =
        round-ne-none (interfere u) v (current_of (b.get (interfere u).store key))
          (rewrite_loop b change key rounds) (λ x. loop-ne-none rounds x v)

    pub rewrite-ne-none : (u v : Vault S) → rewrite b change key u ≢ (ok none, v)
    unfolding rewrite
    rewrite-ne-none u v = loop-ne-none (suc rewrite_retries) u v
