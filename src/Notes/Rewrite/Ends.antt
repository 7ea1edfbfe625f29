-- ===== src/Notes/Rewrite/Ends.antt =====
-- Four rounds of `rewrite` are enough for as many as six changes of other writers.
use notes_vault_mcp.Prelude.{
  ℕ, zero, suc, ◌+◌, ◌-◌, ◌≤◌, Text, Result, ok, err, Error, version_conflict, is_not_found, ◌≡◌,
  ◌≢◌, refl, ap, ◌∙◌, subst, ◌⊎◌, inl, inr, false, Bool-cases, Result-cases, Option, none, some,
  List, [], ◌∷◌, length, arith, All,
}
use notes_vault_mcp.Backends.{Backend}
use notes_vault_mcp.Notes.Vault.{Vault, put_stored, read_stored, interfere, interfere_quiet}
use notes_vault_mcp.Notes.Rewrite.{
  current_of, is_conflict, settle, write_change, round, rewrite_loop, rewrite, rewrite_retries,
}

module _ {S : Type 0} (b : Backend S) (change : Option Text → Result (Option Text))
    (key : Text) where
  -- In the states of a kind, a conflict is raised by nothing but a put over a version that is not there,
  -- and a put that fails leads to no state of another kind.
  pub record IsCalm (P : S → Type 0) : Type 0 where
    pub reads : (s : S) (x : Error) → P s → b.get s key ≡ err x → is_conflict x ≡ false
    pub chooses :
        (current : Option Text) (x : Error) → change current ≡ err x → is_conflict x ≡ false
    pub puts :
        (s : S) (current : Option Text) (version text : Text) (x : Error)
        → P s
        → current_of (b.get s key) ≡ ok (current, version)
        → (b.put s key text (some version)).0 ≡ err x
        → is_conflict x ≡ false
    pub stays :
        (s : S) (version text : Text) (x : Error)
        → P s
        → (b.put s key text (some version)).0 ≡ err x
        → P (b.put s key text (some version)).1

  -- The storage is in a state of the kind, and no other writer leads it out of the kind.
  pub record IsSteady (P : S → Type 0) (v : Vault S) : Type 0 where
    pub now : P v.store
    pub others : All (λ (f : S → S). (s : S) → P s → P (f s)) v.env

  module _ (P : S → Type 0) where
    IsSteady-of :
        (env : List (S → S)) (v : Vault S)
        → v.env ≡ env
        → P v.store
        → All (λ (f : S → S). (s : S) → P s → P (f s)) env
        → IsSteady P (interfere v)
    unfolding interfere
    IsSteady-of [] v e p h = record { now = rw e p; others = rw e tt }
    IsSteady-of (f ∷ env) v e p (hf, h) = record { now = rw e (hf v.store p); others = rw e h }

    interfere-IsSteady : (v : Vault S) → IsSteady P v → IsSteady P (interfere v)
    interfere-IsSteady v h = IsSteady-of v.env v refl h.now h.others

  env_shrinks_of :
      (env : List (S → S)) (v : Vault S) → v.env ≡ env → length (interfere v).env ≡ length v.env - 1
  unfolding interfere
  env_shrinks_of [] v e = ground arith
  env_shrinks_of (f ∷ env) v e = ground arith

  env_shrinks : (v : Vault S) → length (interfere v).env ≡ length v.env - 1
  env_shrinks v = env_shrinks_of v.env v refl

  module _ (P : S → Type 0) where
    read_calm :
        IsCalm P
        → (s : S) (x : Error) → P s
        → current_of (b.get s key) ≡ err x
        → is_conflict x ≡ false
    unfolding current_of
    read_calm k s x p h = elim (Result-cases (b.get s key)) [
      | inl ((t, y), found) ↦ absurd (ground arith)
      | inr (y, missing) ↦ elim (Bool-cases (is_not_found y)) [
        | inl e ↦ absurd (ground arith)
        | inr e ↦ k.reads s x p (missing ∙ ground arith)
      ]
    ]

    abbrev Written : Type 0
    Written = Result (Option (Text × Text)) × Vault S

    -- A round ends without a conflict, or somebody changed something between its two calls.
    abbrev Outcome : Error → Vault S → Vault S → (Vault S → Written) → Type 0
    Outcome x w v again =
        (is_conflict x ≡ false)
        ⊎ ((u : Vault S) × IsSteady P u
            × (length u.env ≡ length v.env - 1)
            × (v.env ≢ [])
            × (again u ≡ (err x, w)))

    settle-Outcome :
        (text : Text) (r : Result Text) (s : S) (v w : Vault S) (again : Vault S → Written)
        (x : Error)
        → IsSteady P v
        → ((y : Error) → r ≡ err y → P s)
        → (v.env ≡ [] → (y : Error) → r ≡ err y → is_conflict y ≡ false)
        → settle b change key text (r, record (interfere v) { store = s }) again ≡ (err x, w)
        → Outcome x w v again
    unfolding settle
    settle-Outcome text (ok version) s v w again x steady stays calm h = absurd (ground arith)
    settle-Outcome text (err y) s v w again x steady stays calm h =
        elim (Bool-cases (is_conflict y)) [
          | inl e ↦ inr (
            record (interfere v) { store = s },
            record { now = stays y refl; others = (interfere-IsSteady P v steady).others },
            env_shrinks v,
            (λ quiet. let no = calm quiet y refl in absurd (ground arith)),
            ground arith,
          )
          | inr e ↦
              let same : y ≡ x = ground arith in inl (subst (λ z. is_conflict z ≡ false) same e)
        ]

    change-Outcome :
        (k : IsCalm P) (current : Option Text) (version : Text) (v w : Vault S)
        (again : Vault S → Written) (x : Error) (next : Result (Option Text))
        → IsSteady P v
        → current_of (b.get v.store key) ≡ ok (current, version)
        → change current ≡ next
        → write_change b change key next version v again ≡ (err x, w)
        → Outcome x w v again
    unfolding write_change put_stored
    change-Outcome k current version v w again x (err y) steady c q h =
        let same : y ≡ x = ground arith in
        inl (subst (λ z. is_conflict z ≡ false) same (k.chooses current y q))
    change-Outcome k current version v w again x (ok none) steady c q h = absurd (ground arith)
    change-Outcome k current version v w again x (ok (some text)) steady c q h =
        settle-Outcome text (b.put (interfere v).store key text (some version)).0
          (b.put (interfere v).store key text (some version)).1 v w again x steady
          (λ y p. k.stays (interfere v).store version text y (interfere-IsSteady P v steady).now p)
          (λ quiet y p. k.puts v.store current version text y steady.now c (
            subst (λ (u : Vault S). (b.put u.store key text (some version)).0 ≡ err y)
              (interfere_quiet v quiet) p))
          h

    round-Outcome :
        (k : IsCalm P) (v w : Vault S) (again : Vault S → Written) (x : Error)
        (r : Result (Option Text × Text))
        → IsSteady P v
        → current_of (b.get v.store key) ≡ r
        → round b change key r v again ≡ (err x, w)
        → Outcome x w v again
    unfolding round
    round-Outcome k v w again x (err y) steady c h =
        let same : y ≡ x = ground arith in
        inl (subst (λ z. is_conflict z ≡ false) same (read_calm k v.store y steady.now c))
    round-Outcome k v w again x (ok (current, version)) steady c h =
        change-Outcome k current version v w again x (change current) steady c refl h

    nil_of_length : (env : List (S → S)) → length env ≤ 0 → env ≡ []
    nil_of_length [] h = refl
    nil_of_length (f ∷ env) h = absurd (omega arith)

    loop-Outcome :
        (k : IsCalm P) (n : ℕ) (v w : Vault S) (x : Error)
        → IsSteady P v
        → rewrite_loop b change key (suc n) v ≡ (err x, w)
        → Outcome x w (interfere v) (rewrite_loop b change key n)
    unfolding rewrite_loop read_stored
    loop-Outcome k n v w x steady h =
        round-Outcome k (interfere v) w (rewrite_loop b change key n) x
          (current_of (b.get (interfere v).store key)) (interfere-IsSteady P v steady) refl h

    loop_ends :
        (k : IsCalm P) (n : ℕ) (v w : Vault S) (x : Error)
        → IsSteady P v
        → length v.env ≤ n + n
        → rewrite_loop b change key (suc n) v ≡ (err x, w)
        → is_conflict x ≡ false
    loop_ends k zero v w x steady l h =
        let few = env_shrinks v in
        elim (loop-Outcome k zero v w x steady h) [
          | inl calm ↦ calm
          | inr (u, still, shorter, busy, more) ↦
              absurd (busy (nil_of_length (interfere v).env (omega arith)))
        ]
    loop_ends k (suc n) v w x steady l h =
        let few = env_shrinks v in
        elim (loop-Outcome k (suc n) v w x steady h) [
          | inl calm ↦ calm
          | inr (u, still, shorter, busy, more) ↦ loop_ends k n u w x still (omega arith) more
        ]

    -- Where, in the states of a kind in which the storage is and in which other writers leave it, nothing
    -- but a put over a version that is not there is refused as a conflict, and other writers change the
    -- storage no more than six times while it runs, a rewrite does not end in a conflict.
    pub rewrite_ends :
        (v : Vault S)
        → IsCalm P
        → IsSteady P v
        → length v.env ≤ rewrite_retries + rewrite_retries
        → (rewrite b change key v).0 ≢ err version_conflict
    unfolding rewrite is_conflict
    rewrite_ends v k steady l h =
        let w = (rewrite b change key v).1 in
        let no = loop_ends k rewrite_retries v w version_conflict steady l (ap (λ r. (r, w)) h) in
        absurd (ground arith)
