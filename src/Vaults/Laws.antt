-- ===== src/Vaults/Laws.antt =====
-- A vault that is in use stays in the table of open vaults.
use notes_vault_mcp.Prelude.{
  ℕ, zero, suc, ◌+◌, ◌<◌, Text, text_eq, text_eq_iff, ◌≡◌, refl, Bool, true, false, Option, none,
  some, List, [], ◌∷◌, arith, if◌then◌else◌, Option-cases, Bool-cases, subst, inl, inr, ap, ◌∙◌,
}
use notes_vault_mcp.Prelude.Dict.{Dict, get-put, get-put_self, get-remove}
use notes_vault_mcp.Prelude.Dict
use notes_vault_mcp.Vaults.{
  Table, uses, hold_on, take_found, take, admit, leave_held, leave, is_leaving, staying, evict,
  Event, enters, admits, leaves, step, run,
}

module _ {V : Type 0} where
  get-staying :
      (p : Text → ℕ → Bool) (key : Text) (v : V) (last : ℕ) (d : Dict (V × ℕ))
      → p key last ≡ false
      → Dict.get d key ≡ some (v, last)
      → Dict.get (staying p d) key ≡ some (v, last)
  unfolding Dict.get staying
  get-staying p key v last [] h g = g
  get-staying p key v last ((k, (w, l)) ∷ d) h g =
      ground (arith, get-staying p key v last d h, text_eq_iff k key)

  not_leaving :
      (idle now : ℕ) (s : Table V) (key : Text) (last : ℕ)
      → 0 < uses s key
      → is_leaving idle now s key last ≡ false
  not_leaving idle now s key last u = ground arith

  -- What is in use is not evicted, however long it has not been asked for.
  pub evict_keeps :
      (idle now : ℕ) (s : Table V) (key : Text) (v : V) (last : ℕ)
      → 0 < uses s key
      → Dict.get s.opened key ≡ some (v, last)
      → Dict.get (evict idle now s).opened key ≡ some (v, last)
  unfolding evict
  evict_keeps idle now s key v last u g =
      get-staying (is_leaving idle now s) key v last s.opened (not_leaving idle now s key last u) g

  -- Every vault that is in use is in the table.
  abbrev pub IsSound : Table V → Type 0
  IsSound s = (k : Text) → 0 < uses s k → Dict.has_key s.opened k ≡ true

  has_key-put :
      (d : Dict (V × ℕ)) (k j : Text) (e : V × ℕ)
      → Dict.has_key (Dict.put d k e) j ≡ (if text_eq k j then true else Dict.has_key d j)
  unfolding Dict.has_key
  has_key-put d k j e = ground (arith, get-put d k j e)

  has_key_of :
      (d : Dict (V × ℕ)) (k : Text) (e : V × ℕ) → Dict.get d k ≡ some e → Dict.has_key d k ≡ true
  unfolding Dict.has_key
  has_key_of d k e g = ground arith

  get_of :
      (d : Dict (V × ℕ)) (k : Text)
      → Dict.has_key d k ≡ true
      → (e : V × ℕ) × (Dict.get d k ≡ some e)
  unfolding Dict.has_key
  get_of d k h = elim (Option-cases (Dict.get d k)) [
    | inl none_there ↦ absurd (ground arith)
    | inr found ↦ found
  ]

  held-IsSound :
      (key k : Text) (s : Table V)
      → IsSound s
      → Dict.has_key s.opened key ≡ true
      → 0 < uses (hold_on true key s) k
      → Dict.has_key s.opened k ≡ true
  unfolding hold_on uses
  held-IsSound key k s h o u = elim (Bool-cases (text_eq key k)) [
    | inl e ↦ subst (λ j. Dict.has_key s.opened j ≡ true) ((text_eq_iff key k).0 e) o
    | inr e ↦ h k (ground (arith, get-put s.in_use key k (uses s key + 1)))
  ]

  hold_on-opened : (hold : Bool) (key : Text) (s : Table V) → (hold_on hold key s).opened ≡ s.opened
  unfolding hold_on
  hold_on-opened true key s = refl
  hold_on-opened false key s = refl

  hold_on-IsSound :
      (hold : Bool) (key : Text) (s : Table V)
      → IsSound s
      → Dict.has_key s.opened key ≡ true
      → IsSound (hold_on hold key s)
  hold_on-IsSound true key s h o =
      λ k u. rw (hold_on-opened true key s) (held-IsSound key k s h o u)
  hold_on-IsSound false key s h o = unfold hold_on in h

  evict-IsSound : (idle now : ℕ) (s : Table V) → IsSound s → IsSound (evict idle now s)
  evict-IsSound idle now s h = λ k u.
      let busy : 0 < uses s k = unfold evict uses in u in
      let ((v, last), g) = get_of s.opened k (h k busy) in
      has_key_of (evict idle now s).opened k (v, last) (evict_keeps idle now s k v last busy g)

  open-IsSound :
      (key : Text) (e : V × ℕ) (s : Table V)
      → IsSound s
      → IsSound (record s { opened = Dict.put s.opened key e })
  open-IsSound key e s h =
      λ k u. let o = h k (unfold uses in u) in ground (arith, has_key-put s.opened key k e)

  found-IsSound :
      (found : Option (V × ℕ)) (key : Text) (hold : Bool) (now : ℕ) (s : Table V)
      → IsSound s
      → IsSound (take_found found key hold now s).1
  unfolding take_found
  found-IsSound none key hold now s h = h
  found-IsSound (some (v, last)) key hold now s h =
      hold_on-IsSound hold key (record s { opened = Dict.put s.opened key (v, now) })
        (open-IsSound key (v, now) s h)
        (has_key_of (Dict.put s.opened key (v, now)) key (v, now)
          (get-put_self s.opened key (v, now)))

  take-IsSound :
      (key : Text) (hold : Bool) (now : ℕ) (s : Table V)
      → IsSound s
      → IsSound (take key hold now s).1
  unfolding take
  take-IsSound key hold now s h = found-IsSound (Dict.get s.opened key) key hold now s h

  left-IsSound :
      (held : Option ℕ) (key : Text) (v : V) (now : ℕ) (s : Table V)
      → Dict.get s.in_use key ≡ held
      → IsSound s
      → IsSound (leave_held held key v now s)
  unfolding leave_held uses
  left-IsSound none key v now s g h = h
  left-IsSound (some zero) key v now s g h = h
  left-IsSound (some (suc zero)) key v now s g h = λ k u. elim (Bool-cases (text_eq key k)) [
    | inl e ↦ absurd (ground (arith, get-remove s.in_use key k))
    | inr e ↦
        let o = h k (ground (arith, get-remove s.in_use key k)) in
        ground (arith, has_key-put s.opened key k (v, now))
  ]
  left-IsSound (some (suc (suc n))) key v now s g h = λ k u. elim (Bool-cases (text_eq key k)) [
    | inl e ↦ ground (arith, has_key-put s.opened key k (v, now))
    | inr e ↦
        let o = h k (ground (arith, get-put s.in_use key k (suc n))) in
        ground (arith, has_key-put s.opened key k (v, now))
  ]

  step-IsSound : (idle : ℕ) (e : Event V) (s : Table V) → IsSound s → IsSound (step idle e s)
  unfolding step admit leave
  step-IsSound idle (enters key hold now) s h =
      take-IsSound key hold now (evict idle now s) (evict-IsSound idle now s h)
  step-IsSound idle (admits key v hold now) s h =
      take-IsSound key hold now (record s { opened = Dict.put s.opened key (v, now) })
        (open-IsSound key (v, now) s h)
  step-IsSound idle (leaves key v now) s h = left-IsSound (Dict.get s.in_use key) key v now s refl h

  -- Whatever requests come, in whatever order, every vault that is in use stays in the table.
  pub run-IsSound :
      (idle : ℕ) (events : List (Event V)) (s : Table V) → IsSound s → IsSound (run idle events s)
  unfolding run
  run-IsSound idle [] s h = h
  run-IsSound idle (e ∷ events) s h =
      run-IsSound idle events (step idle e s) (step-IsSound idle e s h)

  uses-leave_held :
      (n : ℕ) (key j : Text) (w : V) (later : ℕ) (t : Table V)
      → uses (leave_held (some (suc n)) key w later t) j ≡ (if text_eq key j then n else uses t j)
  unfolding leave_held uses
  uses-leave_held zero key j w later t = ground (arith, get-remove t.in_use key j)
  uses-leave_held (suc n) key j w later t = ground (arith, get-put t.in_use key j (suc n))

  uses-hold_on :
      (key j : Text) (t : Table V)
      → uses (hold_on true key t) j ≡ (if text_eq key j then suc (uses t key) else uses t j)
  unfolding hold_on uses
  uses-hold_on key j t = ground (arith, get-put t.in_use key j (uses t key + 1))

  get-hold_on :
      (key : Text) (t : Table V)
      → Dict.get (hold_on true key t).in_use key ≡ some (suc (uses t key))
  unfolding hold_on
  get-hold_on key t = ground (arith, get-put_self t.in_use key (uses t key + 1))

  leave-hold_on :
      (key j : Text) (w : V) (later : ℕ) (t : Table V)
      → uses (leave key w later (hold_on true key t)) j ≡ uses t j
  unfolding leave
  leave-hold_on key j w later t =
      ap (λ held. uses (leave_held held key w later (hold_on true key t)) j) (get-hold_on key t)
      ∙ uses-leave_held (uses t key) key j w later (hold_on true key t)
      ∙ ground (arith, uses-hold_on key j t, text_eq_iff key j)

  take-open :
      (key : Text) (v : V) (last now : ℕ) (s : Table V)
      → Dict.get s.opened key ≡ some (v, last)
      → (take key true now s).1
        ≡ hold_on true key (record s { opened = Dict.put s.opened key (v, now) })
  unfolding take take_found
  take-open key v last now s g = rw g

  -- A use that ends leaves every count as it was before it began.
  pub leave-take :
      (key j : Text) (v : V) (last now later : ℕ) (s : Table V)
      → Dict.get s.opened key ≡ some (v, last)
      → uses (leave key v later (take key true now s).1) j ≡ uses s j
  leave-take key j v last now later s g =
      ap (λ t. uses (leave key v later t) j) (take-open key v last now s g)
      ∙ leave-hold_on key j v later (record s { opened = Dict.put s.opened key (v, now) })
      ∙ (unfold uses in refl)
