-- ===== src/Hosted/Limits/Laws.antt =====
-- How many hits an address gets through in a slot.
use native.Mathlib.Nat.{mul-le-mul_right}
use notes_vault_mcp.Prelude.{
  ℕ, suc, ◌+◌, ◌/◌, ◌≤◌, ◌<◌, Text, text_eq, text_eq_iff, text_eq_refl, ◌≡◌, refl, sym, ◌∙◌, subst,
  true, false, ◌&&◌, List, [], ◌∷◌, leb, ◌==◌, if◌then◌else◌, arith, Bool-cases, inl, inr,
}
use notes_vault_mcp.Hosted.Limits.{Row, is_row, counted, count_hit, is_full, hit}

counted-count_hit :
    (rows : List Row) (scope address : Text) (slot : ℕ)
    → counted (count_hit rows scope address slot) scope address slot
      ≡ suc (counted rows scope address slot)
unfolding counted count_hit
counted-count_hit [] scope address slot =
    rw (text_eq_refl scope, text_eq_refl address) (ground arith)
counted-count_hit (r ∷ rows) scope address slot = elim (Bool-cases (is_row scope address slot r)) [
  | inl e ↦ rw (e, e) refl
  | inr e ↦ rw (e, e) (counted-count_hit rows scope address slot)
]

-- A hit in another place leaves a count as it was.
counted-count_hit_other :
    (rows : List Row) (scope other address : Text) (at slot : ℕ)
    → (text_eq other address && (at == slot)) ≡ false
    → counted (count_hit rows scope other at) scope address slot ≡ counted rows scope address slot
unfolding counted count_hit
counted-count_hit_other [] scope other address at slot n = rw (text_eq_refl scope) (ground arith)
counted-count_hit_other (r ∷ rows) scope other address at slot n =
    elim (Bool-cases (is_row scope other at r)) [
      | inl e ↦
          let elsewhere : is_row scope address slot r ≡ false =
            elim (Bool-cases (is_row scope address slot r)) [
              | inl f ↦
                  let a : r.address ≡ other = (text_eq_iff r.address other).0 (ground arith) in
                  let b : r.address ≡ address = (text_eq_iff r.address address).0 (ground arith) in
                  let same : text_eq other address ≡ true =
                    (text_eq_iff other address).1 (sym a ∙ b) in
                  absurd (ground arith)
              | inr f ↦ f
            ] in
          rw (e, elsewhere) refl
      | inr e ↦ rw e (elim (Bool-cases (is_row scope address slot r)) [
        | inl f ↦ rw f refl
        | inr f ↦ rw f (counted-count_hit_other rows scope other address at slot n)
      ])
    ]

module _ (scope : Text) (limit seconds : ℕ) where
  -- A hit that gets through finds fewer than the limit in its slot.
  room :
      (rows : List Row) (address : Text) (moment : ℕ)
      → is_full rows scope address limit seconds moment ≡ false
      → counted rows scope address (moment / seconds) < limit
  unfolding is_full
  room rows address moment h =
      elim (Bool-cases (leb limit (counted rows scope address (moment / seconds)))) [
        | inl e ↦
            let more : limit ≤ counted rows scope address (moment / seconds) = ground arith in
            let times = mul-le-mul_right seconds more in absurd (ground arith)
        | inr e ↦ ground arith
      ]

  -- How many of a sequence of hits, each with its address and moment, an address gets through in a slot.
  unfoldable pub let_through : Text → ℕ → List (Text × ℕ) → List Row → ℕ
  unfolding hit text_eq
  let_through address slot [] rows = 0
  let_through address slot ((other, moment) ∷ hits) rows =
      let (through, more) = hit scope other limit seconds moment rows in
      let rest = let_through address slot hits more in
      if through && (text_eq other address && (moment / seconds == slot)) then suc rest else rest

  through_fits :
      (address : Text) (slot : ℕ) (hits : List (Text × ℕ)) (rows : List Row)
      → counted rows scope address slot ≤ limit
      → let_through address slot hits rows + counted rows scope address slot ≤ limit
  unfolding let_through hit
  through_fits address slot [] rows h = omega (arith, h)
  through_fits address slot ((other, moment) ∷ hits) rows h =
      elim (Bool-cases (is_full rows scope other limit seconds moment)) [
        | inl e ↦ rw e (through_fits address slot hits rows h)
        | inr e ↦
            let next = count_hit rows scope other (moment / seconds) in
            let free = room rows other moment e in
            elim (Bool-cases (text_eq other address && (moment / seconds == slot))) [
              | inl f ↦
                  let who : other ≡ address = (text_eq_iff other address).0 (ground arith) in
                  let when : moment / seconds ≡ slot = ground arith in
                  let more : counted next scope address slot
                      ≡ suc (counted rows scope address slot) =
                    rw (who, when) (counted-count_hit rows scope address slot) in
                  let few : counted rows scope address slot < limit =
                    subst (λ t. counted rows scope address t < limit) when
                      (subst (λ a. counted rows scope a (moment / seconds) < limit) who free) in
                  let ih = through_fits address slot hits next (omega (arith, more, few)) in
                  rw (e, f) (omega (arith, ih, more))
              | inr f ↦
                  let same =
                    counted-count_hit_other rows scope other address (moment / seconds) slot f in
                  let ih = through_fits address slot hits next (omega (arith, same, h)) in
                  rw (e, f) (omega (arith, ih, same))
            ]
      ]

  -- Of any sequence of hits, of any addresses at any moments, no more than the limit of one address get
  -- through in one slot, when the table is empty at first.
  pub let_through_fits :
      (address : Text) (slot : ℕ) (hits : List (Text × ℕ))
      → let_through address slot hits [] ≤ limit
  unfolding counted
  let_through_fits address slot hits =
      let ih = through_fits address slot hits [] (omega arith) in omega (arith, ih)
