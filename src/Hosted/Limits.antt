-- ===== src/Hosted/Limits.antt =====
-- `RateCounter` of mindin/auth/hosted_web.py: hits by scope, address and slot of a window's length. The
-- time is in whole units, and the weight of the slot before is compared after multiplying by the length
-- of the window.
pub mod Laws
use notes_vault_mcp.Prelude.{
  ℕ, zero, suc, ◌+◌, ◌-◌, ◌*◌, ◌/◌, ◌≤◌, ◌<◌, Text, text_eq, ◌≡◌, refl, sym, ap, ◌∙◌, Bool, true,
  false, not, ◌&&◌, Option, none, some, List, [], ◌∷◌, keep, leb, ltb, ◌==◌, if◌then◌else◌, arith,
  Bool-cases, inl, inr,
}

-- A row of rate_limit_hits; the address is hashed.
pub record Row : Type 0 where
  pub scope : Text
  pub address : Text
  pub slot : ℕ
  pub hits : ℕ

abbrev pub is_row : Text → Text → ℕ → Row → Bool
is_row scope address slot r = text_eq r.scope scope && text_eq r.address address && (r.slot == slot)

-- counted.get(slot, 0)
unfoldable pub counted : List Row → Text → Text → ℕ → ℕ
unfolding text_eq
counted [] scope address slot = 0
counted (r ∷ rows) scope address slot =
    if is_row scope address slot r then r.hits else counted rows scope address slot

-- ON CONFLICT (scope, address, slot) DO UPDATE SET hits = hits + 1
unfoldable pub count_hit : List Row → Text → Text → ℕ → List Row
unfolding text_eq
count_hit [] scope address slot =
    record { scope = scope; address = address; slot = slot; hits = 1 } ∷ []
count_hit (r ∷ rows) scope address slot =
    if is_row scope address slot r
    then record r { hits = suc r.hits } ∷ rows
    else r ∷ count_hit rows scope address slot

-- The hits of the slot before count by the share of the window that is still in it.
is_full : List Row → Text → Text → ℕ → ℕ → ℕ → Bool
unfolding counted
is_full rows scope address limit seconds moment =
    let slot = moment / seconds in
    let earlier = if slot == 0 then 0 else counted rows scope address (slot - 1) in
    leb (limit * seconds)
      (earlier * (seconds - (moment - slot * seconds)) + counted rows scope address slot * seconds)

unfoldable pub hit : Text → Text → ℕ → ℕ → ℕ → List Row → Bool × List Row
unfolding is_full count_hit
hit scope address limit seconds moment rows =
    if is_full rows scope address limit seconds moment
    then (false, rows)
    else (true, count_hit rows scope address (moment / seconds))

unfoldable pub forget_before : Text → ℕ → List Row → List Row
unfolding text_eq
forget_before scope slot rows =
    keep (λ (r : Row). not (text_eq r.scope scope && ltb r.slot slot)) rows
