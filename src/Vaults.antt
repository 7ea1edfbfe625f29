-- ===== src/Vaults.antt =====
-- `SubjectVaults` of mindin/vault.py: the table of open vaults, what is in use, and what is closed when
-- idle. `V` is a vault, opened by `_open_vault` outside the lock; a moment is a number of the clock.
-- Each function is what the code does under one hold of the lock.
pub mod Laws
use notes_vault_mcp.Prelude.{
  ℕ, zero, suc, ◌+◌, ◌==◌, Text, Bool, true, false, not, ◌&&◌, Option, none, some, List, [], ◌∷◌,
  keep, map, ltb, if◌then◌else◌,
}
use notes_vault_mcp.Prelude.Dict.{Dict}
use notes_vault_mcp.Prelude.Dict

pub record Table (V : Type 0) : Type 0 where
  pub opened : Dict (V × ℕ)
  pub in_use : Dict ℕ

abbrev pub or_zero : Option ℕ → ℕ
or_zero none = 0
or_zero (some n) = n

-- What requests do with the table, in any order. A vault is not discarded meanwhile.
pub data Event (V : Type 0) : Type 0 where
  enters : Text → Bool → ℕ → Event V
  admits : Text → V → Bool → ℕ → Event V
  leaves : Text → V → ℕ → Event V

module _ {V : Type 0} where
  -- self._in_use.get(key, 0)
  unfoldable pub uses : Table V → Text → ℕ
  unfolding Dict.get
  uses s key = or_zero (Dict.get s.in_use key)

  hold_on : Bool → Text → Table V → Table V
  unfolding uses Dict.put
  hold_on false key s = s
  hold_on true key s = record s { in_use = Dict.put s.in_use key (uses s key + 1) }

  take_found : Option (V × ℕ) → Text → Bool → ℕ → Table V → Option V × Table V
  unfolding hold_on Dict.put
  take_found none key hold now s = (none, s)
  take_found (some (v, last)) key hold now s =
      (some v, hold_on hold key (record s { opened = Dict.put s.opened key (v, now) }))

  unfoldable pub take : Text → Bool → ℕ → Table V → Option V × Table V
  unfolding take_found Dict.get
  take key hold now s = take_found (Dict.get s.opened key) key hold now s

  -- The vault has been opened, and is put into the table and taken.
  unfoldable pub admit : Text → V → Bool → ℕ → Table V → Option V × Table V
  unfolding take Dict.put
  admit key v hold now s = take key hold now (record s { opened = Dict.put s.opened key (v, now) })

  -- The end of `using_subject`. A count that is stored is never 0.
  leave_held : Option ℕ → Text → V → ℕ → Table V → Table V
  unfolding Dict.put Dict.remove
  leave_held none key v now s = s
  leave_held (some zero) key v now s = s
  leave_held (some (suc zero)) key v now s = record {
    opened = Dict.put s.opened key (v, now);
    in_use = Dict.remove s.in_use key;
  }
  leave_held (some (suc (suc n))) key v now s = record {
    opened = Dict.put s.opened key (v, now);
    in_use = Dict.put s.in_use key (suc n);
  }

  unfoldable pub leave : Text → V → ℕ → Table V → Table V
  unfolding leave_held Dict.get
  leave key v now s = leave_held (Dict.get s.in_use key) key v now s

  -- now - last_used > self.idle_seconds and not self._in_use.get(key)
  abbrev pub is_leaving : ℕ → ℕ → Table V → Text → ℕ → Bool
  is_leaving idle now s key last = ltb (last + idle) now && uses s key == 0

  staying : (Text → ℕ → Bool) → Dict (V × ℕ) → Dict (V × ℕ)
  staying idle_for [] = []
  staying idle_for ((key, (v, last)) ∷ d) =
      let rest = staying idle_for d in if idle_for key last then rest else (key, (v, last)) ∷ rest

  unfoldable pub evict : ℕ → ℕ → Table V → Table V
  unfolding staying uses
  evict idle now s = record s { opened = staying (is_leaving idle now s) s.opened }

  unfoldable pub step : ℕ → Event V → Table V → Table V
  unfolding take admit leave evict
  step idle (enters key hold now) s = (take key hold now (evict idle now s)).1
  step idle (admits key v hold now) s = (admit key v hold now s).1
  step idle (leaves key v now) s = leave key v now s

  unfoldable pub run : ℕ → List (Event V) → Table V → Table V
  unfolding step
  run idle [] s = s
  run idle (e ∷ events) s = run idle events (step idle e s)
