-- ===== src/Notes/FreeKey.antt =====
-- `_free_key` of mindin/notes.py: a name in a folder that no note has. The loop counts up from 2; the
-- fuel is one more than the names that are taken, which `free_key_total` shows to be enough.
use notes_vault_mcp.Prelude.{
  ℕ, suc, Text, codes, ◌≡◌, false, Option, none, some, List, ◌++◌, length, if◌then◌else◌, arith,
  Bool-cases, inl, inr,
}
use notes_vault_mcp.Prelude.Strings.{text_in, remove_suffix}
use notes_vault_mcp.Prelude.Decimal.{decimal, decimal_injective}
use notes_vault_mcp.Prelude.Pigeons.{first_free, first_free_total, first_free_sound}
use mathlib.Core.List.{append_cancel_left, append_cancel_right}

-- f"{folder}/{stem}-{suffix}.md"
unfoldable pub numbered : Text → Text → ℕ → Text
unfolding decimal
numbered folder stem suffix =
    (folder ++ (codes "/" ++ (stem ++ codes "-"))) ++ (decimal suffix ++ codes ".md")

plain : Text → Text → Text
plain folder stem = folder ++ (codes "/" ++ (stem ++ codes ".md"))

-- `taken` is every key of the listing, and what was lost to other writers.
unfoldable pub free_key : Text → Text → List Text → Option Text
unfolding first_free numbered plain remove_suffix text_in
free_key folder basename taken =
    let stem = remove_suffix basename (codes ".md") in
    if text_in (plain folder stem) taken
    then (elim (first_free (numbered folder stem) taken (suc (length taken)) 2) [
      | none ↦ none
      | some suffix ↦ some (numbered folder stem suffix)
    ])
    else some (plain folder stem)

numbered_injective :
    (folder stem : Text) (n m : ℕ) → numbered folder stem n ≡ numbered folder stem m → n ≡ m
unfolding numbered
numbered_injective folder stem n m h = decimal_injective n m (
    append_cancel_right (decimal n) (decimal m) (codes ".md")
      (append_cancel_left (folder ++ (codes "/" ++ (stem ++ codes "-"))) _ _ h))

-- The loop ends, and the name that it ends with is not taken.
pub free_key_total :
    (folder basename : Text) (taken : List Text)
    → (key : Text) × (free_key folder basename taken ≡ some key) × (text_in key taken ≡ false)
unfolding free_key
free_key_total folder basename taken =
    let stem = remove_suffix basename (codes ".md") in
    elim (Bool-cases (text_in (plain folder stem) taken)) [
      | inr e ↦ (plain folder stem, ground arith, e)
      | inl e ↦
          let (n, found) =
            first_free_total (numbered folder stem) (numbered_injective folder stem) taken
              (suc (length taken)) 2 (omega arith) in
          (
            numbered folder stem n,
            ground arith,
            (first_free_sound (numbered folder stem) taken (suc (length taken)) 2 n found).0,
          )
    ]
