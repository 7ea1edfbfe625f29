-- ===== src/Notes/Listed/Laws.antt =====
-- What the backlog shows, and in which order.
use notes_vault_mcp.Prelude.{
  ℕ, suc, ◌≤◌, Text, ◌≡◌, refl, Bool, true, Option, List, [], ◌∷◌, All, keep, length, arith,
  Bool-cases, inl, inr,
}
use notes_vault_mcp.Schema.{Schema}
use notes_vault_mcp.Notes.Listed.{
  Note, insert_by, sort_by, is_newer, is_pressing, priority_rank, on_backlog, backlog,
}

module _ {κ} (before : Note → Note → Bool) (P : Note → Type κ) where
  All-insert_by :
      (n : Note) (notes : List Note) → P n → All P notes → All P (insert_by before n notes)
  unfolding insert_by
  All-insert_by n [] p h = (p, tt)
  All-insert_by n (m ∷ notes) p (q, h) = elim (Bool-cases (before m n)) [
    | inl e ↦ rw e (q, All-insert_by n notes p h)
    | inr e ↦ rw e (p, (q, h))
  ]

  All-sort_by : (notes : List Note) → All P notes → All P (sort_by before notes)
  unfolding sort_by
  All-sort_by [] h = tt
  All-sort_by (n ∷ notes) (p, h) = All-insert_by n (sort_by before notes) p (All-sort_by notes h)

All-keep : (p : Note → Bool) (notes : List Note) → All (λ n. p n ≡ true) (keep p notes)
All-keep p [] = tt
All-keep p (n ∷ notes) = elim (Bool-cases (p n)) [
  | inl e ↦ rw e (e, All-keep p notes)
  | inr e ↦ rw e (All-keep p notes)
]

length-insert_by :
    (before : Note → Note → Bool) (n : Note) (notes : List Note)
    → length (insert_by before n notes) ≡ suc (length notes)
unfolding insert_by
length-insert_by before n [] = refl
length-insert_by before n (m ∷ notes) = ground (arith, length-insert_by before n notes)

length-sort_by :
    (before : Note → Note → Bool) (notes : List Note) → length (sort_by before notes) ≡ length notes
unfolding sort_by
length-sort_by before [] = refl
length-sort_by before (n ∷ notes) =
    omega (arith, length-insert_by before n (sort_by before notes), length-sort_by before notes)

-- Nothing that is more pressing stands behind a note.
abbrev pub IsRanked : List Note → Type 0
IsRanked [] = Unit
IsRanked (n ∷ notes) =
    All (λ m. priority_rank n.priority ≤ priority_rank m.priority) notes × IsRanked notes

All-le :
    (k j : ℕ) (notes : List Note)
    → k ≤ j
    → All (λ (m : Note). j ≤ priority_rank m.priority) notes
    → All (λ (m : Note). k ≤ priority_rank m.priority) notes
All-le k j [] l h = tt
All-le k j (m ∷ notes) l (q, h) = (omega arith, All-le k j notes l h)

insert_by-IsRanked :
    (n : Note) (notes : List Note) → IsRanked notes → IsRanked (insert_by is_pressing n notes)
unfolding insert_by
insert_by-IsRanked n [] h = (tt, tt)
insert_by-IsRanked n (m ∷ notes) (q, h) = elim (Bool-cases (is_pressing m n)) [
  | inl e ↦ rw e (
    All-insert_by is_pressing (λ (k : Note). priority_rank m.priority ≤ priority_rank k.priority) n
        notes (ground arith) q,
    insert_by-IsRanked n notes h,
  )
  | inr e ↦
      let l : priority_rank n.priority ≤ priority_rank m.priority = ground arith in
      rw e ((l, All-le (priority_rank n.priority) (priority_rank m.priority) notes l q), (q, h))
]

sort_by-IsRanked : (notes : List Note) → IsRanked (sort_by is_pressing notes)
unfolding sort_by
sort_by-IsRanked [] = tt
sort_by-IsRanked (n ∷ notes) =
    insert_by-IsRanked n (sort_by is_pressing notes) (sort_by-IsRanked notes)

-- The backlog holds only notes that belong on it, as many as there are, and no note stands in front
-- of a more pressing one.
pub backlog_lem :
    (schema : Schema) (notes : List Note) (area priority : Option Text)
    → IsRanked (backlog schema notes area priority)
      × All (λ n. on_backlog schema area priority n ≡ true) (backlog schema notes area priority)
      × (length (backlog schema notes area priority)
          ≡ length (keep (on_backlog schema area priority) notes))
unfolding backlog
backlog_lem schema notes area priority =
    let rows = keep (on_backlog schema area priority) notes in
    (
      sort_by-IsRanked (sort_by is_newer rows),
      All-sort_by is_pressing (λ n. on_backlog schema area priority n ≡ true)
          (sort_by is_newer rows)
          (All-sort_by is_newer (λ n. on_backlog schema area priority n ≡ true) rows
            (All-keep (on_backlog schema area priority) notes)),
      omega
          (arith, length-sort_by is_pressing (sort_by is_newer rows), length-sort_by is_newer rows),
    )
