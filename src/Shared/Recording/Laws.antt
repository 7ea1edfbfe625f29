-- ===== src/Shared/Recording/Laws.antt =====
-- The record of a shared vault holds exactly the writes that went through.
use notes_vault_mcp.Prelude.{
  Text, text_eq_iff, text_eq, Result, ok, err, Error, is_not_found, Result-cases, Bool-cases, ◌≡◌,
  ◌≢◌, ◌⊎◌, inl, inr, refl, ap, ◌∙◌, true, false, Option, none, some, List, ◌∷◌, arith,
}
use notes_vault_mcp.Backends.{Backend}
use notes_vault_mcp.Frontmatter.{Yaml}
use notes_vault_mcp.Shared.{recorded, check_write}
use notes_vault_mcp.Shared.Recording.{
  Shared, Entry, created, updated, is_new, previous_of, previous, put_done, put_over, put_checked,
}

module _ {S : Type 0} (inner : Backend S) (yaml : Yaml) (decode : Text → Option Text)
    (actor : Text) where
  -- The record after a write of a content at a key has gone through.
  pub data IsRecorded (key content : Text) (s : S) (log : List Entry) : List Entry → Type 0 where
    unrecorded : recorded key ≡ false → IsRecorded key content s log log
    made :
        (x : Error)
        → recorded key ≡ true
        → inner.get s key ≡ err x
        → is_not_found x ≡ true
        → IsRecorded key content s log (
            record {
              actor = actor;
              action = created;
              path = key;
              before = none;
              after = some content;
              from_path = none;
            }
            ∷ log)
    changed :
        (old version : Text)
        → recorded key ≡ true
        → inner.get s key ≡ ok (old, version)
        → old ≢ content
        → IsRecorded key content s log (
            record {
              actor = actor;
              action = updated;
              path = key;
              before = some old;
              after = some content;
              from_path = none;
            }
            ∷ log)
    unchanged :
        (version : Text)
        → recorded key ≡ true
        → inner.get s key ≡ ok (content, version)
        → IsRecorded key content s log log

  -- What comes of a checked put: it is refused before the storage is asked to write, or the storage
  -- fails, or it goes through.
  pub data IsPut (key content : Text) (expected : Option Text) (v : Shared S)
      : Result Text → Shared S → Type 0 where
    refused :
        (x : Error)
        → (check_write yaml key (decode content) ≡ err x) ⊎ (inner.get v.store key ≡ err x)
        → IsPut key content expected v (err x) v
    failed :
        (x : Error) (s : S)
        → inner.put v.store key content expected ≡ (err x, s)
        → IsPut key content expected v (err x) (record { store = s; record_of = v.record_of })
    stored :
        (w : Text) (s : S) (log : List Entry)
        → check_write yaml key (decode content) ≡ ok tt
        → inner.put v.store key content expected ≡ (ok w, s)
        → IsRecorded key content v.store v.record_of log
        → IsPut key content expected v (ok w) (record { store = s; record_of = log })

  module _ (key content : Text) (expected : Option Text) (v : Shared S) where
    -- What `previous` says of the storage.
    data IsBefore : Result (Option Text) → Type 0 where
      aside : recorded key ≡ false → IsBefore (ok none)
      nothing :
          (x : Error)
          → recorded key ≡ true
          → inner.get v.store key ≡ err x
          → is_not_found x ≡ true
          → IsBefore (ok none)
      there :
          (old version : Text)
          → recorded key ≡ true
          → inner.get v.store key ≡ ok (old, version)
          → IsBefore (ok (some old))
      unreadable : (x : Error) → inner.get v.store key ≡ err x → IsBefore (err x)

    previous_of-IsBefore :
        (r : Result (Text × Text))
        → recorded key ≡ true
        → inner.get v.store key ≡ r
        → IsBefore (previous_of inner yaml decode actor r)
    unfolding previous_of
    previous_of-IsBefore (ok (old, version)) k g = there old version k g
    previous_of-IsBefore (err x) k g = elim (Bool-cases (is_not_found x)) [
      | inl e ↦ rw e (nothing x k g e)
      | inr e ↦ rw e (unreadable x g)
    ]

    previous-IsBefore : IsBefore (previous inner yaml decode actor key v.store)
    unfolding previous
    previous-IsBefore = elim (Bool-cases (recorded key)) [
      | inl e ↦ rw e (previous_of-IsBefore (inner.get v.store key) e refl)
      | inr e ↦ rw e (aside e)
    ]

    done-IsPut :
        (before : Option Text) (p : Result Text × S)
        → check_write yaml key (decode content) ≡ ok tt
        → inner.put v.store key content expected ≡ p
        → IsBefore (ok before)
        → (let q = put_done inner yaml decode actor key content before v.record_of p in
            IsPut key content expected v q.0 q.1)
    unfolding put_done is_new
    done-IsPut before (err x, s) c p b = failed x s p
    done-IsPut none (ok w, s) c p (aside k) = rw k (stored w s v.record_of c p (unrecorded k))
    done-IsPut none (ok w, s) c p (nothing x k g e) = rw k (stored w s _ c p (made x k g e))
    done-IsPut (some old) (ok w, s) c p (there _ version k g) =
        elim (Bool-cases (text_eq old content)) [
          | inl e ↦
              let same = (text_eq_iff old content).0 e in
              let kept = unchanged version k (g ∙ ap (λ t. ok (t, version)) same) in
              rw (k, e) (stored w s v.record_of c p kept)
          | inr e ↦
              let other =
                λ (same : old ≡ content). absurd (ground (arith, text_eq_iff old content)) in
              rw (k, e) (stored w s _ c p (changed old version k g other))
        ]

    over-IsPut :
        (r : Result (Option Text))
        → check_write yaml key (decode content) ≡ ok tt
        → IsBefore r
        → (let q = put_over inner yaml decode actor r key content expected v in
            IsPut key content expected v q.0 q.1)
    unfolding put_over
    over-IsPut (err x) c (unreadable _ g) = refused x (inr g)
    over-IsPut (ok before) c b = done-IsPut before (inner.put v.store key content expected) c refl b

    -- A put to a shared vault is refused before it writes, where the rules of the vault refuse it or
    -- what stands there cannot be read; or the storage's put fails, and the record stays as it is; or
    -- the storage's put goes through, under the rules. The record then has one more entry, by this
    -- actor, that the note was made where none stood, or changed from what stood there where that was
    -- another content, and no more where the same content stood there or the path is one whose writes
    -- are not recorded.
    pub put_checked-IsPut :
        (let q = put_checked inner yaml decode actor key content expected v in
          IsPut key content expected v q.0 q.1)
    unfolding put_checked
    put_checked-IsPut = elim (Result-cases (check_write yaml key (decode content))) [
      | inr (x, e) ↦ rw e (unfold put_over in refused x (inl e))
      | inl (done, e) ↦
          rw e (over-IsPut (previous inner yaml decode actor key v.store) e previous-IsBefore)
    ]
