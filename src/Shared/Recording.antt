-- ===== src/Shared/Recording.antt =====
-- `SharedBackend` of mindin/shared.py: a storage that checks what is written to a shared vault and
-- records who wrote it. `inner` is called with bytes, `decode` is UTF-8.
pub mod Laws
use notes_vault_mcp.Prelude.{
  Text, text_eq, Result, ok, err, Done, ◌>>=◌, ◌>>◌, is_not_found, Bool, true, false, not, ◌&&◌,
  ◌||◌, Option, none, some, List, [], ◌∷◌, if◌then◌else◌,
}
use notes_vault_mcp.Backends.{Backend}
use notes_vault_mcp.Frontmatter.{Yaml}
use notes_vault_mcp.Shared.{recorded, check_write}

pub data Action : Type 0 where
  created updated deleted moved : Action

pub record Entry : Type 0 where
  pub actor : Text
  pub action : Action
  pub path : Text
  pub before : Option Text
  pub after : Option Text
  pub from_path : Option Text

-- The storage and the record, the latest entry first.
pub record Shared (S : Type 0) : Type 0 where
  pub store : S
  pub record_of : List Entry

-- before != data
unfoldable pub is_new : Option Text → Text → Bool
unfolding text_eq
is_new none content = true
is_new (some before) content = not (text_eq before content)

abbrev pub written_as : Option Text → Action
written_as none = created
written_as (some before) = updated

module _ {S : Type 0} (inner : Backend S) (yaml : Yaml) (decode : Text → Option Text)
    (actor : Text) where
  previous_of : Result (Text × Text) → Result (Option Text)
  unfolding is_not_found
  previous_of (ok (content, version)) = ok (some content)
  previous_of (err x) = if is_not_found x then ok none else err x

  unfoldable pub previous : Text → S → Result (Option Text)
  unfolding previous_of recorded
  previous key s = if recorded key then previous_of (inner.get s key) else ok none

  abbrev pub entry : Action → Text → Option Text → Option Text → Option Text → Entry
  entry action path before after from_path = record {
    actor = actor;
    action = action;
    path = path;
    before = before;
    after = after;
    from_path = from_path;
  }

  put_done : Text → Text → Option Text → List Entry → Result Text × S → Result Text × Shared S
  unfolding is_new recorded
  put_done key content before log (err x, s) = (err x, record { store = s; record_of = log })
  put_done key content before log (ok version, s) = (
    ok version,
    record {
      store = s;
      record_of =
          if recorded key && is_new before content
          then entry (written_as before) key before (some content) none ∷ log
          else log;
    },
  )

  put_over : Result (Option Text) → Text → Text → Option Text → Shared S → Result Text × Shared S
  unfolding put_done
  put_over (err x) key content expected v = (err x, v)
  put_over (ok before) key content expected v =
      put_done key content before v.record_of (inner.put v.store key content expected)

  unfoldable pub put_checked : Text → Text → Option Text → Shared S → Result Text × Shared S
  unfolding put_over previous check_write
  put_checked key content expected v =
      put_over (check_write yaml key (decode content) >>= λ _. previous key v.store) key content
        expected v

  delete_done : Text → Option Text → List Entry → Result Done × S → Result Done × Shared S
  delete_done key before log (err x, s) = (err x, record { store = s; record_of = log })
  delete_done key none log (ok done, s) = (ok done, record { store = s; record_of = log })
  delete_done key (some content) log (ok done, s) =
      (ok done, record { store = s; record_of = entry deleted key (some content) none none ∷ log })

  delete_over :
      Result (Option Text) → Text → (S → Result Done × S) → Shared S → Result Done × Shared S
  unfolding delete_done
  delete_over (err x) key call v = (err x, v)
  delete_over (ok before) key call v = delete_done key before v.record_of (call v.store)

  unfoldable pub delete : Text → Shared S → Result Done × Shared S
  unfolding delete_over previous
  delete key v = delete_over (previous key v.store) key (λ s. inner.delete s key) v

  unfoldable pub delete_checked : Text → Text → Shared S → Result Done × Shared S
  unfolding delete_over previous
  delete_checked key expected v =
      delete_over (previous key v.store) key (λ s. inner.delete_checked s key expected) v

  move_done : Text → Text → Text → List Entry → Result Done × S → Result Done × Shared S
  unfolding recorded
  move_done src dst content log (err x, s) = (err x, record { store = s; record_of = log })
  move_done src dst content log (ok done, s) = (
    ok done,
    record {
      store = s;
      record_of =
          if recorded src || recorded dst
          then entry moved dst (some content) (some content) (some src) ∷ log
          else log;
    },
  )

  move_over : Result Text → Text → Text → Shared S → Result Done × Shared S
  unfolding move_done
  move_over (err x) src dst v = (err x, v)
  move_over (ok content) src dst v =
      move_done src dst content v.record_of (inner.move v.store src dst)

  unfoldable pub move : Text → Text → Shared S → Result Done × Shared S
  unfolding move_over check_write
  move src dst v =
      move_over
        (do
          (content, version) ← inner.get v.store src
          check_write yaml dst (decode content)
          ok content)
        src dst v
