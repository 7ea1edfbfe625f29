-- ===== src/Examples/Rounds.antt =====
-- A rewrite of a note in a folder while another writer is at work.
use notes_vault_mcp.Prelude.{
  Text, codes, text_eq, Result, ok, err, Error, version_conflict, ◌≡◌, ◌≢◌, refl, true, false,
  Option, none, some, [], ◌∷◌, arith,
}
use notes_vault_mcp.Prelude.Strings.{text_in, is_canonical}
use notes_vault_mcp.Prelude.Dict
use notes_vault_mcp.Backends.Local.{Disk, Outside}
use notes_vault_mcp.Backends.Local.Laws.{IsCodec, backend}
use notes_vault_mcp.Backends.Local.Calm.{HasNoFolder, local-IsCalm}
use notes_vault_mcp.Notes.Vault.{Vault}
use notes_vault_mcp.Notes.Rewrite.{is_conflict, rewrite}
use notes_vault_mcp.Notes.Rewrite.Ends.{IsSteady, rewrite_ends}

abbrev plain_outside : Outside
plain_outside = record {
  root = codes "vault" ∷ [];
  digest = λ content. 0 ∷ content;
  folder_version = λ d path. path;
  encode = λ text. text;
  decode = λ content. some content;
}

abbrev plain_codec : IsCodec plain_outside
plain_codec = record { decode_encode = λ t. refl; digest_named = λ a h. absurd (ground arith) }

abbrev more : Option Text → Result (Option Text)
more none = ok (some (codes "new"))
more (some text) = ok (some (1 ∷ text))

abbrev key : Text
key = codes "P/a.md"

more_chooses : (current : Option Text) (x : Error) → more current ≡ err x → is_conflict x ≡ false
more_chooses none x h = absurd (ground arith)
more_chooses (some text) x h = absurd (ground arith)

-- Somebody waits, and then writes the note.
abbrev busy : Vault Disk
busy = record {
  store = record { files = []; folders = codes "P" ∷ [] };
  index = [];
  env = (λ d. d) ∷ (λ d. record d { files = Dict.put d.files key (codes "theirs") }) ∷ [];
}

busy-IsSteady : IsSteady (backend plain_outside) more key (HasNoFolder plain_outside key) busy
unfolding text_in text_eq
busy-IsSteady = record { now = refl; others = ((λ d n. n), ((λ d n. n), tt)) }

key_canonical : is_canonical key ≡ true
unfolding is_canonical
key_canonical = refl

rewrite_ends_example : (rewrite (backend plain_outside) more key busy).0 ≢ err version_conflict
rewrite_ends_example =
    rewrite_ends (backend plain_outside) more key (HasNoFolder plain_outside key) busy
      (local-IsCalm plain_outside key key_canonical more plain_codec more_chooses) busy-IsSteady
      (omega arith)
