-- ===== src/Backends/Local/Laws.antt =====
-- The folder storage of mindin/backends/local.py keeps what a client of `Backend` relies on.
use notes_vault_mcp.Prelude.{
  Text, text_eq, text_eq_iff, ok, err, Error, not_found, Result-cases, ap, ◌≡◌, ◌≢◌, refl, Bool,
  true, false, Option, none, some, List, [], ◌∷◌, any, All, arith, Bool-cases, inl, inr, keep, not,
  ◌⊎◌, ◌>>=◌, >>=-eq-ok, sym, ◌∙◌, version_conflict,
}
use notes_vault_mcp.Prelude.Strings.{is_canonical, split, slash, text_in}
use notes_vault_mcp.Prelude.Strings.Strip.{text_in-append}
use notes_vault_mcp.Prelude.Dict
use notes_vault_mcp.Prelude.Dict.{Dict, get-put, get-remove, get-put_self, get-remove_self}
use notes_vault_mcp.Backends.{Backend, Versioned, must_not_exist}
use notes_vault_mcp.Backends.Local.{
  Disk, Outside, is_folder, is_blocked, read_bytes, decoded, get, current_version, make_folders,
  write_at, put_bytes, put_checked, put, delete_at, delete, delete_checked, move, list, differs,
  is_version,
}
use notes_vault_mcp.Backends.Local.Paths.{
  joined, ancestors, path_of_canonical, joined-split, ancestors-ne,
}

-- What the code relies on of the codec and of the hash's notation: what is encoded is decoded, and no
-- hash is spelled as the mark of what must not exist.
pub record IsCodec (o : Outside) : Type 0 where
  pub decode_encode : (t : Text) → o.decode (o.encode t) ≡ some t
  pub digest_named : (a : Text) → o.digest a ≢ must_not_exist

-- With a hash that is taken to be free of collisions.
pub record IsFaithful (o : Outside) : Type 0 where
  pub codec : IsCodec o
  pub digest_injective : (a b : Text) → o.digest a ≡ o.digest b → a ≡ b

-- A write to a file changes no answer to "is there a file?" at another path.
has_key-put :
    (files : Dict Text) (k c : Text) (l : List Text)
    → All (λ a. k ≢ a) l
    → any (Dict.has_key (Dict.put files k c)) l ≡ any (Dict.has_key files) l
unfolding Dict.has_key
has_key-put files k c [] h = refl
has_key-put files k c (a ∷ l) (h, hs) =
    ground (arith, get-put files k a c, has_key-put files k c l hs, text_eq_iff k a)

-- No path with a file at it is among paths that have none, nor among those that are kept of them.
not_in_of_file :
    (files : Dict Text) (p c : Text) (q : Text → Bool) (l : List Text)
    → Dict.get files p ≡ some c
    → any (Dict.has_key files) l ≡ false
    → text_in p (keep q l) ≡ false
unfolding text_in Dict.has_key
not_in_of_file files p c q [] h n = refl
not_in_of_file files p c q (a ∷ l) h n =
    ground (arith, not_in_of_file files p c q l h, text_eq_iff p a)

-- What is taken away makes no new file and no new folder.
has_key-remove :
    (files : Dict Text) (k : Text) (l : List Text)
    → any (Dict.has_key files) l ≡ false
    → any (Dict.has_key (Dict.remove files k)) l ≡ false
unfolding Dict.has_key
has_key-remove files k [] h = refl
has_key-remove files k (a ∷ l) h = ground (arith, get-remove files k a, has_key-remove files k l)

text_in-keep :
    (p : Text) (q : Text → Bool) (l : List Text)
    → text_in p l ≡ false
    → text_in p (keep q l) ≡ false
unfolding text_in
text_in-keep p q [] h = refl
text_in-keep p q (a ∷ l) h = ground (arith, text_in-keep p q l)

module _ (o : Outside) where
  -- The file at a path, where the path can be read.
  readable_at :
      (d : Disk) (path : List Text) (content : Text)
      → is_folder o d path ≡ false
      → is_blocked o d path ≡ false
      → Dict.get d.files (joined path) ≡ some content
      → read_bytes o d path ≡ ok content
  unfolding read_bytes
  readable_at d path content h k e = ground arith

  read_bytes-eq-ok :
      (d : Disk) (path : List Text) (content : Text)
      → read_bytes o d path ≡ ok content
      → (is_folder o d path ≡ false)
        × (is_blocked o d path ≡ false)
        × (Dict.get d.files (joined path) ≡ some content)
  unfolding read_bytes
  read_bytes-eq-ok d path content h = ground arith

  -- Writing at a path makes it readable, with what was written.
  write_at_stores :
      (d : Disk) (path : List Text) (content v : Text)
      → (write_at o d path content).0 ≡ ok v
      → (read_bytes o (write_at o d path content).1 path ≡ ok content) × (v ≡ o.digest content)
  unfolding write_at read_bytes
  write_at_stores d path content v h = ground (
    arith,
    has_key-put d.files (joined path) content (ancestors (joined path))
        (ancestors-ne (joined path)),
    get-put_self d.files (joined path) content,
  )

  -- The folders that a write makes are no files.
  make_folders_keeps :
      (d : Disk) (path other : List Text) (c : Text)
      → is_blocked o d path ≡ false
      → is_folder o d other ≡ false
      → Dict.get d.files (joined other) ≡ some c
      → is_folder o (make_folders o d path) other ≡ false
  unfolding make_folders is_folder is_blocked
  make_folders_keeps d path other c b f e =
      let fresh = λ (p : Text). not (text_in p d.folders) in
      ground (
        arith,
        text_in-append (joined other) d.folders (keep fresh (ancestors (joined path))),
        not_in_of_file d.files (joined other) c fresh (ancestors (joined path)) e b,
      )

  -- A write that fails leaves every file that can be read as it is.
  write_at_refused :
      (d : Disk) (path other : List Text) (content c : Text) (x : Error)
      → (write_at o d path content).0 ≡ err x
      → read_bytes o d other ≡ ok c
      → read_bytes o (write_at o d path content).1 other ≡ ok c
  unfolding write_at read_bytes
  write_at_refused d path other content c x h r =
      let (f, b, e) = read_bytes-eq-ok d other c r in
      ground (arith, make_folders_keeps d path other c)

  -- Deleting a file that can be read.
  delete_at_removes :
      (d : Disk) (path : List Text) (c : Text)
      → read_bytes o d path ≡ ok c
      → read_bytes o (delete_at o d path).1 path ≡ err not_found
  unfolding delete_at read_bytes Dict.has_key
  delete_at_removes d path c r = ground (
    arith,
    get-remove_self d.files (joined path),
    has_key-remove d.files (joined path) (ancestors (joined path)),
  )

  -- Whatever is deleted at a path, a file at another path stays readable.
  delete_at_keeps :
      (d : Disk) (path other : List Text) (c : Text)
      → joined path ≢ joined other
      → read_bytes o d other ≡ ok c
      → read_bytes o (delete_at o d path).1 other ≡ ok c
  unfolding delete_at read_bytes
  delete_at_keeps d path other c ne r = ground (
    arith,
    get-remove d.files (joined path) (joined other),
    text_eq_iff (joined path) (joined other),
    has_key-remove d.files (joined path) (ancestors (joined other)),
    text_in-keep (joined other) (λ (p : Text). not (text_eq p (joined path))) d.folders,
  )

  abbrev pub backend : Backend Disk
  backend = record {
    list = λ d. (ok (list o d), d);
    get = get o;
    put = put o;
    delete = delete o;
    delete_checked = delete_checked o;
    move = move o;
  }

  decoded-eq-ok :
      (version : Text) (text : Option Text) (t v : Text)
      → decoded o version text ≡ ok (t, v)
      → (text ≡ some t) × (version ≡ v)
  decoded-eq-ok version none t v h = cc
  decoded-eq-ok version (some text) t v h = (cc, cc)

  -- `get` and the writes at a canonical key, by the path of its segments.
  get_canonical :
      (d : Disk) (key : Text)
      → is_canonical key ≡ true
      → get o d key ≡ (do
        content ← read_bytes o d (split slash key)
        decoded o (o.digest content) (o.decode content))
  unfolding get
  get_canonical d key h = ground (arith, path_of_canonical o.root key h)

  get-eq-ok :
      (d : Disk) (key t v : Text)
      → is_canonical key ≡ true
      → get o d key ≡ ok (t, v)
      → (content : Text) × (read_bytes o d (split slash key) ≡ ok content)
        × (o.decode content ≡ some t)
        × (v ≡ o.digest content)
  get-eq-ok d key t v h r =
      let (content, read, e) =
        >>=-eq-ok (read_bytes o d (split slash key)) (λ c. decoded o (o.digest c) (o.decode c))
          (sym (get_canonical d key h) ∙ r) in
      let (decodes, same) = decoded-eq-ok (o.digest content) (o.decode content) t v e in
      (content, read, decodes, sym same)

  get_of_read :
      (d : Disk) (key t content : Text)
      → is_canonical key ≡ true
      → read_bytes o d (split slash key) ≡ ok content
      → o.decode content ≡ some t
      → get o d key ≡ ok (t, o.digest content)
  get_of_read d key t content h r e = ground (arith, get_canonical d key h)

  -- What a checked call compares: the version that a read of the key returns.
  current_version_of_get :
      (d : Disk) (key t v : Text)
      → is_canonical key ≡ true
      → get o d key ≡ ok (t, v)
      → current_version o d key ≡ ok (some v)
  unfolding current_version read_bytes
  current_version_of_get d key t v h r =
      let (content, read, _, same) = get-eq-ok d key t v h r in
      ground (arith, path_of_canonical o.root key h)

  put_bytes_canonical :
      (d : Disk) (key content : Text)
      → is_canonical key ≡ true
      → put_bytes o d key content ≡ write_at o d (split slash key) content
  unfolding put_bytes
  put_bytes_canonical d key content h = ground (arith, path_of_canonical o.root key h)

  -- A write is refused before it touches the disk, or it is the write at the key's path.
  put_canonical :
      (d : Disk) (key t : Text) (e : Option Text)
      → is_canonical key ≡ true
      → ((x : Error) × (put o d key t e ≡ (err x, d)))
        ⊎ (put o d key t e ≡ write_at o d (split slash key) (o.encode t))
  unfolding put put_checked
  put_canonical d key t none h = inr (put_bytes_canonical d key (o.encode t) h)
  put_canonical d key t (some e) h = elim (Result-cases (current_version o d key)) [
    | inr (x, r) ↦ inl (x, ground arith)
    | inl (current, r) ↦ elim (Bool-cases (differs e current)) [
      | inl b ↦ inl (version_conflict, ground arith)
      | inr b ↦ inr (ground (arith, put_bytes_canonical d key (o.encode t) h))
    ]
  ]

  -- A checked delete leaves the disk alone, or it is the delete at the key's path.
  delete_canonical :
      (d : Disk) (key e : Text)
      → is_canonical key ≡ true
      → ((delete_checked o d key e).1 ≡ d)
        ⊎ ((delete_checked o d key e).1 ≡ (delete_at o d (split slash key)).1)
  unfolding delete_checked
  delete_canonical d key e h = elim (Result-cases (current_version o d key)) [
    | inr (x, r) ↦ inl (ground arith)
    | inl (current, r) ↦ elim (Bool-cases (is_version current e)) [
      | inr b ↦ inl (ground arith)
      | inl b ↦ inr (ground (arith, path_of_canonical o.root key h))
    ]
  ]

  delete_passed :
      (d : Disk) (key e v : Text)
      → is_canonical key ≡ true
      → current_version o d key ≡ ok (some v)
      → (delete_checked o d key e).0 ≡ ok tt
      → (v ≡ e) × ((delete_checked o d key e).1 ≡ (delete_at o d (split slash key)).1)
  unfolding delete_checked is_version
  delete_passed d key e v h found p =
      ground (arith, path_of_canonical o.root key h, text_eq_iff v e)

  get_of_missing :
      (d : Disk) (key : Text)
      → is_canonical key ≡ true
      → read_bytes o d (split slash key) ≡ err not_found
      → get o d key ≡ err not_found
  get_of_missing d key h r = ground (arith, get_canonical d key h)

  module _ (f : IsCodec o) where
    pub put_stores :
        (d : Disk) (key t : Text) (e : Option Text) (v : Text)
        → is_canonical key ≡ true
        → (put o d key t e).0 ≡ ok v
        → get o (put o d key t e).1 key ≡ ok (t, v)
    put_stores d key t e v h p = elim (put_canonical d key t e h) [
      | inl (x, refused) ↦ cc
      | inr same ↦
          let (read, version) =
            write_at_stores d (split slash key) (o.encode t) v (rw (← same) p) in
          rw (same, version) (get_of_read _ key t (o.encode t) h read (f.decode_encode t))
    ]

    pub put_refused :
        (d : Disk) (key j t : Text) (e : Option Text) (x : Error) (u w : Text)
        → is_canonical key ≡ true
        → is_canonical j ≡ true
        → (put o d key t e).0 ≡ err x
        → get o d j ≡ ok (u, w)
        → get o (put o d key t e).1 j ≡ ok (u, w)
    put_refused d key j t e x u w h hj p r = elim (put_canonical d key t e h) [
      | inl (_, refused) ↦ rw refused r
      | inr same ↦
          let (content, read, decodes, version) = get-eq-ok d j u w hj r in
          rw (same, version)
            (get_of_read _ j u content hj
              (write_at_refused d (split slash key) (split slash j) (o.encode t) content x
                (rw (← same) p) read)
              decodes)
    ]

    put_checks :
        (d : Disk) (key t e v u w : Text)
        → is_canonical key ≡ true
        → (put o d key t (some e)).0 ≡ ok v
        → get o d key ≡ ok (u, w)
        → w ≡ e
    unfolding put put_checked differs
    put_checks d key t e v u w h p r =
        ground (arith, current_version_of_get d key u w h r, text_eq_iff w e)

    pub version_named :
        (d : Disk) (key t v : Text)
        → is_canonical key ≡ true
        → get o d key ≡ ok (t, v)
        → v ≢ must_not_exist
    version_named d key t v h r =
        let (a, _, _, va) = get-eq-ok d key t v h r in λ e. f.digest_named a (sym va ∙ e)

    pub delete_removes :
        (d : Disk) (key e t v : Text)
        → is_canonical key ≡ true
        → (delete_checked o d key e).0 ≡ ok tt
        → get o d key ≡ ok (t, v)
        → (v ≡ e) × (get o (delete_checked o d key e).1 key ≡ err not_found)
    delete_removes d key e t v h p r =
        let (c, read, _, _) = get-eq-ok d key t v h r in
        let found = current_version_of_get d key t v h r in
        let path = path_of_canonical o.root key h in
        let gone = delete_at_removes d (split slash key) c read in
        let (same, state) = delete_passed d key e v h found p in
        (same, rw state (get_of_missing _ key h gone))

    pub delete_keeps :
        (d : Disk) (key j e u w : Text)
        → is_canonical key ≡ true
        → is_canonical j ≡ true
        → key ≢ j
        → get o d j ≡ ok (u, w)
        → get o (delete_checked o d key e).1 j ≡ ok (u, w)
    delete_keeps d key j e u w h hj ne r =
        let (c, read, decodes, version) = get-eq-ok d j u w hj r in
        let paths = λ (q : joined (split slash key) ≡ joined (split slash j)).
          ne (sym (joined-split key) ∙ q ∙ joined-split j) in
        let kept = delete_at_keeps d (split slash key) (split slash j) c paths read in
        elim (delete_canonical d key e h) [
          | inl same ↦ rw same r
          | inr same ↦ rw (same, version) (get_of_read _ j u c hj kept decodes)
        ]

  -- A version stands for one content, but for contents that share a hash.
  pub version_content_or :
      (d d' : Disk) (key t u v : Text)
      → is_canonical key ≡ true
      → get o d key ≡ ok (t, v)
      → get o d' key ≡ ok (u, v)
      → (t ≡ u) ⊎ ((a : Text) × (b : Text) × (a ≢ b) × (o.digest a ≡ o.digest b))
  version_content_or d d' key t u v h r r' =
      let (a, _, ta, va) = get-eq-ok d key t v h r in
      let (b, _, ub, vb) = get-eq-ok d' key u v h r' in
      elim (Bool-cases (text_eq a b)) [
        | inl e ↦ let same = (text_eq_iff a b).0 e in inl (cc (ap o.decode same))
        | inr e ↦ inr (a, b, (λ same. absurd (ground (arith, text_eq_iff a b))), sym va ∙ vb)
      ]

  version_content :
      IsFaithful o
      → (d d' : Disk) (key t u v : Text) → is_canonical key ≡ true
      → get o d key ≡ ok (t, v)
      → get o d' key ≡ ok (u, v)
      → t ≡ u
  version_content f d d' key t u v h r r' = elim (version_content_or d d' key t u v h r r') [
    | inl same ↦ same
    | inr (a, b, ne, shared) ↦ absurd (ne (f.digest_injective a b shared))
  ]

  -- The folder storage is a versioned backend, with a hash that is free of collisions.
  pub local_versioned : IsFaithful o → Versioned backend
  local_versioned f = record {
    put_stores = put_stores f.codec;
    put_refused = put_refused f.codec;
    put_checks = put_checks f.codec;
    version_content = version_content f;
    version_named = version_named f.codec;
    delete_removes = delete_removes f.codec;
    delete_keeps = delete_keeps f.codec;
  }
