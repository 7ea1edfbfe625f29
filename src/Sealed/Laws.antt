-- ===== src/Sealed/Laws.antt =====
-- What is sealed is read back under the same name, and a cached listing shows the writes made here.
use notes_vault_mcp.Prelude.{
  ℕ, ◌≤◌, Text, Result, ok, err, ◌≡◌, refl, sym, ap, ◌∙◌, true, false, Option, some, [], ◌∷◌, ◌++◌,
  length, take, drop, ltb, arith, length-append,
}
use notes_vault_mcp.Prelude.Strings.{starts_with}
use notes_vault_mcp.Sealed.Names.{Cipher, object_key}
use notes_vault_mcp.Sealed.{
  magic, nonce_bytes, overhead, seal, opened, unseal, Storage, Sealed, get_bytes, put_done, put_at,
  put_checked, wrote, renamed,
}

drop-append : (xs ys : Text) → drop (length xs) (xs ++ ys) ≡ ys
drop-append [] ys = refl
drop-append (x ∷ xs) ys = drop-append xs ys

take-append : (xs ys : Text) → take (length xs) (xs ++ ys) ≡ xs
take-append [] ys = refl
take-append (x ∷ xs) ys = ap (◌∷◌ x) (take-append xs ys)

module _ (c : Cipher) where
  -- What the code relies on of the cipher for one content: it decrypts, and carries a tag.
  pub record IsSealed (nonce path content : Text) : Type 0 where
    pub nonce_fits : length nonce ≡ nonce_bytes
    pub tagged : 16 ≤ length (c.encrypt nonce content (magic ++ c.utf8 path))
    pub decrypted :
        c.decrypt nonce (c.encrypt nonce content (magic ++ c.utf8 path)) (magic ++ c.utf8 path)
        ≡ some content

  unseal_of :
      (path blob content : Text)
      → starts_with blob magic ≡ true
      → ltb (length blob) overhead ≡ false
      → c.decrypt (take nonce_bytes (drop 4 blob)) (drop 16 blob) (magic ++ c.utf8 path)
        ≡ some content
      → unseal c path blob ≡ ok content
  unfolding unseal opened
  unseal_of path blob content m l d = rw (m, l, d)

  -- What is sealed under a path is unsealed under it.
  pub unseal-seal :
      (nonce path content : Text)
      → IsSealed nonce path content
      → unseal c path (seal c nonce path content) ≡ ok content
  unfolding unseal seal opened starts_with
  unseal-seal nonce path content k =
      let box = c.encrypt nonce content (magic ++ c.utf8 path) in
      let front : take nonce_bytes (nonce ++ box) ≡ nonce =
        ap (λ n. take n (nonce ++ box)) (sym k.nonce_fits) ∙ take-append nonce box in
      let back : drop nonce_bytes (nonce ++ box) ≡ box =
        ap (λ n. drop n (nonce ++ box)) (sym k.nonce_fits) ∙ drop-append nonce box in
      let opens : c.decrypt (take nonce_bytes (nonce ++ box)) (drop nonce_bytes (nonce ++ box))
            (magic ++ c.utf8 path)
          ≡ some content =
        rw (front, back) k.decrypted in
      let blob = magic ++ (nonce ++ box) in
      let long : ltb (length blob) overhead ≡ false =
        ground (arith, length-append nonce box, k.tagged, k.nonce_fits) in
      unseal_of path blob content (unfold starts_with in refl) long opens

  module _ {S : Type 0} (storage : Storage S) where
    -- What the code relies on of the storage: what is put can be read.
    pub record IsStoring : Type 0 where
      pub put_stores :
          (s : S) (k t v : Text) (e : Option Text)
          → (storage.put_checked s k t e).0 ≡ ok v
          → storage.get_bytes (storage.put_checked s k t e).1 k ≡ ok (t, v)

    put_done-eq-ok :
        (key v : Text) (size : ℕ) (w u : Sealed S) (p : Result Text × S)
        → put_done c storage key size w p ≡ (ok v, u)
        → (p.0 ≡ ok v) × (u.inner ≡ p.1)
    unfolding put_done wrote
    put_done-eq-ok key v size w u (err e, s) h = cc
    put_done-eq-ok key v size w u (ok version, s) h = (ground arith, ground arith)

    put_at-eq-ok :
        (object : Result Text) (nonce key content v : Text) (e : Option Text) (w u : Sealed S)
        → put_at c storage object nonce key content e w ≡ (ok v, u)
        → (k : Text) × (object ≡ ok k)
          × ((storage.put_checked w.inner k (seal c nonce key content) e).0 ≡ ok v)
          × (u.inner ≡ (storage.put_checked w.inner k (seal c nonce key content) e).1)
    unfolding put_at
    put_at-eq-ok (err x) nonce key content v e w u h = cc
    put_at-eq-ok (ok k) nonce key content v e w u h =
        let (p, s) =
          put_done-eq-ok key v (length content) w u
            (storage.put_checked w.inner k (seal c nonce key content) e) h in
        (k, refl, p, s)

    get_of :
        (key object blob content v : Text) (u : Sealed S)
        → object_key c key ≡ ok object
        → storage.get_bytes u.inner object ≡ ok (blob, v)
        → unseal c key blob ≡ ok content
        → get_bytes c storage key u ≡ ok (content, v)
    unfolding get_bytes renamed
    get_of key object blob content v u o g n = rw (o, g, n)

    -- What is put into a sealed storage is read back from it, with the version that the put returned.
    pub get-put_checked :
        (nonce key content v : Text) (e : Option Text) (w u : Sealed S)
        → IsStoring
        → IsSealed nonce key content
        → put_checked c storage nonce key content e w ≡ (ok v, u)
        → get_bytes c storage key u ≡ ok (content, v)
    unfolding put_checked
    get-put_checked nonce key content v e w u l k h =
        let (object, named, put, state) =
          put_at-eq-ok (object_key c key) nonce key content v e w u h in
        let read = l.put_stores w.inner object (seal c nonce key content) v e put in
        get_of key object (seal c nonce key content) content v u named (rw state read)
          (unseal-seal nonce key content k)
