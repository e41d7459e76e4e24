-- ===== src/WorkerIdentity/Signatures.antt =====
-- What the signatures and key files of src/worker_identity.cpp are worth, if OpenSSL does what its
-- manual says.
use mathlib.Core.Option.{bind}
use sandrun.Common.{
  ℕ, suc, ◌∷◌, true, false, ◌≡◌, refl, ap, ◌∙◌, arith, ◌⊎◌, inl, inr, [], some, Bytes, length,
  is_empty, Option-cases, Bool-cases, lookup, lookup-insert_self, bytes_key,
}
use sandrun.WorkerIdentity.{
  OpenSsl, WorkerIdentity, Files, extract, generate, from_keyfile, save_to_file, get_worker_id,
  sign, verify, base64_encode, base64_decode,
}

-- The manual's words on Ed25519: raw keys have 32 bytes and signatures 64, a key is made again from
-- its raw private key, and what a key signs the key made from its raw public key verifies. Base64
-- and PEM read what they write.
pub record IsEd25519 {Key : Type 0} (o : OpenSsl Key) : Type 0 where
  pub bio_read-base64 :
      (bytes : Bytes) → is_empty bytes ≡ false → o.bio_read (o.base64 bytes) ≡ some bytes
  pub keygen-ed25519 : (k : Key) → o.keygen ≡ some k → o.is_ed25519 k ≡ true
  pub public-length :
      (k : Key) (public : Bytes)
      → o.is_ed25519 k ≡ true
      → o.raw_public_key k ≡ some public
      → length public ≡ 32
  pub private-again :
      (k : Key) (private : Bytes)
      → o.is_ed25519 k ≡ true
      → o.raw_private_key k ≡ some private
      → o.new_raw_private_key private ≡ some k
  pub signature-length :
      (k : Key) (bytes signature : Bytes)
      → o.is_ed25519 k ≡ true
      → o.digest_sign k bytes ≡ some signature
      → length signature ≡ 64
  pub verify-sign :
      (k : Key) (public bytes signature : Bytes)
      → o.is_ed25519 k ≡ true
      → o.raw_public_key k ≡ some public
      → o.digest_sign k bytes ≡ some signature
      → (v : Key) × (o.new_raw_public_key public ≡ some v)
        × (o.inits_verify v ≡ true)
        × (o.digest_verify v signature bytes ≡ true)
  pub pem_read-pem_write :
      (k : Key) (text : Bytes) → o.pem_write k ≡ some text → o.pem_read text ≡ some k

module _ {Key : Type 0} (o : OpenSsl Key) (laws : IsEd25519 o) where
  -- An identity holds the two raw keys of one Ed25519 key.
  abbrev pub IsIdentity : WorkerIdentity → Type 0
  IsIdentity identity =
      (k : Key) × (o.is_ed25519 k ≡ true)
      × (o.raw_public_key k ≡ some identity.public_key)
      × (o.raw_private_key k ≡ some identity.private_key)

  extract-IsIdentity :
      (k : Key) (identity : WorkerIdentity)
      → o.is_ed25519 k ≡ true
      → extract o k ≡ some identity
      → IsIdentity identity
  unfolding extract bind
  extract-IsIdentity k identity h e = elim (Option-cases (o.raw_public_key k)) [
    | inl f ↦ absurd (cc (rw (f, extract) at e))
    | inr (public, f) ↦ elim (Option-cases (o.raw_private_key k)) [
      | inl g ↦ absurd (cc (rw (f, g, extract) at e))
      | inr (private, g) ↦
          let pair : WorkerIdentity = record { private_key = private; public_key = public } in
          let same : some pair ≡ some identity = rw (f, g, extract) at e in (k, h, cc, cc)
    ]
  ]

  -- A pair of keys that was generated is one of Ed25519.
  pub generate-IsIdentity :
      (identity : WorkerIdentity) → generate o ≡ some identity → IsIdentity identity
  unfolding generate bind
  generate-IsIdentity identity e = elim (Option-cases o.keygen) [
    | inl f ↦ absurd (cc (rw (f, generate) at e))
    | inr (k, f) ↦ extract-IsIdentity k identity (laws.keygen-ed25519 k f) (rw (f, generate) at e)
  ]

  from_keyfile-IsIdentity :
      (identity : WorkerIdentity) (files : Files) (path : Bytes)
      → from_keyfile o files path ≡ some identity
      → IsIdentity identity
  unfolding from_keyfile bind
  from_keyfile-IsIdentity identity files path e = elim (Option-cases (lookup path files.contents)) [
    | inl f ↦ absurd (cc (rw (f, from_keyfile) at e))
    | inr (text, f) ↦ elim (Option-cases (o.pem_read text)) [
      | inl g ↦ absurd (cc (rw (f, g, from_keyfile) at e))
      | inr (k, g) ↦ elim (Bool-cases (o.is_ed25519 k)) [
        | inl h ↦ extract-IsIdentity k identity h (rw (f, g, h, from_keyfile) at e)
        | inr h ↦ absurd (cc (rw (f, g, h, from_keyfile) at e))
      ]
    ]
  ]

  base64_decode-base64_encode :
      (bytes : Bytes) → is_empty bytes ≡ false → base64_decode o (base64_encode o bytes) ≡ bytes
  unfolding base64_decode base64_encode
  base64_decode-base64_encode bytes h = rw (laws.bio_read-base64 bytes h) refl

  -- A signature that is not empty is the base64 of what the key signs.
  sign-signature :
      (identity : WorkerIdentity) (message : Bytes) (k : Key)
      → o.new_raw_private_key identity.private_key ≡ some k
      → is_empty (sign o identity message) ≡ false
      → (signature : Bytes) × (o.digest_sign k message ≡ some signature)
        × (sign o identity message ≡ base64_encode o signature)
  unfolding sign
  sign-signature identity message k again signs = elim (Bool-cases (o.inits_sign k)) [
    | inr f ↦ absurd (cc (rw (again, f, sign) at signs))
    | inl f ↦ elim (Option-cases (o.digest_sign k message)) [
      | inl g ↦ absurd (cc (rw (again, f, g, sign) at signs))
      | inr (signature, g) ↦ (signature, g, rw (again, f, g, sign) refl)
    ]
  ]

  length-filled : (bytes : Bytes) (n : ℕ) → length bytes ≡ suc n → is_empty bytes ≡ false
  length-filled [] n h = absurd (omega arith)
  length-filled (b ∷ bytes) n h = refl

  verify-identity :
      (identity : WorkerIdentity) (message : Bytes)
      → IsIdentity identity
      → is_empty (sign o identity message) ≡ false
      → verify o message (sign o identity message) (get_worker_id o identity) ≡ true
  unfolding verify get_worker_id
  verify-identity identity message (k, ed25519, public, private) signs =
      let (signature, signed, encoded) =
        sign-signature identity message k (laws.private-again k _ ed25519 private) signs in
      let (v, made, inits, verified) =
        laws.verify-sign k _ message signature ed25519 public signed in
      let long = laws.public-length k _ ed25519 public in
      let long_signature = laws.signature-length k message signature ed25519 signed in
      let key = base64_decode-base64_encode identity.public_key (length-filled _ 31 long) in
      let decoded =
        ap (base64_decode o) encoded
        ∙ base64_decode-base64_encode signature (length-filled _ 63 long_signature) in
      rw (key, decoded, long, long_signature, made, inits, decoded, verified, verify) refl

  -- What a worker signs is accepted under its worker id, be the worker's key generated or read from
  -- a file; if OpenSSL signs at all, and does as its manual says.
  pub verify-sign :
      (identity : WorkerIdentity) (files : Files) (path message : Bytes)
      → (generate o ≡ some identity) ⊎ (from_keyfile o files path ≡ some identity)
      → is_empty (sign o identity message) ≡ false
      → verify o message (sign o identity message) (get_worker_id o identity) ≡ true
  verify-sign identity files path message (inl e) =
      verify-identity identity message (generate-IsIdentity identity e)
  verify-sign identity files path message (inr e) =
      verify-identity identity message (from_keyfile-IsIdentity identity files path e)

  -- A pair of keys that was saved is read back.
  pub from_keyfile-save_to_file :
      (identity : WorkerIdentity) (path : Bytes) (files : Files)
      → IsIdentity identity
      → (save_to_file o identity path files).0 ≡ true
      → from_keyfile o (save_to_file o identity path files).1 path ≡ some identity
  unfolding from_keyfile save_to_file extract bind
  from_keyfile-save_to_file identity path files (k, ed25519, public, private) saved =
      let again = laws.private-again k _ ed25519 private in
      elim (Bool-cases (files.opens path)) [
        | inr f ↦ absurd (cc (rw (again, f, save_to_file) at saved))
        | inl f ↦ elim (Option-cases (o.pem_write k)) [
          | inl g ↦ absurd (cc (rw (again, f, g, save_to_file) at saved))
          | inr (text, g) ↦
              rw
                (
                  again,
                  f,
                  g,
                  save_to_file,
                  lookup-insert_self path text files.contents,
                  laws.pem_read-pem_write k text g,
                  ed25519,
                  public,
                  private,
                )
                refl
        ]
      ]
