-- ===== src/WorkerIdentity.antt =====
-- src/worker_identity.h and src/worker_identity.cpp: the key pair of a worker, its signatures and
-- its file. OpenSSL is a record of what its calls answer; `Key` is its `EVP_PKEY`.
pub mod Signatures
pub mod Startup
pub mod Results
pub mod Tests
use mathlib.Core.Option.{bind}
use sandrun.Common.{
  ℕ, Bool, true, false, ◌&&◌, not, ◌||◌, List, [], Option, none, some, Bytes, if◌then◌else◌, length,
  ◌==◌, Map, insert, lookup, bytes_key,
}

pub record OpenSsl (Key : Type 0) : Type 0 where
  -- BIO_write and BIO_read through the filter for base64 without line breaks.
  pub base64 : Bytes → Bytes
  pub bio_read : Bytes → Option Bytes
  -- A key from EVP_PKEY_keygen, with the calls that prepare it.
  pub keygen : Option Key
  pub raw_public_key : Key → Option Bytes
  pub raw_private_key : Key → Option Bytes
  pub new_raw_public_key : Bytes → Option Key
  pub new_raw_private_key : Bytes → Option Key
  pub is_ed25519 : Key → Bool
  -- PEM_read_PrivateKey and PEM_write_PrivateKey.
  pub pem_read : Bytes → Option Key
  pub pem_write : Key → Option Bytes
  -- EVP_MD_CTX_new, with EVP_DigestSignInit and EVP_DigestVerifyInit.
  pub inits_sign : Key → Bool
  pub inits_verify : Key → Bool
  pub digest_sign : Key → Bytes → Option Bytes
  pub digest_verify : Key → Bytes → Bytes → Bool

pub record WorkerIdentity : Type 0 where
  pub private_key : Bytes
  pub public_key : Bytes

-- The files by their paths, and the paths that `fopen` can open for writing.
pub record Files : Type 0 where
  pub contents : Map Bytes Bytes
  pub opens : Bytes → Bool

-- A vector for a call that may fail.
abbrev pub or_empty : Option Bytes → Bytes
or_empty none = []
or_empty (some bytes) = bytes

module _ {Key : Type 0} (o : OpenSsl Key) where
  unfoldable pub base64_encode : Bytes → Bytes
  base64_encode bytes = o.base64 bytes

  unfoldable pub base64_decode : Bytes → Bytes
  base64_decode encoded = or_empty (o.bio_read encoded)

  -- The raw keys of a key.
  unfoldable pub extract : Key → Option WorkerIdentity
  unfolding bind
  extract pkey = bind (o.raw_public_key pkey) λ public_key.
      bind (o.raw_private_key pkey)
        λ private_key. some (record { private_key = private_key; public_key = public_key })

  unfoldable pub generate : Option WorkerIdentity
  unfolding extract bind
  generate = bind o.keygen extract

  unfoldable pub from_keyfile : Files → Bytes → Option WorkerIdentity
  unfolding extract bind
  from_keyfile files keyfile_path =
      bind (lookup keyfile_path files.contents)
        λ text. bind (o.pem_read text) λ pkey. if o.is_ed25519 pkey then extract pkey else none

  -- A file that is opened is emptied, be the key written or not.
  unfoldable pub save_to_file : WorkerIdentity → Bytes → Files → Bool × Files
  save_to_file identity filepath files = elim (o.new_raw_private_key identity.private_key) [
    | none ↦ (false, files)
    | some pkey ↦ if not (files.opens filepath) then (false, files) else (elim (o.pem_write pkey) [
      | none ↦ (false, record files { contents = insert filepath [] files.contents })
      | some text ↦ (true, record files { contents = insert filepath text files.contents })
    ])
  ]

  unfoldable pub get_worker_id : WorkerIdentity → Bytes
  unfolding base64_encode
  get_worker_id identity = base64_encode identity.public_key

  unfoldable pub get_public_key : WorkerIdentity → Bytes
  get_public_key identity = identity.public_key

  unfoldable pub sign : WorkerIdentity → Bytes → Bytes
  unfolding base64_encode
  sign identity bytes = elim (o.new_raw_private_key identity.private_key) [
    | none ↦ []
    | some pkey ↦ if not (o.inits_sign pkey) then [] else (elim (o.digest_sign pkey bytes) [
      | none ↦ []
      | some signature ↦ base64_encode signature
    ])
  ]

  unfoldable pub verify : Bytes → Bytes → Bytes → Bool
  unfolding base64_decode
  verify bytes signature_b64 public_key_b64 =
      let public_key_bytes = base64_decode public_key_b64 in
      let signature_bytes = base64_decode signature_b64 in
      if not (length public_key_bytes == 32) || not (length signature_bytes == 64)
      then false
      else (elim (o.new_raw_public_key public_key_bytes) [
        | none ↦ false
        | some pkey ↦ o.inits_verify pkey && o.digest_verify pkey signature_bytes bytes
      ])
