-- ===== src/WorkerIdentity/Startup.antt =====
-- The command line and the worker's key in `main` of src/main.cpp. `std::atoi` is a parameter.
use sandrun.Common.{
  ℕ, Bool, true, false, ◌≡◌, refl, sym, ap, ◌∙◌, List, [], ◌∷◌, Option, none, some, Bytes, codes,
  bytes_eq, is_empty, if◌then◌else◌, inl, inr, Option-cases, Bool-cases,
}
use sandrun.Common.Decimal.{ℤ, pos}
use sandrun.WorkerIdentity.{OpenSsl, WorkerIdentity, Files, generate, from_keyfile, save_to_file}
use sandrun.WorkerIdentity.Signatures.{IsEd25519, generate-IsIdentity, from_keyfile-save_to_file}

pub record Arguments : Type 0 where
  pub port : ℤ
  pub worker_key_file : Bytes
  pub generate_key : Bool

abbrev pub default_arguments : Arguments
default_arguments = record { port = pos 8443; worker_key_file = []; generate_key = false }

-- What main does behind its command line.
pub data Startup : Type 0 where
  serves : ℤ → Option WorkerIdentity → Startup
  exits : ℕ → Startup

unfoldable pub parse_arguments : (Bytes → ℤ) → List Bytes → Arguments → Arguments
parse_arguments atoi [] a = a
parse_arguments atoi (arg ∷ []) a =
    if bytes_eq arg (codes "--generate-key") then record a { generate_key = true } else a
parse_arguments atoi (arg ∷ next ∷ args) a =
    let with_port = parse_arguments atoi args (record a { port = atoi next }) in
    let with_key = parse_arguments atoi args (record a { worker_key_file = next }) in
    let generating = parse_arguments atoi (next ∷ args) (record a { generate_key = true }) in
    let ignored = parse_arguments atoi (next ∷ args) a in
    if bytes_eq arg (codes "--port")
    then with_port
    else if bytes_eq arg (codes "--worker-key")
    then with_key
    else if bytes_eq arg (codes "--generate-key")
    then generating
    else ignored

unfoldable pub keyfile_of : Arguments → Bytes
keyfile_of a = if is_empty a.worker_key_file then codes "worker_key.pem" else a.worker_key_file

module _ {Key : Type 0} (o : OpenSsl Key) where
  unfoldable pub generate_keyfile : Arguments → Files → Startup × Files
  unfolding keyfile_of
  generate_keyfile a files = elim (generate o) [
    | none ↦ (exits 1, files)
    | some identity ↦
        let (saved, written) = save_to_file o identity (keyfile_of a) files in
        (exits (if saved then 0 else 1), written)
  ]

  unfoldable pub load_keyfile : Arguments → Files → Startup × Files
  load_keyfile a files = elim (from_keyfile o files a.worker_key_file) [
    | none ↦ (exits 1, files)
    | some identity ↦ (serves a.port (some identity), files)
  ]

  unfoldable pub start : Arguments → Files → Startup × Files
  unfolding generate_keyfile load_keyfile
  start a files =
      if a.generate_key
      then generate_keyfile a files
      else if is_empty a.worker_key_file
      then (serves a.port none, files)
      else load_keyfile a files

  exits-zero : (saved : Bool) → exits (if saved then 0 else 1) ≡ exits 0 → saved ≡ true
  exits-zero true e = refl
  exits-zero false e = absurd (cc e)

  keyfile_of-filled : (a : Arguments) → is_empty (keyfile_of a) ≡ false
  unfolding keyfile_of
  keyfile_of-filled a = elim (Bool-cases (is_empty a.worker_key_file)) [
    | inl e ↦ rw e refl
    | inr e ↦ rw e e
  ]

  -- A start that generates a key and exits with zero leaves a file from which a later start reads
  -- the same identity.
  pub start-start :
      (first later : Arguments) (files written : Files)
      → IsEd25519 o
      → first.generate_key ≡ true
      → later.generate_key ≡ false
      → later.worker_key_file ≡ keyfile_of first
      → start first files ≡ (exits 0, written)
      → (identity : WorkerIdentity) × (generate o ≡ some identity)
        × (start later written ≡ (serves later.port (some identity), written))
  unfolding start generate_keyfile load_keyfile
  start-start first later files written laws generates serving named e =
      elim (Option-cases (generate o)) [
        | inl f ↦ absurd (cc (ap (λ r. r.0) (rw (generates, f, start, generate_keyfile) at e)))
        | inr (identity, f) ↦
            let e' = rw (generates, f, start, generate_keyfile) at e in
            let saved =
              exits-zero (save_to_file o identity (keyfile_of first) files).0 (ap (λ r. r.0) e') in
            let read : from_keyfile o written (keyfile_of first) ≡ some identity =
              ap (λ w. from_keyfile o w (keyfile_of first)) (sym (ap (λ r. r.1) e'))
              ∙ from_keyfile-save_to_file o laws identity (keyfile_of first) files
                  (generate-IsIdentity o laws identity f) saved in
            (
              identity,
              f,
              rw (serving, named, keyfile_of-filled first, read, start, load_keyfile) refl,
            )
      ]
