-- ===== src/Sandbox/Wipe.antt =====
-- `cleanup` of src/sandbox.cpp: the files below a directory are overwritten and removed. The random
-- bytes are left out; what is modelled is how many are written.
use sandrun.Common.{
  ℕ, zero, suc, ◌+◌, ◌-◌, ◌≤◌, ◌<◌, min, List, [], ◌∷◌, ◌≡◌, refl, arith, Bytes, ltb, if◌then◌else◌,
  All, map, Bool-cases, inl, inr,
}
use sandrun.Sandbox.{secure_delete_chunk}

-- The loop over one file, behind `written` bytes: the size of each write.
unfoldable pub overwrite : ℕ → ℕ → ℕ → List ℕ
overwrite zero written file_size = []
overwrite (suc fuel) written file_size =
    let to_write = min (min file_size secure_delete_chunk) (file_size - written) in
    let rest = overwrite fuel (written + to_write) file_size in
    if ltb written file_size then to_write ∷ rest else []

-- The writes to each file, from what the iterator passes: regular files with their sizes.
unfoldable pub cleanup : List (Bytes × ℕ) → List (Bytes × List ℕ)
cleanup [] = []
cleanup ((path, file_size) ∷ entries) =
    (path, overwrite (suc file_size) 0 file_size) ∷ cleanup entries

abbrev pub total : List ℕ → ℕ
total [] = 0
total (n ∷ ns) = n + total ns

overwrite_lem :
    (fuel written file_size : ℕ)
    → file_size - written < fuel
    → written ≤ file_size
    → (written + total (overwrite fuel written file_size) ≡ file_size)
      × All (λ n. (0 < n) × (n ≤ secure_delete_chunk)) (overwrite fuel written file_size)
unfolding overwrite
overwrite_lem zero written file_size h le = absurd (omega arith)
overwrite_lem (suc fuel) written file_size h le = elim (Bool-cases (ltb written file_size)) [
  | inl more ↦ rw more (
      let step = min (min file_size secure_delete_chunk) (file_size - written) in
      let (covered, sizes) =
        overwrite_lem fuel (written + step) file_size (ground arith) (ground arith) in
      (omega (arith, covered), ((ground arith, ground arith), sizes)))
  | inr done ↦ rw done (ground arith, tt)
]

-- Each file is overwritten in its whole length, in writes of at most one megabyte.
pub cleanup-total :
    (entries : List (Bytes × ℕ))
    → map (λ wiped. (wiped.0, total wiped.1)) (cleanup entries) ≡ entries
unfolding cleanup
cleanup-total [] = refl
cleanup-total ((path, file_size) ∷ entries) =
    let (covered, sizes) = overwrite_lem (suc file_size) 0 file_size (omega arith) (omega arith) in
    let whole : total (overwrite (suc file_size) 0 file_size) ≡ file_size =
      omega (arith, covered) in
    rw (whole, cleanup-total entries) refl
