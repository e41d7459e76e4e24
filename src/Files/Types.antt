-- ===== src/Files/Types.antt =====
-- `detect_file_type` and `get_mime_type` of src/file_utils.cpp.
use sandrun.Common.{
  ℕ, ◌∷◌, [], ◌++◌, ◌≡◌, ◌≢◌, refl, ap, sym, ◌∙◌, arith, Bytes, codes, map, drop, drop-append,
  tolower, none, some, lookup, value_or, bytes_key, starts_with, length,
}
use sandrun.Common.Find.{rfind, Lacks}
use sandrun.Files.Tables.{FileType, other, extension_map, mime_type_map}

-- The text from the last dot on, in lower case; empty without a dot.
unfoldable pub extension : Bytes → Bytes
extension filename = elim (rfind (b'.' ∷ []) filename) [
  | none ↦ []
  | some dot_pos ↦ map tolower (drop dot_pos filename)
]

unfoldable pub detect_file_type : Bytes → FileType
unfolding extension
detect_file_type filename = value_or other (lookup (extension filename) extension_map)

unfoldable pub get_mime_type : Bytes → Bytes
unfolding extension
get_mime_type filename =
    value_or (codes "application/octet-stream") (lookup (extension filename) mime_type_map)

rfind_absent : (b : ℕ) (s : Bytes) → Lacks b s → rfind (b ∷ []) s ≡ none
unfolding rfind starts_with
rfind_absent b [] h = refl
rfind_absent b (c ∷ s) h = rw (rfind_absent b s h.1, rfind) (ground arith)

rfind_last : (b : ℕ) (x y : Bytes) → Lacks b y → rfind (b ∷ []) (x ++ b ∷ y) ≡ some (length x)
unfolding rfind starts_with
rfind_last b [] y h = rw (rfind_absent b y h, rfind) (ground arith)
rfind_last b (c ∷ x) y h = rw (rfind_last b x y h, rfind) refl

-- The extension starts at the last dot.
extension_lem :
    (stem ext : Bytes) → Lacks b'.' ext → extension (stem ++ b'.' ∷ ext) ≡ b'.' ∷ map tolower ext
unfolding extension
extension_lem stem ext h =
    rw (rfind_last b'.' stem ext h, extension)
      (rw (drop-append stem (b'.' ∷ ext)) (unfold tolower in refl))

tolower_idem : (c : ℕ) → tolower (tolower c) ≡ tolower c
unfolding tolower
tolower_idem c = ground arith

map-tolower_idem : (s : Bytes) → map tolower (map tolower s) ≡ map tolower s
map-tolower_idem [] = refl
map-tolower_idem (c ∷ s) = cc (tolower_idem c, map-tolower_idem s)

tolower-ne-dot : (c : ℕ) → c ≢ b'.' → tolower c ≢ b'.'
unfolding tolower
tolower-ne-dot c h = ground arith

map-tolower-Lacks : (s : Bytes) → Lacks b'.' s → Lacks b'.' (map tolower s)
map-tolower-Lacks [] h = tt
map-tolower-Lacks (c ∷ s) h = (tolower-ne-dot c h.0, map-tolower-Lacks s h.1)

-- The type and the MIME type of a file depend on what stands behind the last dot of its name alone,
-- and on that without regard to case.
detect_file_type-tolower :
    (stem other_stem ext : Bytes)
    → Lacks b'.' ext
    → (detect_file_type (stem ++ b'.' ∷ ext)
        ≡ detect_file_type (other_stem ++ b'.' ∷ map tolower ext))
      × (get_mime_type (stem ++ b'.' ∷ ext) ≡ get_mime_type (other_stem ++ b'.' ∷ map tolower ext))
unfolding detect_file_type get_mime_type
detect_file_type-tolower stem other_stem ext h =
    let same : extension (stem ++ b'.' ∷ ext) ≡ extension (other_stem ++ b'.' ∷ map tolower ext) =
      extension_lem stem ext h
      ∙ ap (◌∷◌ b'.') (sym (map-tolower_idem ext))
      ∙ sym (extension_lem other_stem (map tolower ext) (map-tolower-Lacks ext h)) in
    (
      ap (λ e. value_or other (lookup e extension_map)) same,
      ap (λ e. value_or (codes "application/octet-stream") (lookup e mime_type_map)) same,
    )
