-- ===== src/Files/Patterns.antt =====
-- `matches_pattern` of src/file_utils.cpp. npos is 2^64 - 1, and `size_t` wraps around.
use sandrun.Common.{
  ℕ, suc, ◌+◌, ◌-◌, ◌^◌, ◌%◌, ◌<◌, Bool, true, false, not, ◌&&◌, [], ◌∷◌, ◌++◌, ◌≡◌, ◌≢◌, ◌↔◌, refl,
  ap, sym, ◌∙◌, arith, Bytes, codes, ◌==◌, leb, bytes_eq, bytes_eq_refl, bytes_eq_sound,
  take-append-drop, length, take, drop, if◌then◌else◌, none, some, starts_with, take-append,
  drop-append, length-append,
}
use sandrun.Common.Find.{
  index_or_npos, find, find_from, rfind, is_found, Lacks, find_byte, find_byte_none,
}

-- `path.compare(path.size() - suffix.size(), suffix.size(), suffix) == 0`, where the path is as long.
unfoldable pub ends_with : Bytes → Bytes → Bool
ends_with path suffix =
    leb (length suffix) (length path) && bytes_eq (drop (length path - length suffix) path) suffix

-- `path.compare(0, prefix.size(), prefix) == 0`, where the path is as long.
unfoldable pub begins_with : Bytes → Bytes → Bool
begins_with path prefix =
    leb (length prefix) (length path) && bytes_eq (take (length prefix) path) prefix

-- The pattern has its first star at `star_pos`.
unfoldable pub matches_star : ℕ → Bytes → Bytes → Bool
unfolding ends_with begins_with
matches_star star_pos path pattern =
    let behind = drop (suc star_pos) pattern in
    let before = take star_pos pattern in
    if star_pos == 0 && not (is_found (find_from (b'*' ∷ []) 1 pattern))
    then ends_with path (drop 1 pattern)
    else if star_pos == length pattern - 1
    then begins_with path before
    else if star_pos == 0
    then leb (length (drop 1 pattern)) (length path) && is_found (find (drop 1 pattern) path)
    else starts_with before path
      && index_or_npos (rfind behind path) == (length path + 2 ^ 64 - length behind) % 2 ^ 64

unfoldable pub matches_pattern : Bytes → Bytes → Bool
unfolding matches_star
matches_pattern path pattern =
    if bytes_eq pattern (codes "*") then true else (elim (find (b'*' ∷ []) pattern) [
      | none ↦ bytes_eq path pattern
      | some star_pos ↦ matches_star star_pos path pattern
    ])

ends_with_iff :
    (path suffix : Bytes)
    → (ends_with path suffix ≡ true) ↔ ((stem : Bytes) × (path ≡ stem ++ suffix))
unfolding ends_with
ends_with_iff path suffix = (cut, glue)
  where
    cut : ends_with path suffix ≡ true → (stem : Bytes) × (path ≡ stem ++ suffix)
    cut h =
        let n = length path - length suffix in
        let e : drop n path ≡ suffix = bytes_eq_sound (drop n path) suffix (ground arith) in
        (take n path, sym (take-append-drop n path) ∙ ap (◌++◌ (take n path)) e)

    glue : (stem : Bytes) × (path ≡ stem ++ suffix) → ends_with path suffix ≡ true
    glue (stem, e) =
        let len : length path ≡ length stem + length suffix =
          ap length e ∙ length-append stem suffix in
        let n : length path - length suffix ≡ length stem = omega arith in
        let rest : drop (length path - length suffix) path ≡ suffix =
          rw (n, e) (drop-append stem suffix) in
        ground (arith, rest, bytes_eq_refl suffix)

begins_with_iff :
    (path prefix : Bytes)
    → (begins_with path prefix ≡ true) ↔ ((rest : Bytes) × (path ≡ prefix ++ rest))
unfolding begins_with
begins_with_iff path prefix = (cut, glue)
  where
    cut : begins_with path prefix ≡ true → (rest : Bytes) × (path ≡ prefix ++ rest)
    cut h =
        let n = length prefix in
        let e : take n path ≡ prefix = bytes_eq_sound (take n path) prefix (ground arith) in
        (drop n path, sym (take-append-drop n path) ∙ ap (λ t. t ++ drop n path) e)

    glue : (rest : Bytes) × (path ≡ prefix ++ rest) → begins_with path prefix ≡ true
    glue (rest, e) =
        let len : length path ≡ length prefix + length rest =
          ap length e ∙ length-append prefix rest in
        let first : take (length prefix) path ≡ prefix = rw e (take-append prefix rest) in
        ground (arith, first, bytes_eq_refl prefix)

suffix_branch :
    (path suffix : Bytes) (c : ℕ)
    → Lacks b'*' (c ∷ suffix)
    → matches_pattern path (b'*' ∷ c ∷ suffix) ≡ ends_with path (c ∷ suffix)
unfolding matches_pattern bytes_eq find find_from starts_with
suffix_branch path suffix c lacks = ground (arith, find_byte_none b'*' (c ∷ suffix) lacks)

prefix_branch :
    (path prefix : Bytes) (c : ℕ)
    → Lacks b'*' (c ∷ prefix)
    → matches_pattern path ((c ∷ prefix) ++ b'*' ∷ []) ≡ begins_with path (c ∷ prefix)
unfolding matches_pattern bytes_eq
prefix_branch path prefix c lacks = ground (
  arith,
  find_byte b'*' (c ∷ prefix) [] lacks,
  take-append (c ∷ prefix) (b'*' ∷ []),
  length-append (c ∷ prefix) (b'*' ∷ []),
)

-- A pattern of a star and a non-empty suffix without a star matches exactly the paths that end in the suffix.
matches_pattern_suffix :
    (path suffix : Bytes)
    → suffix ≢ []
    → Lacks b'*' suffix
    → (matches_pattern path (b'*' ∷ suffix) ≡ true) ↔ ((stem : Bytes) × (path ≡ stem ++ suffix))
matches_pattern_suffix path [] h lacks = absurd (h refl)
matches_pattern_suffix path (c ∷ suffix) h lacks =
    rw (suffix_branch path suffix c lacks) (ends_with_iff path (c ∷ suffix))

-- A pattern of a non-empty prefix without a star and a star matches exactly the paths that begin with it.
matches_pattern_prefix :
    (path prefix : Bytes)
    → prefix ≢ []
    → Lacks b'*' prefix
    → (matches_pattern path (prefix ++ b'*' ∷ []) ≡ true)
      ↔ ((rest : Bytes) × (path ≡ prefix ++ rest))
matches_pattern_prefix path [] h lacks = absurd (h refl)
matches_pattern_prefix path (c ∷ prefix) h lacks =
    rw (prefix_branch path prefix c lacks) (begins_with_iff path (c ∷ prefix))

starts_with_short : (p s : Bytes) → length s < length p → starts_with p s ≡ false
unfolding starts_with
starts_with_short [] s h = absurd (omega arith)
starts_with_short (x ∷ p) [] h = refl
starts_with_short (x ∷ p) (c ∷ s) h = ground (arith, starts_with_short p s)

rfind_short : (p s : Bytes) → length s < length p → rfind p s ≡ none
unfolding rfind
rfind_short p [] h = rw (starts_with_short p [] h)
rfind_short p (c ∷ s) h =
    rw (rfind_short p s (omega arith), rfind) (rw (starts_with_short p (c ∷ s) h))

drop_behind : (x y : Bytes) (b : ℕ) → drop (suc (length x)) (x ++ b ∷ y) ≡ y
drop_behind [] y b = refl
drop_behind (c ∷ x) y b = drop_behind x y b

star_inside :
    (path before after : Bytes) (c d : ℕ)
    → starts_with (c ∷ before) path ≡ true
    → length (d ∷ after) ≡ suc (length path)
    → length path < 2 ^ 63
    → matches_star (suc (length before)) path ((c ∷ before) ++ b'*' ∷ d ∷ after) ≡ true
unfolding matches_star
star_inside path before after c d starts long small =
    let pattern = (c ∷ before) ++ b'*' ∷ d ∷ after in
    let len : length pattern ≡ length before + length after + 3 =
      omega (arith, length-append (c ∷ before) (b'*' ∷ d ∷ after)) in
    let front : take (suc (length before)) pattern ≡ c ∷ before =
      take-append (c ∷ before) (b'*' ∷ d ∷ after) in
    let back : drop (suc (length before)) (before ++ b'*' ∷ d ∷ after) ≡ d ∷ after =
      drop_behind before (d ∷ after) b'*' in
    let nowhere : rfind (d ∷ after) path ≡ none = rfind_short (d ∷ after) path (omega arith) in
    rw (front, back, nowhere) (ground (arith, len))

not_star :
    (before after : Bytes) (c : ℕ) → bytes_eq ((c ∷ before) ++ b'*' ∷ after) (codes "*") ≡ false
unfolding bytes_eq
not_star [] after c = ground arith
not_star (d ∷ before) after c = ground arith

star_branch :
    (path before after : Bytes) (c : ℕ)
    → Lacks b'*' (c ∷ before)
    → starts_with (c ∷ before) path ≡ true
    → length after ≡ suc (length path)
    → length path < 2 ^ 63
    → matches_pattern path ((c ∷ before) ++ b'*' ∷ after) ≡ true
unfolding matches_pattern
star_branch path before [] c lacks starts long small = absurd (omega arith)
star_branch path before (d ∷ after) c lacks starts long small =
    rw (find_byte b'*' (c ∷ before) (d ∷ after) lacks, not_star before (d ∷ after) c)
      (star_inside path before after c d starts long small)

-- A pattern with its first star inside, behind a non-empty text, matches too much: every path of
-- less than 2^63 bytes that begins with what stands before the star and is one byte shorter than
-- what stands behind it matches, though such a path cannot end in that.
pub matches_pattern_too_long :
    (path before after : Bytes)
    → before ≢ []
    → Lacks b'*' before
    → starts_with before path ≡ true
    → length after ≡ suc (length path)
    → length path < 2 ^ 63
    → (matches_pattern path (before ++ b'*' ∷ after) ≡ true)
      × ((stem : Bytes) → path ≢ stem ++ after)
matches_pattern_too_long path [] after h lacks starts long small = absurd (h refl)
matches_pattern_too_long path (c ∷ before) after h lacks starts long small = (
  star_branch path before after c lacks starts long small,
  λ stem e. absurd (omega (arith, ap length e, length-append stem after)),
)
