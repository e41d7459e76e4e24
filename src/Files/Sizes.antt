-- ===== src/Files/Sizes.antt =====
-- `format_file_size` of src/file_utils.cpp. The doubles and their printing with one decimal are a
-- parameter.
use sandrun.Common.{ℕ, Bool, List, [], ◌∷◌, ◌++◌, Bytes, codes, if◌then◌else◌}

pub record SizeDouble (F : Type 0) : Type 0 where
  pub of_bytes : ℕ → F
  pub at_least_1024 : F → Bool
  pub by_1024 : F → F
  pub to_fixed_1 : F → Bytes

module _ {F : Type 0} (d : SizeDouble F) where
  -- The loop, with the unit and the larger ones; the last unit takes what is left.
  unfoldable pub format_from : F → Bytes → List Bytes → Bytes
  format_from size unit [] = d.to_fixed_1 size ++ (b' ' ∷ unit)
  format_from size unit (next ∷ larger) =
      let divided = format_from (d.by_1024 size) next larger in
      if d.at_least_1024 size then divided else d.to_fixed_1 size ++ (b' ' ∷ unit)

  unfoldable pub format_file_size : ℕ → Bytes
  unfolding format_from
  format_file_size bytes =
      format_from (d.of_bytes bytes) (codes "B")
        (codes "KB" ∷ codes "MB" ∷ codes "GB" ∷ codes "TB" ∷ [])
