-- ===== src/Jobs/Ids.antt =====
-- The ids of jobs in src/main.cpp.
use sandrun.Common.{ℕ, suc, [], ◌∷◌, ◌++◌, ◌≡◌, refl, ap, sym, ◌∙◌, arith, Bytes, inr, drop}
use sandrun.Common.Decimal.{to_string, to_string-Lacks, read_digits, read-to_string}
use sandrun.Common.Find.{Lacks}
use sandrun.Jobs.{generate_job_id}

-- The parts around the first `b` are determined by the text.
split_byte :
    (b : ℕ) (x y z w : Bytes) → Lacks b x → Lacks b z → x ++ b ∷ y ≡ z ++ b ∷ w → (x ≡ z) × (y ≡ w)
split_byte b [] y [] w hx hz e = (refl, cc)
split_byte b [] y (c ∷ z) w hx hz e = let same : b ≡ c = cc in absurd (hz.0 (sym same))
split_byte b (c ∷ x) y [] w hx hz e = let same : c ≡ b = cc in absurd (hx.0 same)
split_byte b (c ∷ x) y (d ∷ z) w hx hz e =
    let same : c ≡ d = cc in
    let tails : x ++ b ∷ y ≡ z ++ b ∷ w = cc in
    let rest = split_byte b x y z w hx.1 hz.1 tails in (cc (same, rest.0), rest.1)

to_string-inj : (m n : ℕ) → to_string m ≡ to_string n → m ≡ n
to_string-inj m n e = sym (read-to_string m) ∙ ap (read_digits 0) e ∙ read-to_string n

-- Two ids are the same only if they were made at the same time from the same counter, so ids of
-- different counters differ.
pub generate_job_id-inj :
    (now later counter other : ℕ)
    → (generate_job_id now counter).0 ≡ (generate_job_id later other).0
    → (now ≡ later) × (counter ≡ other)
unfolding generate_job_id
generate_job_id-inj now later counter other e =
    let (times, counters) =
      split_byte b'_' (to_string now) (to_string (suc counter)) (to_string later)
        (to_string (suc other)) (to_string-Lacks b'_' now (inr (omega arith)))
        (to_string-Lacks b'_' later (inr (omega arith))) (ap (drop 4) e) in
    let next : suc counter ≡ suc other = to_string-inj (suc counter) (suc other) counters in
    (to_string-inj now later times, omega arith)
