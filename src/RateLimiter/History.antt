-- ===== src/RateLimiter/History.antt =====
-- What the clean-up of src/rate_limiter.cpp drops is no longer counted by the checks.
use sandrun.Common.{ℕ, suc, List, [], ◌∷◌, ◌++◌, ◌≡◌, refl, arith}
use sandrun.RateLimiter.{Double, drop_usage, drop_submissions, jobs_since, used_since}

pub jobs_since-drop_submissions :
    (now : ℕ) (times : List ℕ) → jobs_since now (drop_submissions now times) ≡ jobs_since now times
unfolding jobs_since drop_submissions
jobs_since-drop_submissions now [] = refl
jobs_since-drop_submissions now (time ∷ times) =
    ground (arith, jobs_since-drop_submissions now times)

pub jobs_since-append :
    (now : ℕ) (times : List ℕ) → jobs_since now (times ++ now ∷ []) ≡ suc (jobs_since now times)
unfolding jobs_since
jobs_since-append now [] = ground arith
jobs_since-append now (time ∷ times) = ground (arith, jobs_since-append now times)

pub used_since-drop_usage :
    {F : Type 0} (d : Double F) (now : ℕ) (used : F) (history : List (ℕ × F))
    → used_since d now used (drop_usage now history) ≡ used_since d now used history
unfolding used_since drop_usage
used_since-drop_usage d now used [] = refl
used_since-drop_usage d now used ((time, cpu) ∷ history) =
    ground (arith, used_since-drop_usage d now used history)
