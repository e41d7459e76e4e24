-- ===== src/Json/Tests.antt =====
-- The theorems on JSON in src/main.cpp at inputs.
use sandrun.Common.{◌<◌, [], ◌∷◌, ◌++◌, ◌≡◌, arith, some, Bytes, codes, All}
use sandrun.Json.{json_escape}
use sandrun.Json.Escape.{read_string, plain, code_points, utf8, read_string-json_escape}

-- A quote, a newline and a byte of a name in UTF-8.
abbrev log : Bytes
log = b'"' ∷ 10 ∷ 195 ∷ []

abbrev log-IsByte : All (λ c. c < 256) log
log-IsByte = (omega arith, (omega arith, (omega arith, tt)))

read_string-json_escape_example :
    read_string plain (json_escape log ++ b'"' ∷ codes "}")
    ≡ some (b'"' ∷ 10 ∷ 195 ∷ 131 ∷ [], codes "}")
unfolding code_points utf8
read_string-json_escape_example = read_string-json_escape log (codes "}") log-IsByte
