-- ===== src/Sandbox/Pipe.antt =====
-- `read_pipe_nonblocking` and `read_pipe` of src/sandbox.cpp. A pipe is the list of what its reads
-- return until one returns nothing; both leave it empty.
use sandrun.Common.{
  ℕ, ◌+◌, ◌-◌, List, [], ◌∷◌, ◌++◌, Bytes, codes, ltb, if◌then◌else◌, length, take,
}
use sandrun.Common.Find.{find, is_found}
use sandrun.Sandbox.{max_output_size}

abbrev pub truncation_msg : Bytes
truncation_msg = codes "\n[Output truncated at 10MB limit]"

unfoldable pub effective_limit : ℕ
effective_limit = max_output_size - length truncation_msg - 1

-- The reading loop. Where a chunk does not fit, what still fits of it, the message, and no more.
unfoldable pub read_chunks : List Bytes → Bytes → Bytes
read_chunks [] buffer = buffer
read_chunks (chunk ∷ chunks) buffer =
    let rest = read_chunks chunks (buffer ++ chunk) in
    if ltb effective_limit (length buffer + length chunk)
    then (buffer ++ take (effective_limit - length buffer) chunk) ++ truncation_msg
    else rest

-- A buffer with the word `truncated` in it takes nothing more.
unfoldable pub read_pipe_nonblocking : List Bytes → Bytes → Bytes
read_pipe_nonblocking chunks buffer =
    if is_found (find (codes "truncated") buffer) then buffer else read_chunks chunks buffer

-- `read_pipe` behind `total_read` bytes.
unfoldable pub read_pipe_from : List Bytes → ℕ → Bytes → Bytes
read_pipe_from [] total_read result = result
read_pipe_from (chunk ∷ chunks) total_read result =
    let rest = read_pipe_from chunks (total_read + length chunk) (result ++ chunk) in
    if ltb max_output_size (total_read + length chunk)
    then (result ++ take (max_output_size - total_read) chunk) ++ truncation_msg
    else rest

unfoldable pub read_pipe : List Bytes → Bytes
unfolding read_pipe_from
read_pipe chunks = read_pipe_from chunks 0 []
