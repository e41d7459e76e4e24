-- ===== src/Proof/Json.antt =====
-- `calculate_hash` and `to_json` of src/proof.cpp. `show` formats a double and `utc` a time.
use sandrun.Common.{ℕ, List, [], ◌∷◌, ◌++◌, Bytes, codes}
use sandrun.Common.Decimal.{to_string}
use sandrun.Proof.{ProofOfCompute}

concat_all : List Bytes → Bytes
concat_all [] = []
concat_all (hash ∷ hashes) = hash ++ concat_all hashes

quoted : Bytes → Bytes
quoted text = b'"' ∷ (text ++ b'"' ∷ [])

-- The quoted hashes with commas between them.
separated : List Bytes → Bytes
separated [] = []
separated (hash ∷ hashes) = codes ", " ++ (quoted hash ++ separated hashes)

hash_list : List Bytes → Bytes
unfolding separated quoted
hash_list [] = []
hash_list (hash ∷ hashes) = quoted hash ++ separated hashes

-- A line of the object, with its comma.
field_line : Bytes → Bytes → Bytes
field_line name value = codes "  \"" ++ (name ++ (codes "\": " ++ (value ++ codes ",\n")))

module _ {F : Type 0} (sha256 : Bytes → Bytes) (show : F → Bytes) (utc : ℕ → Bytes) where
  pub calculate_hash : ProofOfCompute F → Bytes
  unfolding concat_all
  calculate_hash p = sha256 (
      p.job_id
      ++ (p.code_hash
          ++ (p.input_hash
              ++ (p.output_hash
                  ++ (p.execution_hash
                      ++ (concat_all p.checkpoint_hashes
                          ++ (show p.cpu_time
                              ++ (show p.gpu_time
                                  ++ (to_string p.memory_peak ++ to_string p.syscall_count)))))))))

  pub to_json : ProofOfCompute F → Bytes
  unfolding calculate_hash hash_list field_line quoted
  to_json p =
      codes "{\n"
      ++ (field_line (codes "job_id") (quoted p.job_id)
          ++ (field_line (codes "code_hash") (quoted p.code_hash)
              ++ (field_line (codes "input_hash") (quoted p.input_hash)
                  ++ (field_line (codes "output_hash") (quoted p.output_hash)
                      ++ (field_line (codes "execution_hash") (quoted p.execution_hash)
                          ++ (field_line (codes "checkpoint_hashes")
                                (b'[' ∷ (hash_list p.checkpoint_hashes ++ b']' ∷ []))
                              ++ (field_line (codes "cpu_time") (show p.cpu_time)
                                  ++ (field_line (codes "gpu_time") (show p.gpu_time)
                                      ++ (field_line (codes "memory_peak") (to_string p.memory_peak)
                                          ++ (field_line (codes "syscall_count")
                                                (to_string p.syscall_count)
                                              ++ (field_line (codes "timestamp")
                                                    (quoted (utc p.timestamp))
                                                  ++ (codes "  \"proof_hash\": "
                                                      ++ (quoted (calculate_hash p)
                                                          ++ codes "\n}")))))))))))))
