-- ===== src/Submit/Saved.antt =====
-- Saving the uploaded files of src/main.cpp throws nothing, and a file of the web frontend comes
-- back as it was sent.
use sandrun.Common.{
  ℕ, zero, suc, ◌-◌, ◌+◌, ◌≤◌, ◌%◌, ◌^◌, true, false, not, ◌&&◌, starts_with, take-append_at,
  length-append, ◌<◌, drop, any, ◌==◌, List, [], ◌∷◌, ◌++◌, none, some, Bytes, codes, ◌≡◌, ◌≢◌,
  refl, ap, ◌∙◌, arith, length, leb, ok, err, Error, inl, inr, Option-cases, Bool-cases,
  Outcome-cases, is_empty, bytes_eq,
}
use sandrun.Common.Find.{find, find_from, find_bound, find_from_byte, Lacks, index_or_npos}
use sandrun.Multipart.{MultipartPart}
use sandrun.Submit.{Storage}
use sandrun.Submit.Upload.{plus, is_front, fake_tar, save_file, save_parts, save_files}

-- Where the text is missing, npos wraps around to a position near the front.
plus_find_bound :
    (p s : Bytes) (n : ℕ)
    → n ≤ length p
    → 1 ≤ n
    → n ≤ 6
    → 6 ≤ length s
    → leb (plus (index_or_npos (find p s)) n) (length s) ≡ true
plus_find_bound p s n small some_n few long = elim (Option-cases (find p s)) [
  | inl e ↦ rw e (ground arith)
  | inr (i, e) ↦ rw e (ground (arith, find_bound p s i e))
]

fake_tar-no_error : (text : Bytes) (e : Error) → 6 ≤ length text → fake_tar text ≢ err e
unfolding fake_tar
fake_tar-no_error text e long h =
    let path =
      plus_find_bound (codes "Path: ") text 6 (omega arith) (omega arith) (omega arith) long in
    let content =
      plus_find_bound (codes "\n\n") text 2 (omega arith) (omega arith) (omega arith) long in
    cc (rw (path, content, fake_tar) at h)

is_front-long : (p s : Bytes) → is_front (find p s) ≡ true → length p ≤ length s
is_front-long p s h = elim (Option-cases (find p s)) [
  | inl e ↦ absurd (cc (rw e at h))
  | inr (i, e) ↦ omega (arith, find_bound p s i e)
]

-- A line that is not followed by an empty one is passed.
skip_line :
    (line next : Bytes) (i : ℕ)
    → Lacks b'\n' line
    → starts_with (b'\n' ∷ []) next ≡ false
    → find (codes "\n\n") next ≡ some i
    → find (codes "\n\n") (line ++ b'\n' ∷ next) ≡ some (length line + 1 + i)
unfolding find starts_with
skip_line [] next i h front e = ground arith
skip_line (c ∷ line) next i h front e = ground (arith, skip_line line next i h.1 front e)

end_line :
    (line rest : Bytes)
    → Lacks b'\n' line
    → find (codes "\n\n") (line ++ b'\n' ∷ b'\n' ∷ rest) ≡ some (length line)
unfolding find starts_with
end_line [] rest h = refl
end_line (c ∷ line) rest h = ground (arith, end_line line rest h.1)

-- A file as the frontend's format writes it.
pub frontend_file : Bytes → Bytes → Bytes → Bytes
frontend_file filename size content =
    codes "----Tar\nPath: "
    ++ (filename ++ (b'\n' ∷ (codes "Size: " ++ (size ++ (b'\n' ∷ b'\n' ∷ content)))))

pub lacks : (b : ℕ) (x : Bytes) → any (λ c. c == b) x ≡ false → Lacks b x
lacks b [] h = tt
lacks b (c ∷ x) h = (ground arith, lacks b x (ground arith))

Lacks-append : (b : ℕ) (x y : Bytes) → Lacks b x → Lacks b y → Lacks b (x ++ y)
Lacks-append b [] y hx hy = hy
Lacks-append b (c ∷ x) y (h, hx) hy = (h, Lacks-append b x y hx hy)

frontend_file-length :
    (filename size content : Bytes)
    → length (frontend_file filename size content)
      ≡ 23 + length filename + length size + length content
unfolding frontend_file
frontend_file-length filename size content = omega (
  arith,
  length-append filename (b'\n' ∷ (codes "Size: " ++ (size ++ (b'\n' ∷ b'\n' ∷ content)))),
  length-append size (b'\n' ∷ b'\n' ∷ content),
)

frontend_file-path :
    (filename size content : Bytes)
    → find (codes "Path: ") (frontend_file filename size content) ≡ some 8
unfolding find starts_with frontend_file
frontend_file-path filename size content = refl

frontend_file-filename :
    (filename size content : Bytes)
    → Lacks b'\n' filename
    → find_from (b'\n' ∷ []) 14 (frontend_file filename size content) ≡ some (14 + length filename)
unfolding frontend_file
frontend_file-filename filename size content h =
    find_from_byte b'\n' (codes "----Tar\nPath: ") filename _ h

frontend_file-content :
    (filename size content : Bytes)
    → Lacks b'\n' filename
    → Lacks b'\n' size
    → find (codes "\n\n") (frontend_file filename size content)
      ≡ some (7 + 1 + (6 + length filename + 1 + (6 + length size)))
unfolding frontend_file starts_with
frontend_file-content filename size content hf hs =
    let line_3 = Lacks-append b'\n' (codes "Size: ") size (lacks b'\n' (codes "Size: ") refl) hs in
    let line_2 =
      Lacks-append b'\n' (codes "Path: ") filename (lacks b'\n' (codes "Path: ") refl) hf in
    let sized = end_line (codes "Size: " ++ size) content line_3 in
    let below = codes "Size: " ++ (size ++ (b'\n' ∷ b'\n' ∷ content)) in
    let named = skip_line (codes "Path: " ++ filename) below _ line_2 refl sized in
    skip_line (codes "----Tar") (codes "Path: " ++ (filename ++ b'\n' ∷ below)) _
      (lacks b'\n' (codes "----Tar") refl) refl named
    ∙ ap some (omega arith)

drop_behind : (xs ys : Bytes) (n m : ℕ) → m ≡ length xs + n → drop m (xs ++ ys) ≡ drop n ys
drop_behind [] ys n m e = rw (e) (ap (λ k. drop k ys) (omega arith))
drop_behind (x ∷ xs) ys n zero e = absurd (omega arith)
drop_behind (x ∷ xs) ys n (suc m) e = drop_behind xs ys n m (omega arith)

frontend_file-drop :
    (filename size content : Bytes) (m : ℕ)
    → m ≡ 23 + length filename + length size
    → drop m (frontend_file filename size content) ≡ content
unfolding frontend_file
frontend_file-drop filename size content m e =
    drop_behind (codes "----Tar\nPath: ") _ (length filename + (7 + (length size + 2))) m
      (omega arith)
    ∙ drop_behind filename _ (7 + (length size + 2)) _ refl
    ∙ drop_behind (codes "\nSize: ") _ (length size + 2) _ refl
    ∙ drop_behind size (b'\n' ∷ b'\n' ∷ content) 2 _ refl

-- A file in the frontend's format comes back with its name and its content, if the name and the
-- size are one line each and the text is shorter than 2^63.
pub fake_tar-frontend_file :
    (filename size content : Bytes)
    → Lacks b'\n' filename
    → Lacks b'\n' size
    → length filename + length size + 23 < 2 ^ 63
    → fake_tar (frontend_file filename size content) ≡ ok (filename, content)
unfolding fake_tar frontend_file
fake_tar-frontend_file filename size content hf hs small =
    let text = frontend_file filename size content in
    let long = frontend_file-length filename size content in
    let name_lem =
      take-append_at ((14 + length filename + 2 ^ 64 - 14) % 2 ^ 64) filename
        (b'\n' ∷ (codes "Size: " ++ (size ++ (b'\n' ∷ b'\n' ∷ content)))) (omega arith) in
    let content_start = (7 + 1 + (6 + length filename + 1 + (6 + length size)) + 2) % 2 ^ 64 in
    let content_lem = frontend_file-drop filename size content content_start (omega arith) in
    let room : leb 14 (length text) ≡ true = ground (arith, long) in
    let room_content : leb content_start (length text) ≡ true = ground (arith, long) in
    rw
      (
        frontend_file-path filename size content,
        frontend_file-filename filename size content hf,
        frontend_file-content filename size content hf hs,
        fake_tar,
        room,
        room_content,
        content_lem,
      )
      (rw (name_lem) refl)

module _ {W : Type 0} (disk : Storage W) where
  save_file-none :
      (dir : Bytes) (part : MultipartPart) (w : W) → (save_file disk dir part w).1 ≡ none
  unfolding save_file
  save_file-none dir part w =
      elim (Bool-cases (bytes_eq part.name (codes "files") && not (is_empty part.filename))) [
        | inr e ↦ rw e refl
        | inl e ↦ elim (Bool-cases (is_front (find (codes "----Tar\nPath:") part.data_bytes))) [
          | inr f ↦ rw (e, f) refl
          | inl f ↦ elim (Outcome-cases (fake_tar part.data_bytes)) [
            | inl (file, g) ↦ rw (e, f, g) refl
            | inr (x, g) ↦
                let long = is_front-long (codes "----Tar\nPath:") part.data_bytes f in
                absurd (fake_tar-no_error part.data_bytes x (omega (arith, long)) g)
          ]
        ]
      ]

  save_parts-none :
      (dir : Bytes) (parts : List MultipartPart) (w : W) → (save_parts disk dir parts w).1 ≡ none
  unfolding save_parts
  save_parts-none dir [] w = refl
  save_parts-none dir (part ∷ parts) w =
      rw (save_file-none dir part w, save_parts)
        (save_parts-none dir parts (save_file disk dir part w).0)

  -- Saving the uploaded files throws nothing, whatever they hold.
  pub save_files-none :
      (dir : Bytes) (parts : List MultipartPart) (w : W) → (save_files disk dir parts w).1 ≡ none
  unfolding save_files
  save_files-none dir parts w = save_parts-none dir parts (disk.create_directories dir w)
