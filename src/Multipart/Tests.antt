-- ===== src/Multipart/Tests.antt =====
-- The theorems on src/multipart.cpp at inputs.
use sandrun.Common.{false, [], ◌∷◌, ◌≡◌, refl, Bytes, codes, starts_with, ok, insert, bytes_eq}
use sandrun.Common.Find.{find, find_from}
use sandrun.Http.Lines.{split_lines}
use sandrun.Multipart.{MultipartPart, parse}
use sandrun.Multipart.Totality.{runs_out, parse-ends}

abbrev form : Bytes
form = codes "--ab\r\nContent-Disposition: form-data; name=\"manifest\"\r\n\r\n{}\r\n--ab--\r\n"

parse-ends_example : runs_out (parse (codes "multipart/form-data; boundary=ab") form) ≡ false
parse-ends_example = parse-ends (codes "multipart/form-data; boundary=ab") form

-- One part comes out of the form.
abbrev manifest : MultipartPart
manifest = record {
  headers = (codes "Content-Disposition", codes "form-data; name=\"manifest\"") ∷ [];
  name = codes "manifest";
  filename = [];
  data_bytes = codes "{}";
}

form_is_parsed : parse (codes "multipart/form-data; boundary=ab") form ≡ ok (manifest ∷ [])
unfolding parse find find_from starts_with split_lines insert bytes_eq
form_is_parsed = refl
