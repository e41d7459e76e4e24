-- ===== src/Files/Tables.antt =====
-- The tables of src/file_utils.h and src/file_utils.cpp. An extension that is listed twice keeps its
-- first entry, as in the constructor of std::map.
use sandrun.Common.{List, [], ◌∷◌, Bytes, codes}

-- DATA is `dataset`, since `data` is a reserved word.
pub data FileType : Type 0 where
  image model video audio dataset text archive code document other : FileType

unfoldable pub extension_map : List (Bytes × FileType)
extension_map =
    (codes ".png", image)
    ∷ (codes ".jpg", image)
    ∷ (codes ".jpeg", image)
    ∷ (codes ".gif", image)
    ∷ (codes ".bmp", image)
    ∷ (codes ".webp", image)
    ∷ (codes ".svg", image)
    ∷ (codes ".tiff", image)
    ∷ (codes ".ico", image)
    ∷ (codes ".pt", model)
    ∷ (codes ".pth", model)
    ∷ (codes ".safetensors", model)
    ∷ (codes ".onnx", model)
    ∷ (codes ".h5", model)
    ∷ (codes ".pb", model)
    ∷ (codes ".ckpt", model)
    ∷ (codes ".pkl", model)
    ∷ (codes ".joblib", model)
    ∷ (codes ".mp4", video)
    ∷ (codes ".avi", video)
    ∷ (codes ".mov", video)
    ∷ (codes ".mkv", video)
    ∷ (codes ".webm", video)
    ∷ (codes ".flv", video)
    ∷ (codes ".wmv", video)
    ∷ (codes ".mp3", audio)
    ∷ (codes ".wav", audio)
    ∷ (codes ".flac", audio)
    ∷ (codes ".ogg", audio)
    ∷ (codes ".m4a", audio)
    ∷ (codes ".aac", audio)
    ∷ (codes ".csv", dataset)
    ∷ (codes ".json", dataset)
    ∷ (codes ".parquet", dataset)
    ∷ (codes ".npy", dataset)
    ∷ (codes ".npz", dataset)
    ∷ (codes ".hdf5", dataset)
    ∷ (codes ".h5", dataset)
    ∷ (codes ".feather", dataset)
    ∷ (codes ".arrow", dataset)
    ∷ (codes ".txt", text)
    ∷ (codes ".log", text)
    ∷ (codes ".md", text)
    ∷ (codes ".rst", text)
    ∷ (codes ".zip", archive)
    ∷ (codes ".tar", archive)
    ∷ (codes ".gz", archive)
    ∷ (codes ".tgz", archive)
    ∷ (codes ".bz2", archive)
    ∷ (codes ".7z", archive)
    ∷ (codes ".py", code)
    ∷ (codes ".cpp", code)
    ∷ (codes ".c", code)
    ∷ (codes ".h", code)
    ∷ (codes ".hpp", code)
    ∷ (codes ".js", code)
    ∷ (codes ".ts", code)
    ∷ (codes ".rs", code)
    ∷ (codes ".go", code)
    ∷ (codes ".java", code)
    ∷ (codes ".sh", code)
    ∷ (codes ".pdf", document)
    ∷ (codes ".docx", document)
    ∷ (codes ".xlsx", document)
    ∷ (codes ".pptx", document)
    ∷ []

unfoldable pub mime_type_map : List (Bytes × Bytes)
mime_type_map =
    (codes ".png", codes "image/png")
    ∷ (codes ".jpg", codes "image/jpeg")
    ∷ (codes ".jpeg", codes "image/jpeg")
    ∷ (codes ".gif", codes "image/gif")
    ∷ (codes ".bmp", codes "image/bmp")
    ∷ (codes ".webp", codes "image/webp")
    ∷ (codes ".svg", codes "image/svg+xml")
    ∷ (codes ".mp4", codes "video/mp4")
    ∷ (codes ".avi", codes "video/x-msvideo")
    ∷ (codes ".mov", codes "video/quicktime")
    ∷ (codes ".mkv", codes "video/x-matroska")
    ∷ (codes ".webm", codes "video/webm")
    ∷ (codes ".mp3", codes "audio/mpeg")
    ∷ (codes ".wav", codes "audio/wav")
    ∷ (codes ".ogg", codes "audio/ogg")
    ∷ (codes ".csv", codes "text/csv")
    ∷ (codes ".json", codes "application/json")
    ∷ (codes ".txt", codes "text/plain")
    ∷ (codes ".md", codes "text/markdown")
    ∷ (codes ".log", codes "text/plain")
    ∷ (codes ".zip", codes "application/zip")
    ∷ (codes ".tar", codes "application/x-tar")
    ∷ (codes ".gz", codes "application/gzip")
    ∷ (codes ".py", codes "text/x-python")
    ∷ (codes ".js", codes "application/javascript")
    ∷ (codes ".cpp", codes "text/x-c++")
    ∷ (codes ".c", codes "text/x-c")
    ∷ (codes ".h", codes "text/x-c")
    ∷ (codes ".pdf", codes "application/pdf")
    ∷ (codes ".pt", codes "application/octet-stream")
    ∷ (codes ".pth", codes "application/octet-stream")
    ∷ (codes ".onnx", codes "application/octet-stream")
    ∷ []

-- `file_type_to_string`: the table has every type.
unfoldable pub file_type_to_string : FileType → Bytes
file_type_to_string image = codes "image"
file_type_to_string model = codes "model"
file_type_to_string video = codes "video"
file_type_to_string audio = codes "audio"
file_type_to_string dataset = codes "data"
file_type_to_string text = codes "text"
file_type_to_string archive = codes "archive"
file_type_to_string code = codes "code"
file_type_to_string document = codes "document"
file_type_to_string other = codes "other"
