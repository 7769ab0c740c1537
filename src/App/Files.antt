-- ===== src/App/Files.antt =====
-- The files that app/app_support.cpp reads and writes, and the file with the credentials.
pub mod Written
pub mod Credentials
use frog_quant.Prelude.{
  ℕ, Bool, true, false, Option, none, some, List, [], ◌∷◌, ◌++◌, Text, bytes, if◌then◌else◌,
  text_eq, drop, foldl,
}
use frog_quant.Strings.{starts_with, lines_of}

-- The file system: what a path holds, if it can be read, and whether it can be opened for writing
-- (its folder was made, or stood there).
pub record Disk : Type 0 where
  pub content : Text → Option Text
  pub is_writable : Text → Bool

-- An output stream that truncates; `false` if it could not be opened.
unfoldable pub write_file : Text → Text → Disk → Disk × Bool
write_file path text disk =
    if disk.is_writable path
    then (record disk { content = λ p. if text_eq path p then some text else disk.content p }, true)
    else (disk, false)

abbrev pub api_key_prefix : Text
api_key_prefix = bytes "BINANCE_TESTNET_API_KEY="

abbrev pub secret_key_prefix : Text
secret_key_prefix = bytes "BINANCE_TESTNET_SECRET_KEY="

-- What one line of the file makes of the two keys. It can set only one: the prefixes differ.
unfoldable pub read_credential : Text × Text → Text → Text × Text
unfolding starts_with
read_credential (api_key, secret_key) line = (
  if starts_with api_key_prefix line then drop 24 line else api_key,
  if starts_with secret_key_prefix line then drop 27 line else secret_key,
)

-- The keys that are found replace those given; `false` if the file cannot be read.
unfoldable pub read_credentials_file : Disk → Text → Text × Text → (Text × Text) × Bool
unfolding read_credential lines_of
read_credentials_file disk path keys = elim (disk.content path) [
  | none ↦ (keys, false)
  | some text ↦ (foldl read_credential keys (lines_of text), true)
]

unfoldable pub credentials_text : Text → Text → Text
credentials_text api_key secret_key =
    api_key_prefix ++ api_key ++ 10 ∷ (secret_key_prefix ++ secret_key ++ 10 ∷ [])

unfoldable pub write_credentials_file : Disk → Text → Text → Text → Disk × Bool
unfolding write_file credentials_text
write_credentials_file disk path api_key secret_key =
    write_file path (credentials_text api_key secret_key) disk

-- Opening for appending creates nothing that a later reader sees as content.
unfoldable pub path_writable_probe : Disk → Text → Bool
path_writable_probe disk path = disk.is_writable path
