-- ===== src/App/Files/Credentials.antt =====
-- Credentials that were written are read back.
use frog_quant.Prelude.{
  ◌≡◌, refl, true, false, [], ◌∷◌, ◌++◌, Text, ◌==◌, All, arith, ap, ◌∙◌, some, All-append,
}
use frog_quant.Strings.{lines_of, starts_with}
use frog_quant.App.Files.{
  Disk, read_credential, read_credentials_file, credentials_text, api_key_prefix, secret_key_prefix,
  write_credentials_file,
}
use frog_quant.App.Files.Written.{write_file-content}

abbrev pub HasNoLineFeed : Text → Type 0
HasNoLineFeed s = All (λ b. (b == 10) ≡ false) s

lines_of-append :
    (line rest : Text) → HasNoLineFeed line → lines_of (line ++ 10 ∷ rest) ≡ line ∷ lines_of rest
unfolding lines_of
lines_of-append [] rest h = refl
lines_of-append (c ∷ line) rest h = rw (h.0, lines_of-append line rest h.1) refl

read_credential-api_key :
    (keys : Text × Text) (api_key : Text)
    → read_credential keys (api_key_prefix ++ api_key) ≡ (api_key, keys.1)
unfolding read_credential starts_with
read_credential-api_key keys api_key = refl

read_credential-secret_key :
    (keys : Text × Text) (secret_key : Text)
    → read_credential keys (secret_key_prefix ++ secret_key) ≡ (keys.0, secret_key)
unfolding read_credential starts_with
read_credential-secret_key keys secret_key = refl

lines_of-credentials_text :
    (api_key secret_key : Text)
    → HasNoLineFeed api_key
    → HasNoLineFeed secret_key
    → lines_of (credentials_text api_key secret_key)
      ≡ (api_key_prefix ++ api_key) ∷ (secret_key_prefix ++ secret_key) ∷ []
unfolding credentials_text lines_of
lines_of-credentials_text api_key secret_key h k =
    lines_of-append (api_key_prefix ++ api_key) (secret_key_prefix ++ secret_key ++ 10 ∷ [])
      (All-append (λ b. (b == 10) ≡ false) (api_key_prefix) api_key (ground arith) h)
    ∙ ap (λ ls. (api_key_prefix ++ api_key) ∷ ls)
        (lines_of-append (secret_key_prefix ++ secret_key) []
          (All-append (λ b. (b == 10) ≡ false) (secret_key_prefix) secret_key (ground arith) k))

read_credentials_file-text :
    (disk : Disk) (path api_key secret_key : Text) (keys : Text × Text)
    → HasNoLineFeed api_key
    → HasNoLineFeed secret_key
    → disk.content path ≡ some (credentials_text api_key secret_key)
    → read_credentials_file disk path keys ≡ ((api_key, secret_key), true)
unfolding read_credentials_file
read_credentials_file-text disk path api_key secret_key keys h k e = ground (
  arith,
  e,
  lines_of-credentials_text api_key secret_key h k,
  read_credential-api_key keys api_key,
  read_credential-secret_key (api_key, keys.1) secret_key,
)

-- Two keys with no line feed in them that are written to a file that can be written are what is
-- read from it afterwards, whatever the keys were before.
pub read-write_credentials_file :
    (disk : Disk) (path api_key secret_key : Text) (keys : Text × Text)
    → disk.is_writable path ≡ true
    → HasNoLineFeed api_key
    → HasNoLineFeed secret_key
    → read_credentials_file (write_credentials_file disk path api_key secret_key).0 path keys
      ≡ ((api_key, secret_key), true)
unfolding write_credentials_file
read-write_credentials_file disk path api_key secret_key keys w h k =
    read_credentials_file-text (write_credentials_file disk path api_key secret_key).0 path api_key
      secret_key keys h k (write_file-content disk path (credentials_text api_key secret_key) w)
