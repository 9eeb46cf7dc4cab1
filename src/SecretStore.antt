-- ===== src/SecretStore.antt =====
-- `SecretStore` of src/blink_dashboard/secret_store.py: the envelope of the encrypted file, and its
-- replacement. The protector and JSON are parameters.
pub mod Laws
use blink_battery_benchmark.Common.{
  ℕ, zero, suc, ◌+◌, ◌-◌, ◌*◌, Bool, true, false, not, Option, none, some, List, [], ◌∷◌, ◌++◌, ltb,
  ◌==◌, take, drop, length, if◌then◌else◌,
}
use blink_battery_benchmark.Text.{Bytes, Text, codes, text_eq}

-- `MAGIC`
abbrev pub magic : Bytes
magic = codes "BLINK-AUTH-DPAPI" ++ 0 ∷ []

-- `FORMAT_VERSION`
abbrev pub format_version : ℕ
format_version = 1

-- the four bytes of a big-endian unsigned integer below 256, as `_HEADER` packs it
abbrev pub small_be32 : ℕ → Bytes
small_be32 n = 0 ∷ 0 ∷ 0 ∷ n ∷ []

-- what `_HEADER` unpacks from four bytes
abbrev pub be32 : Bytes → ℕ
be32 (a ∷ b ∷ c ∷ d ∷ rest) = ((a * 256 + b) * 256 + c) * 256 + d
be32 _ = 0

-- `_HEADER.size`
abbrev pub header_size : ℕ
header_size = 21

-- The file, and the number of temporary files beside it.
pub record Disk : Type 0 where
  pub file : Option Bytes
  pub temporary : ℕ

-- the call of `save` that raises `OSError`, if one does
pub data Trouble : Type 0 where
  in_mkdir in_mkstemp in_write in_replace : Trouble

-- the exceptions: `SecretStoreError` and its subclass `SecretStoreCorrupt`, with their texts
pub data Failure : Type 0 where
  store_error corrupt : Text → Failure

pub data Saved : Type 0 where
  saved : Saved
  save_failed : Failure → Saved

module _ (Payload : Type 0) where
  -- the JSON object that is encrypted, as `load` reads it: with what the two keys hold, the second if
  -- it is an object
  pub record Document : Type 0 where
    pub schema_version : Option ℕ
    pub payload : Option Payload

  -- what `json.loads` of the decoded bytes gives
  pub data Parsed : Type 0 where
    malformed not_object : Parsed
    object : Document → Parsed

  -- what `load` returns or raises
  pub data Loaded : Type 0 where
    absent : Loaded
    loaded : Payload → Loaded
    load_failed : Failure → Loaded

  -- The backend: `none` is the protector's own exception, and bytes that are not serializable.
  pub record Backend : Type 0 where
    pub protect : Bytes → Option Bytes
    pub unprotect : Bytes → Option Bytes
    pub dumps : Document → Option Bytes
    pub loads : Bytes → Parsed
    pub protect_error : Failure
    pub unprotect_error : Failure

-- `os.unlink` on the temporary file
abbrev pub unlink_temporary : Disk → Disk
unlink_temporary d = record d { temporary = d.temporary - 1 }

module _ {Payload : Type 0} (backend : Backend Payload) where
  abbrev pub payload_or : Option Payload → Loaded Payload
  payload_or none =
      load_failed (corrupt (codes "The decrypted credential payload is not an object."))
  payload_or (some p) = loaded p

  abbrev pub is_current : Option ℕ → Bool
  is_current none = false
  is_current (some version) = version == format_version

  abbrev pub from_document : Parsed Payload → Loaded Payload
  from_document malformed =
      load_failed (corrupt (codes "The decrypted credential payload is invalid."))
  from_document not_object =
      load_failed (corrupt (codes "The decrypted credential payload has an invalid schema."))
  from_document (object d) =
      if is_current d.schema_version
      then payload_or d.payload
      else load_failed (corrupt (codes "The decrypted credential payload has an invalid schema."))

  abbrev pub from_plaintext : Option Bytes → Loaded Payload
  from_plaintext none = load_failed backend.unprotect_error
  from_plaintext (some plaintext) = from_document (backend.loads plaintext)

  -- the lines of `load` after the file is read
  abbrev pub from_encoded : Bytes → Loaded Payload
  from_encoded encoded =
      if ltb (length encoded) header_size
      then load_failed (corrupt (codes "The encrypted credential store is truncated."))
      else if not (text_eq (take 17 encoded) magic)
      then load_failed (corrupt (codes "The encrypted credential store has an invalid header."))
      else if not (be32 (drop 17 encoded) == format_version)
      then load_failed (corrupt (codes "Unsupported encrypted credential format version"))
      else from_plaintext (backend.unprotect (drop header_size encoded))

  abbrev pub from_file : Option Bytes → Loaded Payload
  from_file none = absent
  from_file (some encoded) = from_encoded encoded

  -- `load`, of a file that can be read if it is there
  unfoldable pub load : Disk → Loaded Payload
  unfolding text_eq
  load d = from_file d.file

  abbrev pub document_of : Payload → Document Payload
  document_of p = record { schema_version = some format_version; payload = some p }

  abbrev pub save_error : Text → Saved
  save_error text = save_failed (store_error text)

  -- A temporary file that is left is unlinked; `os.replace` moves the new one over the old.
  abbrev pub replace_file : Option Trouble → Bytes → Disk → Saved × Disk
  replace_file (some in_mkdir) envelope d =
      (save_error (codes "Unable to create the private credential directory."), d)
  replace_file (some in_mkstemp) envelope d =
      (save_error (codes "Unable to atomically save encrypted credentials."), d)
  replace_file (some in_write) envelope d =
      let made = record d { temporary = suc d.temporary } in
      (save_error (codes "Unable to atomically save encrypted credentials."), unlink_temporary made)
  replace_file (some in_replace) envelope d =
      let made = record d { temporary = suc d.temporary } in
      (save_error (codes "Unable to atomically save encrypted credentials."), unlink_temporary made)
  replace_file none envelope d =
      let made = record d { temporary = suc d.temporary } in
      (saved, record made { file = some envelope; temporary = made.temporary - 1 })

  abbrev pub save_ciphertext : Option Trouble → Option Bytes → Disk → Saved × Disk
  save_ciphertext trouble none d = (save_failed backend.protect_error, d)
  save_ciphertext trouble (some ciphertext) d =
      replace_file trouble (magic ++ (small_be32 format_version ++ ciphertext)) d

  abbrev pub save_plaintext : Option Trouble → Option Bytes → Disk → Saved × Disk
  save_plaintext trouble none d =
      (save_error (codes "Credential payload is not JSON serializable."), d)
  save_plaintext trouble (some plaintext) d = save_ciphertext trouble (backend.protect plaintext) d

  unfoldable pub save : Payload → Option Trouble → Disk → Saved × Disk
  save p trouble d = save_plaintext trouble (backend.dumps (document_of p)) d
