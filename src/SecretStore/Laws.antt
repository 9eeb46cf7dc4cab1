-- ===== src/SecretStore/Laws.antt =====
-- What the secret store saves it loads again, and a save that fails leaves the disk as it was.
use blink_battery_benchmark.Common.{
  suc, ◌-◌, ◌≡◌, refl, ◌∙◌, false, Option, none, some, ◌++◌, arith, ltb, length,
}
use blink_battery_benchmark.Text.{Bytes, text_eq}
use blink_battery_benchmark.SecretStore.{
  magic, format_version, small_be32, header_size, Disk, Trouble, in_mkdir, in_mkstemp, in_write,
  in_replace, Saved, saved, save_failed, Document, object, loaded, Backend, from_encoded,
  from_plaintext, load, document_of, replace_file, save_ciphertext, save_plaintext, save,
}

-- a disk is equal to one whose temporary file came and went
disk_again : (d : Disk) → record d { temporary = suc d.temporary - 1 } ≡ d
disk_again d = ground arith

module _ {Payload : Type 0} (backend : Backend Payload) where
  -- the promise of a save: what it returns for is there to load, and what it raises for is undone
  abbrev pub Preserved : Payload → Disk → Saved × Disk → Type 0
  Preserved p d (saved, after) = (load backend after ≡ loaded p) × (after.temporary ≡ d.temporary)
  Preserved p d (save_failed f, after) = after ≡ d

  from_encoded_envelope :
      (ciphertext : Bytes)
      → from_encoded backend (magic ++ (small_be32 format_version ++ ciphertext))
        ≡ from_plaintext backend (backend.unprotect ciphertext)
  unfolding text_eq
  from_encoded_envelope ciphertext =
      let long : ltb (length (magic ++ (small_be32 format_version ++ ciphertext))) header_size
          ≡ false =
        ground arith in
      rw long refl

  module _
      (decrypts : (plaintext ciphertext : Bytes)
        → backend.protect plaintext ≡ some ciphertext
        → backend.unprotect ciphertext ≡ some plaintext)
      (parses : (d : Document Payload) (plaintext : Bytes)
        → backend.dumps d ≡ some plaintext
        → backend.loads plaintext ≡ object d) where
    replace_file-Preserved :
        (p : Payload) (trouble : Option Trouble) (plaintext ciphertext : Bytes) (d : Disk)
        → backend.unprotect ciphertext ≡ some plaintext
        → backend.loads plaintext ≡ object (document_of backend p)
        → Preserved p d
            (replace_file backend trouble (magic ++ (small_be32 format_version ++ ciphertext)) d)
    unfolding load
    replace_file-Preserved p (some in_mkdir) plaintext ciphertext d u l = refl
    replace_file-Preserved p (some in_mkstemp) plaintext ciphertext d u l = refl
    replace_file-Preserved p (some in_write) plaintext ciphertext d u l = disk_again d
    replace_file-Preserved p (some in_replace) plaintext ciphertext d u l = disk_again d
    replace_file-Preserved p none plaintext ciphertext d u l =
        (from_encoded_envelope ciphertext ∙ (rw (u, l) refl), omega arith)

    save_ciphertext-Preserved :
        (p : Payload) (trouble : Option Trouble) (plaintext : Bytes) (o : Option Bytes) (d : Disk)
        → backend.protect plaintext ≡ o
        → backend.loads plaintext ≡ object (document_of backend p)
        → Preserved p d (save_ciphertext backend trouble o d)
    save_ciphertext-Preserved p trouble plaintext none d u l = refl
    save_ciphertext-Preserved p trouble plaintext (some ciphertext) d u l =
        replace_file-Preserved p trouble plaintext ciphertext d (decrypts plaintext ciphertext u) l

    save_plaintext-Preserved :
        (p : Payload) (trouble : Option Trouble) (o : Option Bytes) (d : Disk)
        → backend.dumps (document_of backend p) ≡ o
        → Preserved p d (save_plaintext backend trouble o d)
    save_plaintext-Preserved p trouble none d e = refl
    save_plaintext-Preserved p trouble (some plaintext) d e =
        save_ciphertext-Preserved p trouble plaintext (backend.protect plaintext) d refl
          (parses _ plaintext e)

    -- If the protector decrypts what it encrypts and JSON reads what it writes: where `save`
    -- returns, `load` gives the payload back and no temporary file is left; where it raises, at
    -- any of its calls, the file and the temporary files are as they were.
    pub save-Preserved :
        (p : Payload) (trouble : Option Trouble) (d : Disk)
        → Preserved p d (save backend p trouble d)
    unfolding save
    save-Preserved p trouble d =
        save_plaintext-Preserved p trouble (backend.dumps (document_of backend p)) d refl
