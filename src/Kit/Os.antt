-- ===== src/Kit/Os.antt =====
-- What the program asks of the operating system and of encoding/json: files, paths and the JSON
-- form of the wallets. None of it is code of the repository, so it is a parameter. Its errors
-- are given by their texts: none of them is a sentinel of the program.
use challenge_senior.Prelude.{String, Bool, false, ◌≡◌, ◌⊎◌, inr, Option, none}
use challenge_senior.Prelude.Int.{ℤ}
use challenge_senior.Prelude.GoMap.{GoMap}

-- What `os.ReadFile` returns; `missing` is an error that is os.ErrNotExist.
pub data Reading (Bytes : Type 0) : Type 0 where
  contents : Bytes → Reading Bytes
  missing : Reading Bytes
  unreadable : String → Reading Bytes

pub record Os : Type 1 where
  -- the file system
  pub World : Type 0
  pub Bytes : Type 0
  -- filepath.Dir
  pub dir : String → String
  -- os.MkdirAll, os.WriteFile, os.Rename, os.ReadFile
  pub mkdir_all : String → World → Option String × World
  pub write_file : String → Bytes → World → Option String × World
  pub rename : String → String → World → Option String × World
  pub read_file : String → World → Reading Bytes
  -- json.MarshalIndent and json.Unmarshal of a map of int64
  pub marshal : GoMap ℤ → String ⊎ Bytes
  pub unmarshal : Bytes → String ⊎ GoMap ℤ
  -- `append(b, '\n')` and `len(b) == 0`
  pub newline : Bytes → Bytes
  pub is_empty : Bytes → Bool

-- Documented behaviour on which a save and a load rest: a file holds what was written to it, a
-- rename moves its contents, a document with a newline behind it is not empty and decodes to the
-- map that it was made from.
pub record FilesWork (os : Os) : Type 0 where
  pub write_read :
      (path : String) (b : os.Bytes) (w : os.World)
      → (os.write_file path b w).0 ≡ none
      → os.read_file path (os.write_file path b w).1 ≡ contents b
  pub rename_read :
      (old new : String) (b : os.Bytes) (w : os.World)
      → os.read_file old w ≡ contents b
      → (os.rename old new w).0 ≡ none
      → os.read_file new (os.rename old new w).1 ≡ contents b
  pub unmarshal_lem :
      (m : GoMap ℤ) (b : os.Bytes) → os.marshal m ≡ inr b → os.unmarshal (os.newline b) ≡ inr m
  pub newline_nonempty : (b : os.Bytes) → os.is_empty (os.newline b) ≡ false
