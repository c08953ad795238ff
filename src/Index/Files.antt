-- ===== src/Index/Files.antt =====
-- The atomic write that vectordb/index_manifest.py and vectordb/index_retention.py share in form:
-- a temporary file that is written, synchronised and put in place of the old one by `os.replace`.
use rag_support_assistant.Prelude.{Option, none, some, ◌≡◌, refl, arith}
use rag_support_assistant.Index.{Result, ok, raise, write_failed, IndexError}

-- a file: there is none, its bytes or its JSON cannot be decoded, or its decoded content
pub data Stored {ℓ} (P : Type ℓ) : Type ℓ where
  absent undecodable : Stored P
  decoded : P → Stored P

-- the file at its path and the temporary file beside it
pub record Disk {ℓ} (P : Type ℓ) : Type ℓ where
  pub file : Stored P
  pub temporary : Option (Stored P)

-- the step of a write at which an exception comes, where one does: making the directory, making the
-- temporary file, writing it, the injected fault before the commit, or `os.replace`
pub data Fault : Type 0 where
  no_fault at_directory at_temporary at_writing at_commit at_replace : Fault

module _ {ℓ} {P : Type ℓ} where
  abbrev make_temporary : Disk P → Disk P
  make_temporary d = record d { temporary = some absent }

  abbrev write_temporary : P → Disk P → Disk P
  write_temporary p d = record d { temporary = some (decoded p) }

  -- `os.replace`: the temporary file takes the path, in one step
  abbrev replace : Disk P → Disk P
  replace d = elim d.temporary [
    | none ↦ d
    | some content ↦ record { file = content; temporary = none }
  ]

  -- `temporary_path.unlink(missing_ok=True)`
  abbrev unlink : Disk P → Disk P
  unlink d = record d { temporary = none }

  -- the write, with the cleanup of its `except BaseException`
  unfoldable pub atomic_write : Fault → P → Disk P → Result (Unit {0}) × Disk P
  atomic_write no_fault p d = (ok tt, replace (write_temporary p (make_temporary d)))
  atomic_write at_directory p d = (raise write_failed, d)
  atomic_write at_temporary p d = (raise write_failed, d)
  atomic_write at_writing p d = (raise write_failed, unlink (make_temporary d))
  atomic_write at_commit p d = (raise write_failed, unlink (write_temporary p (make_temporary d)))
  atomic_write at_replace p d = (raise write_failed, unlink (write_temporary p (make_temporary d)))

  pub atomic_write-raise :
      (fault : Fault) (p : P) (d : Disk P) (e : IndexError)
      → (atomic_write fault p d).0 ≡ raise e
      → (atomic_write fault p d).1.file ≡ d.file
  unfolding atomic_write
  atomic_write-raise no_fault p d e h = ground arith
  atomic_write-raise at_directory p d e h = refl
  atomic_write-raise at_temporary p d e h = refl
  atomic_write-raise at_writing p d e h = refl
  atomic_write-raise at_commit p d e h = refl
  atomic_write-raise at_replace p d e h = refl

  pub atomic_write-ok :
      (fault : Fault) (p : P) (d : Disk P)
      → (atomic_write fault p d).0 ≡ ok tt
      → (atomic_write fault p d).1.file ≡ decoded p
  unfolding atomic_write
  atomic_write-ok no_fault p d h = refl
  atomic_write-ok at_directory p d h = ground arith
  atomic_write-ok at_temporary p d h = ground arith
  atomic_write-ok at_writing p d h = ground arith
  atomic_write-ok at_commit p d h = ground arith
  atomic_write-ok at_replace p d h = ground arith
