-- ===== src/State/Storage.antt =====
-- `FileSystemStorage` of src/state.rs: a temporary file, then a rename.
-- A disk maps paths to contents. Each step succeeds or fails as the operating system says; a
-- failure, like a crash between two steps, leaves what the steps before it wrote.
use tei_manager.Base.{
  ◌≡◌, ◌≢◌, ◌↔◌, String, Bool, true, false, ◌&&◌, Option, none, some, arith, Result, ok, err,
  str_eq, str_eq_iff, if◌then◌else◌,
}
use tei_manager.Config.{FilePath}
use tei_manager.Instance.{AnyError}
use tei_manager.State.{StorageBackend}

abbrev ext_eq : Option String → Option String → Bool
ext_eq none none = true
ext_eq (some a) (some b) = str_eq a b
ext_eq none (some b) = false
ext_eq (some a) none = false

pub path_eq : FilePath → FilePath → Bool
path_eq p q = str_eq p.dir q.dir && str_eq p.stem q.stem && ext_eq p.extension q.extension

ext_eq_iff : (a b : Option String) → (ext_eq a b ≡ true) ↔ (a ≡ b)
ext_eq_iff none none = ground arith
ext_eq_iff (some a) (some b) = ground (arith, str_eq_iff a b)
ext_eq_iff none (some b) = ground arith
ext_eq_iff (some a) none = ground arith

path_eq_iff : (p q : FilePath) → (path_eq p q ≡ true) ↔ (p ≡ q)
unfolding path_eq
path_eq_iff p q =
    ground
      (arith, str_eq_iff p.dir q.dir, str_eq_iff p.stem q.stem, ext_eq_iff p.extension q.extension)

abbrev pub Disk : Type 0
Disk = FilePath → Option String

abbrev pub write : Disk → FilePath → Option String → Disk
write d p v q = if path_eq p q then v else d q

-- The answers of the system calls of one `save`, and what a failed write leaves in the file.
pub record Faults : Type 0 where
  pub create_ok : Bool
  pub write_ok : Bool
  pub sync_ok : Bool
  pub rename_ok : Bool
  pub partial_write : String

-- `Path::with_extension("tmp")`.
unfoldable pub temp_path : FilePath → FilePath
temp_path p = record p { extension = some "tmp" }

module _ (f : Faults) where
  rename : FilePath → FilePath → Disk → Result AnyError (Unit {0}) × Disk
  rename from to d =
      if f.rename_ok
      then (ok tt, write (write d to (d from)) from none)
      else (err "Failed to rename temp state file", d)

  sync_and_rename : FilePath → FilePath → Disk → Result AnyError (Unit {0}) × Disk
  unfolding rename
  sync_and_rename from to d =
      if f.sync_ok then rename from to d else (err "Failed to sync state file", d)

  write_all : FilePath → FilePath → String → Disk → Result AnyError (Unit {0}) × Disk
  unfolding sync_and_rename
  write_all from to content d =
      if f.write_ok
      then sync_and_rename from to (write d from (some content))
      else (err "Failed to write state file", write d from (some f.partial_write))

  -- `FileSystemStorage::save`.
  unfoldable pub save : FilePath → String → Disk → Result AnyError (Unit {0}) × Disk
  unfolding write_all temp_path
  save path content d =
      let temp = temp_path path in
      if f.create_ok
      then write_all temp path content (write d temp (some ""))
      else (err "Failed to create temp state file", d)

-- `FileSystemStorage::load`, with what the read answers.
unfoldable pub load : Bool → FilePath → Disk → Result AnyError (Option String)
load read_ok path d = elim (d path) [
  | none ↦ ok none
  | some content ↦ if read_ok then ok (some content) else err "Failed to read state file"
]

abbrev pub file_storage : Faults → Bool → StorageBackend Disk
file_storage f read_ok = record { save = save f; load = load read_ok }

-- How a save ends: with the new content and no temporary file, or with the state file as it was.
abbrev pub SaveEnds : FilePath → String → Disk → Result AnyError (Unit {0}) × Disk → Type 0
SaveEnds path content d (ok _, d') = (d' path ≡ some content) × (d' (temp_path path) ≡ none)
SaveEnds path content d (err _, d') = d' path ≡ d path

temp_path-ne : (p : FilePath) → p.extension ≢ some "tmp" → temp_path p ≢ p
unfolding temp_path
temp_path-ne p h e = ground arith

-- A save is atomic, whichever step fails, if the state file does not itself have the extension of
-- the temporary one: on success the file holds the new content and the temporary file is gone, and
-- on an error the file is as it was.
pub save_atomic :
    (f : Faults) (path : FilePath) (content : String) (d : Disk)
    → path.extension ≢ some "tmp"
    → SaveEnds path content d (save f path content d)
unfolding save
save_atomic f path content d h = ground (
  arith,
  temp_path-ne path h,
  path_eq_iff (temp_path path) path,
  path_eq_iff path path,
  path_eq_iff (temp_path path) (temp_path path),
  path_eq_iff path (temp_path path),
)

-- A save touches no file but the state file and the temporary one.
pub save_others :
    (f : Faults) (path other : FilePath) (content : String) (d : Disk)
    → other ≢ path
    → other ≢ temp_path path
    → (save f path content d).1 other ≡ d other
unfolding save
save_others f path other content d h k =
    ground (arith, path_eq_iff path other, path_eq_iff (temp_path path) other)

-- So what was saved is what is read.
pub load-save :
    (f : Faults) (path : FilePath) (content : String) (d d' : Disk)
    → path.extension ≢ some "tmp"
    → save f path content d ≡ (ok tt, d')
    → load true path d' ≡ ok (some content)
unfolding load
load-save f path content d d' h e = ground (arith, save_atomic f path content d h)
