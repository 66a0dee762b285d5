-- ===== src/Judger/Cache/Disk.antt =====
-- testcase_cache.go: the directories of one problem, from the test of the ETag to the exchange of the
-- old directory for the new one. The object store and the file system answer from outside.
use my_oj.Prelude.{
  ℕ, ◌*◌, Bool, true, false, not, ◌&&◌, Option, none, some, List, [], ◌∷◌, length, ltb,
  if◌then◌else◌,
}
use mathlib.Core.List.{reverse}
use my_oj.Models.Judging.{Bytes}
use my_oj.Judger.Tokens.{bytes_eq}

-- A file of a directory: its path below it, as its components.
pub record TestFile : Type 0 where
  pub path : List Bytes
  pub content : Bytes

-- What a directory holds, the file written last first; the `.etag` file is one of them.
pub record Folder : Type 0 where
  pub files : List TestFile

abbrev pub path_eq : List Bytes → List Bytes → Bool
path_eq [] [] = true
path_eq [] (q ∷ qs) = false
path_eq (p ∷ ps) [] = false
path_eq (p ∷ ps) (q ∷ qs) = bytes_eq p q && path_eq ps qs

-- The file at a path: the one written last.
unfoldable pub content_at : List Bytes → List TestFile → Option Bytes
content_at path [] = none
content_at path (f ∷ fs) = if path_eq f.path path then some f.content else content_at path fs

-- The path of `.etag`.
abbrev pub etag_path : List Bytes
etag_path = (46 ∷ 101 ∷ 116 ∷ 97 ∷ 103 ∷ []) ∷ []

-- The directory of the problem, the staging directory beside it, and whether the zip lies there.
pub record Disk : Type 0 where
  pub local_dir : Option Folder
  pub tmp_dir : Option Folder
  pub tmp_zip : Bool

-- The errors of `refresh`.
pub data Refused : Type 0 where
  no_testcase_zip stat_error mkdir_base_error download_error mkdir_staging_error : Refused
  open_zip_error zip_slip mkdir_error open_entry_error create_error copy_error too_large : Refused
  write_etag_error rename_error : Refused

-- A component of a path: `..`, one that is empty or `.`, or a name.
pub data Component : Type 0 where
  up stay : Component
  named : Bytes → Component

-- An entry of the zip, and how the calls for it end. The code asks for directories only: a symbolic
-- link is written as a file, whose content is the target.
pub record ZipEntry : Type 0 where
  pub is_dir : Bool
  pub name : List Component
  pub content : Bytes
  pub mkdir_ok : Bool
  pub open_ok : Bool
  pub create_ok : Bool
  pub copy_ok : Bool

-- `filepath.Clean`, from a rooted path whose last component stands first.
unfoldable pub clean : List Bytes → List Component → List Bytes
clean path [] = path
clean [] (up ∷ cs) = clean [] cs
clean (p ∷ path) (up ∷ cs) = clean path cs
clean path (stay ∷ cs) = clean path cs
clean path (named n ∷ cs) = clean (n ∷ path) cs

-- What follows a directory and its separator in a path, which is what `strings.HasPrefix` asks for.
unfoldable pub below : List Bytes → List Bytes → Option (List Bytes)
below [] [] = none
below [] (p ∷ path) = some (p ∷ path)
below (d ∷ dir) [] = none
below (d ∷ dir) (p ∷ path) = if bytes_eq d p then below dir path else none

-- Where an entry leads below the directory, none for a place outside it.
unfoldable pub dest_path : List Bytes → List Component → Option (List Bytes)
dest_path dir name = below dir (reverse (clean (reverse dir) name))

abbrev pub max_zip_entry_bytes : ℕ
max_zip_entry_bytes = 512 * 1024 * 1024

abbrev pub add_file : TestFile → Folder → Folder
add_file f folder = record folder { files = f ∷ folder.files }

abbrev pub write_entry : List Bytes → Bytes → Folder → Folder
write_entry path content folder = add_file (record { path = path; content = content }) folder

-- `extractZipEntry`: what the folder holds then, with the error. The content that a failed copy leaves
-- does not matter, since the folder is then deleted.
unfoldable pub extract_zip_entry : ZipEntry → List Bytes → Folder → Folder × Option Refused
extract_zip_entry z path folder =
    if not z.open_ok
    then (folder, some open_entry_error)
    else if not z.create_ok
    then (folder, some create_error)
    else if not z.copy_ok
    then (write_entry path [] folder, some copy_error)
    else if ltb (length z.content) max_zip_entry_bytes
    then (write_entry path z.content folder, none)
    else (write_entry path [] folder, some too_large)

abbrev pub extract_at : ZipEntry → Option (List Bytes) → Folder → Folder × Option Refused
extract_at z none folder = (folder, some zip_slip)
extract_at z (some path) folder =
    if z.mkdir_ok then extract_zip_entry z path folder else (folder, some mkdir_error)

abbrev pub and_then :
    Folder × Option Refused → (Folder → Folder × Option Refused) → Folder × Option Refused
and_then (folder, some e) next = (folder, some e)
and_then (folder, none) next = next folder

-- The loop of `extractZip`.
unfoldable pub extract_entries : List Bytes → List ZipEntry → Folder → Folder × Option Refused
extract_entries dir [] folder = (folder, none)
extract_entries dir (z ∷ zs) folder =
    and_then (if z.is_dir then (folder, none) else extract_at z (dest_path dir z.name) folder)
      (extract_entries dir zs)

-- What the removals leave, whose errors the code ignores: of the staging directory, before it is used
-- and at the end, of the old directory, and of the zip.
pub record Removals : Type 0 where
  pub stale : Folder
  pub staging_left : Option Folder
  pub old_left : Option Folder
  pub zip_left : Bool

-- What the store and the file system answer to one refresh. `stat` is the ETag of the object, or none
-- inside for one that is not there; `zip` is what is in the file that came.
pub record Answers : Type 0 where
  pub staging_path : List Bytes
  pub stat : Option (Option Bytes)
  pub mkdir_base_ok : Bool
  pub download_ok : Bool
  pub mkdir_staging_ok : Bool
  pub zip : Option (List ZipEntry)
  pub write_etag_ok : Bool
  pub rename_ok : Bool
  pub removals : Removals

abbrev pub extract_zip : List Bytes → Option (List ZipEntry) → Folder → Folder × Option Refused
extract_zip dir none folder = (folder, some open_zip_error)
extract_zip dir (some entries) folder = extract_entries dir entries folder

abbrev pub no_staging : Answers → Disk → Disk
no_staging a d = record d { tmp_dir = a.removals.staging_left; tmp_zip = a.removals.zip_left }

abbrev pub stamp : Bytes → Folder → Folder
stamp etag folder = write_entry etag_path etag folder

-- From the extraction on; the zip is deleted on the way out.
abbrev pub exchange : Answers → Bytes → Disk → Folder × Option Refused → Disk × Option Refused
exchange a etag d (folder, some e) = (no_staging a d, some e)
exchange a etag d (folder, none) =
    if not a.write_etag_ok
    then (no_staging a d, some write_etag_error)
    else if a.rename_ok
    then (
      record {
        local_dir = some (stamp etag folder);
        tmp_dir = none;
        tmp_zip = a.removals.zip_left;
      },
      none,
    )
    else (record (no_staging a d) { local_dir = a.removals.old_left }, some rename_error)

-- `downloadAndExtract`.
unfoldable pub download_and_extract : Answers → Bytes → Disk → Disk × Option Refused
download_and_extract a etag d =
    if not a.mkdir_base_ok
    then (d, some mkdir_base_error)
    else if not a.download_ok
    then (record d { tmp_zip = a.removals.zip_left }, some download_error)
    else if not a.mkdir_staging_ok
    then (no_staging a d, some mkdir_staging_error)
    else exchange a etag d (extract_zip a.staging_path a.zip a.removals.stale)

abbrev pub trimmed : (Bytes → Bytes) → Option Bytes → Bytes
trimmed trim none = []
trimmed trim (some text) = trim text

-- `readETagFile`, given the text of the file without its spaces.
abbrev pub read_etag_file : (Bytes → Bytes) → Option Folder → Bytes
read_etag_file trim none = []
read_etag_file trim (some folder) = trimmed trim (content_at etag_path folder.files)

abbrev pub is_current : Bytes → Bytes → Bool
is_current local remote = not (bytes_eq local []) && bytes_eq local remote

abbrev pub refresh_from :
    (Bytes → Bytes) → Answers → Disk → Option (Option Bytes) → Disk × Option Refused
refresh_from trim a d none = (d, some stat_error)
refresh_from trim a d (some none) = (d, some no_testcase_zip)
refresh_from trim a d (some (some remote)) =
    if is_current (read_etag_file trim d.local_dir) remote
    then (d, none)
    else download_and_extract a remote d

-- `refresh`: the directories then, and the error.
unfoldable pub refresh : (Bytes → Bytes) → Answers → Disk → Disk × Option Refused
refresh trim a d = refresh_from trim a d a.stat
