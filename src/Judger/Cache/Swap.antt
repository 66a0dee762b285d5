-- ===== src/Judger/Cache/Swap.antt =====
-- testcase_cache.go: what a refresh leaves on the disk.
use my_oj.Prelude.{
  ◌≡◌, refl, sym, true, false, subst, ◌⊎◌, inl, inr, Option, none, some, List, Bool-cases,
  Option-cases,
}
use my_oj.Models.Judging.{Bytes}
use my_oj.Judger.Tokens.{bytes_eq}
use my_oj.Judger.Cache.Disk.{
  Folder, Disk, Refused, rename_error, ZipEntry, Answers, extract_entries, extract_zip, path_eq,
  content_at, etag_path, stamp, exchange, download_and_extract, read_etag_file, is_current,
  refresh_from, refresh,
}
use my_oj.Judger.Cache.Extracted.{last_said, AllAccepted, extract_entries-contents}

-- The directory of the problem is the new one: the files of the zip, above what was left in the staging
-- directory, with the remote ETag in place of the file `.etag`.
pub record IsInstalled (a : Answers) (remote : Bytes) (d' : Disk) : Type 0 where
  pub entries : List ZipEntry
  pub read : a.zip ≡ some entries
  pub accepted : AllAccepted a.staging_path entries
  pub folder : Folder
  pub swapped :
      d' ≡ record { local_dir = some folder; tmp_dir = none; tmp_zip = a.removals.zip_left }
  pub stamped : content_at etag_path folder.files ≡ some remote
  pub contents :
      (path : List Bytes)
      → path_eq etag_path path ≡ false
      → content_at path folder.files
        ≡ last_said a.staging_path path entries (content_at path a.removals.stale.files)

abbrev pub IsKept : Answers → Disk → Disk × Option Refused → Type 0
IsKept a d (d', none) = ⊥
IsKept a d (d', some e) =
    (d'.local_dir ≡ d.local_dir) ⊎ ((e ≡ rename_error) × (d'.local_dir ≡ a.removals.old_left))

abbrev pub IsRefreshed : (Bytes → Bytes) → Answers → Disk → Disk × Option Refused → Type 0
IsRefreshed trim a d (d', none) =
    (remote : Bytes) × (a.stat ≡ some (some remote))
    × (((d' ≡ d) × (is_current (read_etag_file trim d.local_dir) remote ≡ true))
        ⊎ IsInstalled a remote d')
IsRefreshed trim a d (d', some e) = IsKept a d (d', some e)

-- What a download leaves.
abbrev Downloaded : Answers → Bytes → Disk → Disk × Option Refused → Type 0
Downloaded a remote d (d', none) = IsInstalled a remote d'
Downloaded a remote d (d', some e) = IsKept a d (d', some e)

exchange-Downloaded :
    (a : Answers) (remote : Bytes) (d : Disk) (entries : List ZipEntry)
    (r : Folder × Option Refused)
    → a.zip ≡ some entries
    → extract_entries a.staging_path entries a.removals.stale ≡ r
    → Downloaded a remote d (exchange a remote d r)
unfolding content_at bytes_eq
exchange-Downloaded a remote d entries (folder, some e) z h = inl refl
exchange-Downloaded a remote d entries (folder, none) z h = elim (Bool-cases a.write_etag_ok) [
  | inr e ↦ rw e (inl refl)
  | inl e ↦ elim (Bool-cases a.rename_ok) [
    | inr f ↦ rw (e, f) (inr (refl, refl))
    | inl f ↦
        let (contents, accepted) =
          extract_entries-contents a.staging_path entries a.removals.stale folder h in
        rw (e, f)
          record {
            entries = entries;
            read = z;
            accepted = accepted;
            folder = stamp remote folder;
            swapped = refl;
            stamped = refl;
            contents = λ path other. rw other (contents path);
          }
  ]
]

download_and_extract-Downloaded :
    (a : Answers) (remote : Bytes) (d : Disk)
    → Downloaded a remote d (download_and_extract a remote d)
unfolding download_and_extract
download_and_extract-Downloaded a remote d = elim (Bool-cases a.mkdir_base_ok) [
  | inr e ↦ simp e (inl refl)
  | inl e ↦ elim (Bool-cases a.download_ok) [
    | inr f ↦ simp (e, f) (inl refl)
    | inl f ↦ elim (Bool-cases a.mkdir_staging_ok) [
      | inr g ↦ simp (e, f, g) (inl refl)
      | inl g ↦
          simp (e, f, g)
            (elim (Option-cases a.zip) [
              | inl z ↦ rw z (inl refl)
              | inr (entries, z) ↦
                  subst
                    (λ o.
                      Downloaded a remote d
                        (exchange a remote d (extract_zip a.staging_path o a.removals.stale)))
                    (sym z) (exchange-Downloaded a remote d entries _ z refl)
            ])
    ]
  ]
]

Downloaded-IsRefreshed :
    (trim : Bytes → Bytes) (a : Answers) (remote : Bytes) (d : Disk) (r : Disk × Option Refused)
    → a.stat ≡ some (some remote)
    → Downloaded a remote d r
    → IsRefreshed trim a d r
Downloaded-IsRefreshed trim a remote d (d', none) s h = (remote, s, inr h)
Downloaded-IsRefreshed trim a remote d (d', some e) s h = h

-- A refresh that succeeds has found the copy current and changed nothing, or has put a new directory
-- in its place, where each file of the zip led below the directory and was smaller than the limit.
-- The file `.etag` of the new directory is the remote ETag, and at each other path stands what the
-- zip's last entry for it says, or, without an entry, what was left in the staging directory. A
-- refresh that fails leaves the old directory, except when the last rename fails: then there is what
-- the removal has left of it.
pub refresh-IsRefreshed :
    (trim : Bytes → Bytes) (a : Answers) (d : Disk) → IsRefreshed trim a d (refresh trim a d)
unfolding refresh
refresh-IsRefreshed trim a d = elim (Option-cases a.stat) [
  | inl e ↦ rw (e, refresh) (inl refl)
  | inr (none, e) ↦ rw (e, refresh) (inl refl)
  | inr (some remote, e) ↦
      subst (λ o. IsRefreshed trim a d (refresh_from trim a d o)) (sym e)
        (elim (Bool-cases (is_current (read_etag_file trim d.local_dir) remote)) [
          | inl current ↦ rw current (remote, e, inl (refl, current))
          | inr stale ↦ rw stale (
              Downloaded-IsRefreshed trim a remote d (download_and_extract a remote d) e
                (download_and_extract-Downloaded a remote d))
        ])
]
