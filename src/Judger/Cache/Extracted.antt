-- ===== src/Judger/Cache/Extracted.antt =====
-- testcase_cache.go: what the extraction of a zip writes.
use my_oj.Prelude.{
  ◌<◌, ◌≡◌, refl, sym, ap, ◌∙◌, true, subst, ◌⊎◌, inl, inr, Option, none, some, List, [], ◌∷◌,
  length, if◌then◌else◌, Bool-cases, Option-cases, arith,
}
use my_oj.Models.Judging.{Bytes}
use my_oj.Judger.Cache.Disk.{
  Folder, path_eq, content_at, Refused, ZipEntry, max_zip_entry_bytes, dest_path, extract_zip_entry,
  extract_at, and_then, extract_entries,
}

-- What the entries of a zip say of a path, the last of them first.
abbrev pub said_at : List Bytes → Bytes → Option Bytes → Option (List Bytes) → Option Bytes
said_at path content before none = before
said_at path content before (some at) = if path_eq at path then some content else before

abbrev pub said_by : List Bytes → List Bytes → ZipEntry → Option Bytes → Option Bytes
said_by dir path z before = said_at path z.content before (dest_path dir z.name)

unfoldable pub last_said : List Bytes → List Bytes → List ZipEntry → Option Bytes → Option Bytes
last_said dir path [] before = before
last_said dir path (z ∷ zs) before =
    last_said dir path zs (if z.is_dir then before else said_by dir path z before)

-- Each entry is a directory, or leads below the directory and is smaller than the limit.
abbrev pub IsAccepted : List Bytes → ZipEntry → Type 0
IsAccepted dir z =
    (z.is_dir ≡ true)
    ⊎ ((at : List Bytes) × (dest_path dir z.name ≡ some at)
        × (length z.content < max_zip_entry_bytes))

abbrev pub AllAccepted : List Bytes → List ZipEntry → Type 0
AllAccepted dir [] = Unit
AllAccepted dir (z ∷ zs) = IsAccepted dir z × AllAccepted dir zs

extract_zip_entry-writes :
    (z : ZipEntry) (at : List Bytes) (folder folder' : Folder)
    → extract_zip_entry z at folder ≡ (folder', none)
    → (folder'.files ≡ (record { path = at; content = z.content } ∷ folder.files))
      × (length z.content < max_zip_entry_bytes)
unfolding extract_zip_entry
extract_zip_entry-writes z at folder folder' h = ground arith

extract_at-writes :
    (dir : List Bytes) (z : ZipEntry) (folder folder' : Folder) (path : List Bytes)
    → extract_at z (dest_path dir z.name) folder ≡ (folder', none)
    → (content_at path folder'.files ≡ said_by dir path z (content_at path folder.files))
      × (at : List Bytes) × (dest_path dir z.name ≡ some at)
      × (length z.content < max_zip_entry_bytes)
unfolding content_at
extract_at-writes dir z folder folder' path h = elim (Option-cases (dest_path dir z.name)) [
  | inl e ↦ absurd (no_way (subst (λ o. extract_at z o folder ≡ (folder', none)) e h))
  | inr (at, e) ↦
      let (files, small) =
        extract_zip_entry-writes z at folder folder'
          (made at (subst (λ o. extract_at z o folder ≡ (folder', none)) e h)) in
      (
        ap (content_at path) files
            ∙ ap (said_at path z.content (content_at path folder.files)) (sym e),
        at,
        e,
        small,
      )
]
  where
    no_way : extract_at z none folder ≡ (folder', none) → ⊥
    no_way q = cc

    made :
        (at : List Bytes)
        → extract_at z (some at) folder ≡ (folder', none)
        → extract_zip_entry z at folder ≡ (folder', none)
    made at q = ground arith

and_then-none :
    (r : Folder × Option Refused) (next : Folder → Folder × Option Refused) (folder' : Folder)
    → and_then r next ≡ (folder', none)
    → (r.1 ≡ none) × (next r.0 ≡ (folder', none))
and_then-none (folder, none) next folder' h = (refl, h)
and_then-none (folder, some e) next folder' h = cc

pub extract_entries-contents :
    (dir : List Bytes) (zs : List ZipEntry) (folder folder' : Folder)
    → extract_entries dir zs folder ≡ (folder', none)
    → ((path : List Bytes)
        → content_at path folder'.files ≡ last_said dir path zs (content_at path folder.files))
      × AllAccepted dir zs
unfolding extract_entries last_said
extract_entries-contents dir [] folder folder' h =
    (λ path. ap (λ r. content_at path r.0.files) (sym h), tt)
extract_entries-contents dir (z ∷ zs) folder folder' h = elim (Bool-cases z.is_dir) [
  | inl is ↦
      let (rest, accepted) = extract_entries-contents dir zs folder folder' (
        subst
          (λ b.
            and_then (if b then (folder, none) else extract_at z (dest_path dir z.name) folder)
              (extract_entries dir zs)
            ≡ (folder', none))
          is h) in
      (λ path. rw is (rest path), (inl is, accepted))
  | inr not_dir ↦
      let here = extract_at z (dest_path dir z.name) folder in
      let (done, after) = and_then-none here (extract_entries dir zs) folder' (
        subst
          (λ b.
            and_then (if b then (folder, none) else extract_at z (dest_path dir z.name) folder)
              (extract_entries dir zs)
            ≡ (folder', none))
          not_dir h) in
      let made : extract_at z (dest_path dir z.name) folder ≡ (here.0, none) =
        ap (λ e. (here.0, e)) done in
      let (rest, accepted) = extract_entries-contents dir zs here.0 folder' after in
      let (_, at, leads, small) = extract_at-writes dir z folder here.0 [] made in
      (
        λ path. rw not_dir (
            rest path
            ∙ ap (last_said dir path zs) (extract_at-writes dir z folder here.0 path made).0),
        (inr (at, leads, small), accepted),
      )
]
