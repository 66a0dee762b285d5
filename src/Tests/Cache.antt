-- ===== src/Tests/Cache.antt =====
-- A node with room for two problems.
use mathlib.Core.List.{Nodup, Nodup-cons, Nodup-nil, not-mem-nil}
use my_oj.Prelude.{◌≡◌, refl, true, false, none, some, List, [], ◌∷◌}
use mathlib.Core.Option
use my_oj.Prelude.Int.{pos}
use my_oj.Prelude.Sets.{has, remove}
use my_oj.Prelude.Order.{Sorter, insertion_sorter, insertion_sort, insert}
use my_oj.Models.Time.{sub_time}
use my_oj.Judger.Tokens.{bytes_eq}
use my_oj.Judger.Cache.{
  DirEntry, newer, new_testcase_cache, prune, push_dirs, keys, ensure_start, ensure_finish,
  confirm_local, indexed, entry_of, without, promote_entry, evict_if_needed, evict_from, pop_back,
}
use my_oj.Judger.Cache.Workers.{Part, arrive, confirm, finish, run, step, history}
use my_oj.Judger.Cache.Sound.{IsSound}
use my_oj.Judger.Cache.Recent.{IsRecent}
use my_oj.Judger.Cache.Start.{start_node, problems, run_from_start-IsSound, run_from_start-IsRecent}
use my_oj.Judger.Cache.Disk.{
  Folder, Disk, etag_path, content_at, ZipEntry, up, named, Answers, refresh, download_and_extract,
  extract_entries, dest_path, below, clean, extract_zip_entry, zip_slip,
}
use my_oj.Judger.Cache.Swap.{IsRefreshed, refresh-IsRefreshed}

abbrev sorter : Sorter DirEntry
sorter = insertion_sorter

abbrev dirs : List DirEntry
dirs = record { problem_id = 4; mtime = 10; path = "/t/4"; etag = 65 ∷ [] } ∷ []

dirs-Nodup : Nodup (problems dirs)
dirs-Nodup = Nodup-cons.1 (not-mem-nil, Nodup-nil)

-- Problem 4 is found current, 5 is downloaded while a second worker waits, 6 fails, 7 is downloaded.
abbrev parts : List Part
parts =
    arrive 1000 4
    ∷ arrive 1001 5
    ∷ confirm 1002 4
    ∷ arrive 1003 5
    ∷ finish 1004 4 (some ("/t/4", 65 ∷ []))
    ∷ arrive 1005 6
    ∷ finish 1006 5 (some ("/t/5", 66 ∷ []))
    ∷ finish 1007 6 none
    ∷ arrive 1008 4
    ∷ arrive 1009 7
    ∷ finish 1010 7 (some ("/t/7", 67 ∷ []))
    ∷ []

run_from_start-IsSound_example :
    IsSound (new_testcase_cache (pos 2)).max_entries (run parts (start_node sorter dirs (pos 2)))
run_from_start-IsSound_example = run_from_start-IsSound sorter dirs (pos 2) dirs-Nodup parts

run_from_start-IsRecent_example :
    IsRecent
      (history parts (start_node sorter dirs (pos 2)) (problems (sorter.sort_slice newer dirs)))
      (run parts (start_node sorter dirs (pos 2))).cache
run_from_start-IsRecent_example = run_from_start-IsRecent sorter dirs (pos 2) dirs-Nodup parts

-- Problem 4 is the most recent but one when 7 comes in, so that 5 has to go.
kept_4_and_7 : keys (run parts (start_node sorter dirs (pos 2))).cache.lru_list ≡ (7 ∷ 4 ∷ [])
unfolding run step prune push_dirs new_testcase_cache has remove ensure_start ensure_finish
    confirm_local indexed entry_of without promote_entry evict_if_needed evict_from pop_back
    insertion_sort insert sub_time
kept_4_and_7 = refl

abbrev test_file : ZipEntry
test_file = record {
  is_dir = false;
  name = named (49 ∷ []) ∷ [];
  content = 50 ∷ [];
  mkdir_ok = true;
  open_ok = true;
  create_ok = true;
  copy_ok = true;
}

abbrev answers : Answers
answers = record {
  staging_path = (116 ∷ []) ∷ (53 ∷ []) ∷ [];
  stat = some (some (66 ∷ []));
  mkdir_base_ok = true;
  download_ok = true;
  mkdir_staging_ok = true;
  zip = some (test_file ∷ []);
  write_etag_ok = true;
  rename_ok = true;
  removals = record {
    stale = record { files = [] };
    staging_left = none;
    old_left = none;
    zip_left = false;
  };
}

abbrev old_disk : Disk
old_disk = record {
  local_dir = some record { files = record { path = etag_path; content = 65 ∷ [] } ∷ [] };
  tmp_dir = none;
  tmp_zip = false;
}

refresh-IsRefreshed_example :
    IsRefreshed (λ text. text) answers old_disk (refresh (λ text. text) answers old_disk)
refresh-IsRefreshed_example = refresh-IsRefreshed (λ text. text) answers old_disk

-- An entry that leads out of the staging directory stops the extraction, and the old directory stays.
abbrev escaping : Answers
escaping = record answers {
  zip = some (test_file ∷ record test_file { name = up ∷ test_file.name } ∷ []);
}

escaping_refused : refresh (λ text. text) escaping old_disk ≡ (old_disk, some zip_slip)
unfolding refresh download_and_extract extract_entries dest_path below clean extract_zip_entry
    bytes_eq content_at
escaping_refused = refl

lost_directory :
    (refresh (λ text. text) (record answers { rename_ok = false }) old_disk).0.local_dir ≡ none
unfolding refresh download_and_extract extract_entries dest_path below clean extract_zip_entry
    bytes_eq content_at
lost_directory = refl

-- An entry of the zip that is named `.etag` does not survive.
abbrev stamped_zip : Answers
stamped_zip = record answers {
  zip =
      some
        (record test_file { name = named (46 ∷ 101 ∷ 116 ∷ 97 ∷ 103 ∷ []) ∷ [] } ∷ test_file ∷ []);
}

etag_overwritten :
    Option.map
      (λ (f : Folder). content_at etag_path f.files)
      (refresh (λ text. text) stamped_zip old_disk).0.local_dir
    ≡ some (some (66 ∷ []))
unfolding refresh download_and_extract extract_entries dest_path below clean extract_zip_entry
    bytes_eq content_at
etag_overwritten = refl
