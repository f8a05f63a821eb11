-- ===== src/Vault2/Tree/Examples.antt =====
-- The theorems on copying at files of a few bytes and at a small folder.
use desktop_folder_locker.Common.{
  ℕ, ◌-◌, ◌≡◌, ◌⊎◌, refl, inl, arith, ltb, Bool, true, false, some, List, [], ◌∷◌, length,
}
use desktop_folder_locker.Common.Text.{codes}
use desktop_folder_locker.Vault2.Error.{ok, err, Error}
use desktop_folder_locker.Vault2.Crypto.{Bytes}
use desktop_folder_locker.Vault2.Content.Disk.{slice, patch, write_all_at}
use desktop_folder_locker.Vault2.Content.Tests.{codec, empty}
use desktop_folder_locker.Vault2.Content.Sample.{
  codec-IsUsable, nothing, empty-Holds, nine, nine_plain, nine-Holds,
}
use desktop_folder_locker.Vault2.Content.File.{State}
use desktop_folder_locker.Vault2.Vault.Folders.{root}
use desktop_folder_locker.Vault2.Tree.Reader.{
  Answer, short, interrupted, AreQuiet, read, fill, read_full, read_full-take,
}
use desktop_folder_locker.Vault2.Tree.Copying.{Run, TreeStats, no_stats, copy_in}
use desktop_folder_locker.Vault2.Tree.Copied.{Allows, importing}
use desktop_folder_locker.Vault2.Tree.Compared.{checking, compare_sound}
use desktop_folder_locker.Vault2.Tree.Exported.{Passes, exporting, compare_complete}
use desktop_folder_locker.Vault2.Tree.Trip.{reading, import-verify-export}
use desktop_folder_locker.Vault2.Tree.Sources.{
  Stamp, file, folder, Sources, end, entry, check_source, scan, sorted_entries,
}
use desktop_folder_locker.Vault2.Tree.Walking.{TreeCalls, import_file, import_item, import}
use desktop_folder_locker.Vault2.Tree.Tally.{all_storable, tally_all, scan-tally}
use desktop_folder_locker.Vault2.Tree.Cancelled.{Ends, copying, copy_in-Ends}
use desktop_folder_locker.Vault2.Tree.Imported.{AreReadable, import-scan}

abbrev go_on : ℕ → Unit {0} → Bool × Unit {0}
go_on n seen = (true, seen)

go_on-Allows : Allows go_on
go_on-Allows n seen = refl

abbrev bytes : Bytes
bytes = 5 ∷ 6 ∷ 7 ∷ 8 ∷ 9 ∷ 10 ∷ 11 ∷ []

-- Reads that return one byte, are interrupted, and return two.
abbrev answers : List Answer
answers = short 0 ∷ interrupted ∷ short 1 ∷ []

read_full-take_example :
    (left : List Answer) × (read_full 5 (reading bytes answers)
      ≡ (ok (5 ∷ 6 ∷ 7 ∷ 8 ∷ 9 ∷ []), record { rest = 10 ∷ 11 ∷ []; answers = left }))
    × AreQuiet left
read_full-take_example = read_full-take 5 (reading bytes answers) tt

abbrev run : Run State (Unit {0})
run = record { vault = empty; seen = tt; stats = no_stats }

import-verify-export_example :
    (run1 : Run State (Unit {0})) × (run2 : Run State (Unit {0})) × (run3 : Run State (Unit {0}))
    × (importing codec codec-IsUsable go_on go_on-Allows 2 8 0 (reading bytes answers) run
        ≡ (ok tt, run1))
    × (checking codec codec-IsUsable go_on 2 8 0 (reading bytes []) run1 ≡ (ok tt, run2))
    × (exporting codec codec-IsUsable go_on go_on-Allows 2 8 0 [] run2 ≡ (ok bytes, run3))
import-verify-export_example =
    import-verify-export codec codec-IsUsable go_on go_on-Allows 2 bytes answers [] run nothing tt
      tt (omega arith) refl empty-Holds (inl refl)

-- It is cancelled after the second piece of three bytes.
abbrev few : ℕ → Unit {0} → Bool × Unit {0}
few n seen = (ltb n 4, seen)

copy_in-Ends_example :
    Ends codec codec-IsUsable few 2 nothing 0 bytes
      (copying codec codec-IsUsable few 2 8 0 (reading bytes answers) run)
copy_in-Ends_example =
    copy_in-Ends codec codec-IsUsable few 2 8 bytes answers 0 run nothing tt (omega arith)
      (omega arith) empty-Holds (inl refl)

abbrev nine_run : Run State (Unit {0})
nine_run = record { vault = nine; seen = tt; stats = no_stats }

abbrev nine_bytes : Bytes
nine_bytes = 0 ∷ 0 ∷ 1 ∷ 2 ∷ 3 ∷ 4 ∷ 5 ∷ 6 ∷ 7 ∷ []

slice-nine : slice nine_plain.byte 0 (nine_plain.len - 0) ≡ nine_bytes
unfolding slice write_all_at patch
slice-nine = refl

abbrev accepted :
    Passes codec codec-IsUsable go_on go_on-Allows 2 nine_run 9 tt
      (checking codec codec-IsUsable go_on 2 10 0 (reading nine_bytes answers) nine_run)
accepted =
    compare_complete codec codec-IsUsable go_on go_on-Allows 2 10 nine_bytes answers 0 nine_run
      nine_plain tt (omega arith) nine-Holds slice-nine

compare_sound_example : slice nine_plain.byte 0 (nine_plain.len - 0) ≡ nine_bytes
compare_sound_example =
    compare_sound codec codec-IsUsable go_on 2 10 nine_bytes answers 0 nine_run accepted.0
      nine_plain tt (omega arith) nine-Holds accepted.1

abbrev stamp : Stamp
stamp = record { created = 1; accessed = 2; written = 3; attributes = 0 }

-- A file and a folder with a file, listed out of order.
abbrev small : Sources
small =
    entry (codes "sub")
      (folder stamp (entry (codes "b") (file stamp (record { rest = bytes; answers = [] })) end))
      (entry (codes "a") (file stamp (record { rest = 1 ∷ 2 ∷ []; answers = answers })) end)

scan-tally_example :
    ((all_storable some small ≡ true) × (scan some small ≡ ok (tally_all small)))
    ⊎ ((all_storable some small ≡ false) × (e : Error) × (scan some small ≡ err e))
scan-tally_example = scan-tally some small

-- Calls that do nothing and succeed.
abbrev idle : TreeCalls (Unit {0})
idle = record {
  lookup = λ path v. (ok (some root), v);
  list = λ item v. (ok [], v);
  create_dir = λ path v. (ok root, v);
  create_file = λ path v. (ok (root, 0), v);
  open_file = λ item v. (ok 0, v);
  len = λ f v. 0;
  read_at = λ f offset n v. (ok [], v);
  write_at = λ f offset bytes v. (ok (length bytes), v);
  close = λ f v. v;
  apply = λ stamp item is_dir v. (ok tt, v);
}

abbrev idle_run : TreeStats → Run (Unit {0}) (Unit {0})
idle_run stats = record { vault = tt; seen = tt; stats = stats }

abbrev counted : TreeStats
counted = record { files = 2; dirs = 1; bytes = 9 }

imported : import idle some go_on small (idle_run no_stats) ≡ (ok counted, idle_run counted)
unfolding import import_item import_file sorted_entries check_source copy_in read_full fill read
imported = refl

small-AreReadable : AreReadable small
unfolding AreReadable
small-AreReadable = ((tt, tt), (tt, tt))

import-scan_example : scan some small ≡ ok counted
import-scan_example =
    import-scan idle some go_on small (idle_run no_stats) (idle_run counted) counted
      small-AreReadable imported
