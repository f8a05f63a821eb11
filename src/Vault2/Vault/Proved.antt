-- ===== src/Vault2/Vault/Proved.antt =====
-- The theorems on vault.rs at a new vault, and at that vault once it has a file.
use desktop_folder_locker.Common.{none, some, [], ◌∷◌, ◌≡◌, refl, false, arith}
use desktop_folder_locker.Common.Text.{codes}
use desktop_folder_locker.Vault2.Crypto.{Bytes}
use desktop_folder_locker.Vault2.Error.{ok, err, Error}
use desktop_folder_locker.Vault2.Names.Defs.{check_name, is_utf8, is_internal_entry}
use desktop_folder_locker.Vault2.Vault.Paths.{components, parts_of, check_all}
use desktop_folder_locker.Vault2.Vault.Maps.{get, insert}
use desktop_folder_locker.Vault2.Vault.Disk.{Disk, node, node_in, read, read_node, read_dir, put}
use desktop_folder_locker.Vault2.Vault.Folders.{Vault, iv_result, read_iv}
use desktop_folder_locker.Vault2.Vault.Reading.{entry_of, entries_of, read_entries, collect}
use desktop_folder_locker.Vault2.Vault.Lookup.{lookup_parts}
use desktop_folder_locker.Vault2.Vault.Changes.{split_last}
use desktop_folder_locker.Vault2.Vault.Creating.{create_file, create_dir}
use desktop_folder_locker.Vault2.Vault.Opening.{ContentCalls, open_disk}
use desktop_folder_locker.Vault2.Vault.Walk.{
  find_in, walk, walk_parts, parent_in, IsName, IsTidy, IsCoherent,
}
use desktop_folder_locker.Vault2.Vault.Agreement.{Agrees}
use desktop_folder_locker.Vault2.Vault.Found.{lookup_parts-walk_parts}
use desktop_folder_locker.Vault2.Vault.Parents.{plan_new}
use desktop_folder_locker.Vault2.Vault.Created.{create_file-plan_new}
use desktop_folder_locker.Vault2.Vault.Refused.{create_file-create_dir-refused}
use desktop_folder_locker.Vault2.Vault.New.{made, made-IsNewDisk, IsNewDisk-IsTidy, empty_table}
use desktop_folder_locker.Vault2.Vault.Toy.{code, unary, upper, calls, calls-NamesAreLawful}

abbrev content : ContentCalls
content = record { new = λ n. ok tt; from_file = λ bytes. ok tt; plain_len = λ n. n; len = λ f. 0 }

abbrev iv : Bytes
iv = 1 ∷ 2 ∷ 3 ∷ 4 ∷ 5 ∷ 6 ∷ 7 ∷ 8 ∷ 9 ∷ 10 ∷ 11 ∷ 12 ∷ 13 ∷ 14 ∷ 15 ∷ 16 ∷ []

abbrev no_disk : Disk
no_disk path = none

abbrev top : Disk
top = made iv (9 ∷ []) no_disk

abbrev new_vault : Vault
new_vault = record {
  disk = top;
  dirs = [];
  files = [];
  path_of = λ f. [];
  is_open = λ f. false;
  next = 0;
}

new_vault-IsCoherent : IsCoherent calls new_vault
unfolding open_disk
new_vault-IsCoherent = empty_table calls top

new_vault-IsTidy : IsTidy calls top
new_vault-IsTidy =
    IsNewDisk-IsTidy calls calls-NamesAreLawful
      (made-IsNewDisk iv (9 ∷ []) no_disk (λ inner path. refl))

taken_apart : components (codes "\\x") ≡ ok (codes "x" ∷ [])
unfolding components check_all parts_of check_name
taken_apart = refl

last_part : split_last (codes "x" ∷ []) ≡ some (codes "x", [])
unfolding split_last
last_part = refl

x-IsName : IsName (codes "x")
unfolding is_utf8
x-IsName = (refl, omega arith)

x-IsName' : IsName (codes "X")
unfolding is_utf8
x-IsName' = (refl, omega arith)

no-IsName : IsName (codes "no")
unfolding is_utf8
no-IsName = (refl, omega arith)

top_known : read_iv [] top ≡ ok iv
unfolding read_iv iv_result read read_node node node_in put get insert
top_known = refl

missing_apart : components (codes "no\\x") ≡ ok (codes "no" ∷ codes "x" ∷ [])
unfolding components check_all parts_of check_name
missing_apart = refl

missing_last : split_last (codes "no" ∷ codes "x" ∷ []) ≡ some (codes "x", codes "no" ∷ [])
unfolding split_last
missing_last = refl

x_plan : plan_new calls top (codes "x") [] ≡ ok ([], iv, code (codes "x"))
unfolding plan_new parent_in walk_parts read_iv iv_result read read_node node node_in put get insert
    find_in read_entries read_dir entries_of entry_of is_internal_entry collect calls code unary
    upper
x_plan = refl

x-Created :
    IsCoherent calls (create_file calls (codes "\\x") new_vault).1
    × IsTidy calls (create_file calls (codes "\\x") new_vault).1.disk
x-Created =
    let (f, ran, there, found, c, t) =
      create_file-plan_new calls calls-NamesAreLawful new_vault (codes "\\x") (codes "x" ∷ [])
        (codes "x") [] new_vault-IsCoherent new_vault-IsTidy taken_apart last_part x-IsName tt [] iv
        (code (codes "x")) [] iv (codes "X") x_plan top_known in
    (c, t)

-- The vault with the file.
abbrev with_file : Vault
with_file = (create_file calls (codes "\\x") new_vault).1

lookup_parts-walk_parts_example :
    Agrees calls with_file
      (lookup_parts calls (codes "X" ∷ []) with_file)
      (walk_parts calls with_file.disk (codes "X" ∷ []))
lookup_parts-walk_parts_example =
    lookup_parts-walk_parts calls with_file (codes "X" ∷ []) x-Created.0 x-Created.1 (x-IsName', tt)

missing_plan : plan_new calls top (codes "x") (codes "no" ∷ []) ≡ err Error.not_found
unfolding plan_new parent_in walk_parts walk read_iv iv_result read read_node node node_in put get
    insert find_in read_entries read_dir entries_of entry_of is_internal_entry collect calls code
    unary upper
missing_plan = refl

create_file-create_dir-refused_example :
    Agrees calls new_vault (create_file calls (codes "no\\x") new_vault) (err Error.not_found)
    × Agrees calls new_vault
        (create_dir calls iv (codes ".new-0") (codes "no\\x") new_vault)
        (err Error.not_found)
create_file-create_dir-refused_example =
    create_file-create_dir-refused calls new_vault (codes "no\\x") (codes "no" ∷ codes "x" ∷ [])
      (codes "x") (codes "no" ∷ []) iv (codes ".new-0") Error.not_found new_vault-IsCoherent
      new_vault-IsTidy missing_apart missing_last (no-IsName, tt) missing_plan
