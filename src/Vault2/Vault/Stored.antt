-- ===== src/Vault2/Vault/Stored.antt =====
-- The theorems on vault.rs with the functions of names.rs, over a toy cipher and toy hashes: a new
-- vault, and a file in it whose name is so long that its stored name stands in a file beside it.
use desktop_folder_locker.Common.{
  ℕ, ◌≡◌, refl, ap, ◌∙◌, some, none, [], ◌∷◌, ◌++◌, true, false, ◌&&◌, arith, if◌then◌else◌,
  eq_bytes, length, length-append,
}
use desktop_folder_locker.Common.Text.{Text, codes}
use desktop_folder_locker.Vault2.Crypto.{Bytes}
use desktop_folder_locker.Vault2.Crypto.Toy.{toy, toy-IsLawful, toy-sealed}
use desktop_folder_locker.Vault2.Error.{ok, and_then}
use desktop_folder_locker.Vault2.Names.Defs.{
  synthetic_iv, Keys, check_name, is_utf8, encrypt_name, is_long_entry,
}
use desktop_folder_locker.Vault2.Names.Utf8.{has_no_byte}
use desktop_folder_locker.Vault2.Names.Toy.{
  hashes, hashes-HashesAreLawful, hashes-mac_bytes, hashes-ascii, hashes-digest, has_no_byte-repeat,
}
use desktop_folder_locker.Vault2.Names.Trip.{encrypt_name-eq_ok, length-synthetic_iv}
use desktop_folder_locker.Vault2.Names.Entry.{entry_name-kind}
use desktop_folder_locker.Vault2.Vault.Paths.{components, parts_of, check_all}
use desktop_folder_locker.Vault2.Vault.Maps.{eq_path, get, insert}
use desktop_folder_locker.Vault2.Vault.Disk.{file, Disk, node, node_in, read, read_node, put}
use desktop_folder_locker.Vault2.Vault.Folders.{NameCalls, Vault, iv_result, read_iv}
use desktop_folder_locker.Vault2.Vault.Changes.{split_last}
use desktop_folder_locker.Vault2.Vault.Creating.{create_file}
use desktop_folder_locker.Vault2.Vault.Opening.{ContentCalls, open_disk, create_vault}
use desktop_folder_locker.Vault2.Vault.Walk.{
  find_in, walk, walk_parts, parent_in, IsName, IsTidy, IsCoherent,
}
use desktop_folder_locker.Vault2.Vault.Laws.{NamesAreLawful}
use desktop_folder_locker.Vault2.Vault.Named.{
  names, GivesBytes, DigestsDiffer, names-NamesAreLawful,
}
use desktop_folder_locker.Vault2.Vault.Parents.{plan_new, plan_in, plan_name}
use desktop_folder_locker.Vault2.Vault.Created.{create_file-plan_new}
use desktop_folder_locker.Vault2.Vault.New.{
  made, made-IsNewDisk, IsNewDisk-IsTidy, IsNewDisk-find_in, empty_table, create_vault-IsTidy,
}
use desktop_folder_locker.Vault2.Vault.Toy.{upper}

abbrev keys : Keys
keys = record { names = 3 ∷ 1 ∷ []; name_iv = 4 ∷ 1 ∷ [] }

toy-bytes :
    (key nonce aad plain body tag : Bytes)
    → toy.encrypt key nonce aad plain ≡ some (body, tag)
    → has_no_byte plain ≡ false
    → (has_no_byte body ≡ false) × (has_no_byte tag ≡ false)
toy-bytes key nonce aad plain body tag e bytes =
    let (same, n, small, is_tag) = toy-sealed key nonce aad plain body tag e in
    (ap has_no_byte same ∙ bytes, ap has_no_byte is_tag ∙ has_no_byte-repeat 16 n small)

toy-GivesBytes : GivesBytes toy hashes
toy-GivesBytes = record { mac = hashes-mac_bytes; sealed = toy-bytes; ascii = hashes-ascii }

toy-DigestsDiffer : DigestsDiffer toy hashes keys
toy-DigestsDiffer iv name encoded name' encoded' is_name is_name' e e' same =
    hashes-digest encoded encoded' same

abbrev calls : NameCalls
calls = names toy hashes keys upper

names-NamesAreLawful_example : NamesAreLawful (names toy hashes keys upper)
names-NamesAreLawful_example =
    names-NamesAreLawful toy hashes toy-IsLawful hashes-HashesAreLawful toy-GivesBytes keys upper
      toy-DigestsDiffer

calls-NamesAreLawful : NamesAreLawful calls
calls-NamesAreLawful =
    names-NamesAreLawful toy hashes toy-IsLawful hashes-HashesAreLawful toy-GivesBytes keys upper
      toy-DigestsDiffer

abbrev content : ContentCalls
content = record { new = λ n. ok tt; from_file = λ bytes. ok tt; plain_len = λ n. n; len = λ f. 0 }

abbrev iv : Bytes
iv = 1 ∷ 2 ∷ 3 ∷ 4 ∷ 5 ∷ 6 ∷ 7 ∷ 8 ∷ 9 ∷ 10 ∷ 11 ∷ 12 ∷ 13 ∷ 14 ∷ 15 ∷ 16 ∷ []

abbrev no_disk : Disk
no_disk path = none

create_vault-IsTidy_example :
    (v : Vault) × (create_vault content iv (9 ∷ []) 4096 no_disk ≡ (ok v, v.disk))
    × (find_in calls v.disk [] iv (codes "x") ≡ ok none)
    × IsCoherent calls v
    × IsTidy calls v.disk
create_vault-IsTidy_example =
    create_vault-IsTidy content iv (9 ∷ []) 4096 no_disk calls (codes "x") calls-NamesAreLawful refl
      (λ inner path. refl) refl refl

abbrev top : Disk
top = made iv (9 ∷ []) no_disk

abbrev new_vault : Vault
new_vault = record {
  disk = top;
  dirs = [];
  files = [];
  path_of = λ f. [];
  is_open = λ f. false;
  next = 0;
}

new_vault-IsCoherent : IsCoherent calls new_vault
unfolding open_disk
new_vault-IsCoherent = empty_table calls top

new_vault-IsTidy : IsTidy calls top
new_vault-IsTidy =
    IsNewDisk-IsTidy calls calls-NamesAreLawful
      (made-IsNewDisk iv (9 ∷ []) no_disk (λ inner path. refl))

-- A name of 100 characters, at most 91 of which fit.
abbrev name : Text
name =
    codes
      "x123456789x123456789x123456789x123456789x123456789x123456789x123456789x123456789x123456789x123456789"

name-IsName : IsName name
unfolding is_utf8
name-IsName = (refl, omega arith)

name_checked : check_name name ≡ ok tt
unfolding check_name
name_checked = refl

stored :
    (raw : Bytes) × (length raw ≡ 140)
    × (encrypt_name toy hashes keys iv name ≡ ok (hashes.encode raw))
stored =
    let siv = synthetic_iv toy hashes keys iv name in
    let (body, tag, e, is) =
      encrypt_name-eq_ok toy hashes toy-IsLawful hashes-HashesAreLawful keys iv name name_checked
        name-IsName.1 in
    (
      siv ++ (body ++ tag),
      omega (
        arith,
        length-append siv (body ++ tag),
        length-append body tag,
        length-synthetic_iv toy hashes toy-IsLawful hashes-HashesAreLawful keys iv name,
        toy-IsLawful.length_body keys.names siv iv name body tag e,
        toy-IsLawful.length_tag keys.names siv iv name body tag e,
      ),
      is,
    )

abbrev encoded : Text
encoded = hashes.encode stored.0

taken_apart : components (codes "\\" ++ name) ≡ ok (name ∷ [])
unfolding components check_all parts_of check_name
taken_apart = refl

last_part : split_last (name ∷ []) ≡ some (name, [])
unfolding split_last
last_part = refl

top_known : read_iv [] top ≡ ok iv
unfolding read_iv iv_result read read_node node node_in put get insert
top_known = refl

top_parent : parent_in calls top [] ≡ ok ([], iv)
unfolding parent_in walk_parts walk read_iv iv_result read read_node node node_in put get insert
top_parent = refl

name_plan : plan_new calls top name [] ≡ ok ([], iv, encoded)
unfolding plan_new names
name_plan =
    ap (λ r. and_then r (plan_in calls top name)) top_parent
    ∙ ap (λ r. and_then r (plan_name calls [] iv name))
        (IsNewDisk-find_in calls calls-NamesAreLawful
          (made-IsNewDisk iv (9 ∷ []) no_disk (λ inner path. refl)) name)
    ∙ ap (λ r. and_then r λ encoded. ok ([], iv, encoded)) stored.2

create_file-plan_new_example :
    let run = create_file calls (codes "\\" ++ name) new_vault in
    (f : ℕ) × (run.0
      ≡ ok (record { stored_path = calls.entry_name encoded ∷ []; name = name; is_dir = false }, f))
    × (node run.1.disk (calls.entry_name encoded ∷ []) ≡ some (file []))
    × (find_in calls run.1.disk [] iv name ≡ (
        if eq_path [] [] && eq_bytes (calls.fold name) (calls.fold name)
        then ok (some (record { name = name; stored = calls.entry_name encoded; is_dir = false }))
        else find_in calls top [] iv name))
    × IsCoherent calls run.1
    × IsTidy calls run.1.disk
create_file-plan_new_example =
    create_file-plan_new calls calls-NamesAreLawful new_vault (codes "\\" ++ name) (name ∷ []) name
      [] new_vault-IsCoherent new_vault-IsTidy taken_apart last_part name-IsName tt [] iv encoded []
      iv name name_plan top_known

-- The stored name stands in the file beside its entry.
encoded-IsLong : is_long_entry (calls.entry_name encoded) ≡ true
unfolding names
encoded-IsLong =
    let (_, kind, _) =
      entry_name-kind toy hashes hashes-HashesAreLawful stored.0 (omega (arith, stored.1)) in
    kind.1 (omega (arith, hashes-HashesAreLawful.length-encode stored.0, stored.1))
