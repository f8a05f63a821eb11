-- ===== src/Vault2/Vault/Ivs.antt =====
-- When the IV of a folder is read: it stands in the folder and has its length.
use desktop_folder_locker.Common.{Option, none, some, ◌≡◌, refl, ap, ◌∙◌, ==_iff, arith, length}
use desktop_folder_locker.Common.Text.{Text}
use desktop_folder_locker.Vault2.Crypto.{Bytes}
use desktop_folder_locker.Vault2.Error.{ok}
use desktop_folder_locker.Vault2.Names.Defs.{dir_iv_file}
use desktop_folder_locker.Vault2.Vault.Maps.{StoredPath, text_eq, get}
use desktop_folder_locker.Vault2.Vault.Disk.{
  Node, file, folder, Directory, Disk, node, node_in, read, read_node,
}
use desktop_folder_locker.Vault2.Vault.Folders.{iv_result, read_iv, dir_iv_len}

abbrev pub HasIv : Directory → Bytes → Type 0
HasIv items iv = (get dir_iv_file items ≡ some (file iv)) × (length iv ≡ dir_iv_len)

iv_result-HasIv :
    (here n : Option Node) (iv : Bytes)
    → iv_result here (read_node n) ≡ ok iv
    → (n ≡ some (file iv)) × (length iv ≡ dir_iv_len)
unfolding iv_result read_node
iv_result-HasIv here none iv e = absurd (ground arith)
iv_result-HasIv here (some folder) iv e = absurd (ground arith)
iv_result-HasIv here (some (file bytes)) iv e = ground (arith, ==_iff (length bytes) dir_iv_len)

pub node_in-eq_some :
    (name : Text) {n : Node} (o : Option Directory)
    → node_in name o ≡ some n
    → (items : Directory) × (o ≡ some items) × (get name items ≡ some n)
unfolding node_in
node_in-eq_some name none e = absurd (cc e)
node_in-eq_some name (some items) e = (items, refl, e)

pub read_iv-HasIv :
    (path : StoredPath) (disk : Disk) (iv : Bytes)
    → read_iv path disk ≡ ok iv
    → (items : Directory) × (disk path ≡ some items) × HasIv items iv
unfolding read_iv read node
read_iv-HasIv path disk iv e =
    let (n, len) = iv_result-HasIv (node disk path) (node_in dir_iv_file (disk path)) iv e in
    let (items, there, has) = node_in-eq_some dir_iv_file (disk path) n in
    (items, there, (has, len))

pub HasIv-read_iv :
    (path : StoredPath) (disk : Disk) (items : Directory) (iv : Bytes)
    → disk path ≡ some items
    → HasIv items iv
    → read_iv path disk ≡ ok iv
unfolding read_iv read node node_in read_node iv_result
HasIv-read_iv path disk items iv e h =
    ap (iv_result (node disk path))
      (ap (λ o. read_node (node_in dir_iv_file o)) e ∙ ap read_node h.0)
    ∙ rw h.1 refl

-- The IV of a folder depends on what is in the folder only.
pub read_iv_same :
    (path : StoredPath) (disk disk' : Disk) (iv : Bytes)
    → disk' path ≡ disk path
    → read_iv path disk ≡ ok iv
    → read_iv path disk' ≡ ok iv
read_iv_same path disk disk' iv same e =
    let (items, there, has) = read_iv-HasIv path disk iv e in
    HasIv-read_iv path disk' items iv (same ∙ there) has
