-- ===== src/Drive/Protocol.antt =====
-- native/drive/src/protocol.rs: the requests of the app and how a request fails. Paths, keys and
-- labels are texts as they arrive; the JSON around them is read and written by serde_json.
use Prim.Native.String.{String}
use desktop_folder_locker.Common.{ℕ, Option, Bool}
use desktop_folder_locker.Common.Text.{Text}
use desktop_folder_locker.Vault2.Error.{Error, io, corrupt, unsupported, mismatch}

pub data Command : Type 0 where
  hello : Command
  import_folder : (vault key source : Text) → Command
  export_vault : (vault key target : Text) → Command
  mount : (vault key label : Text) (drive_letter : Option ℕ) (read_only : Bool) → Command
  unmount : (vault : Text) (force : Bool) → Command
  cancel : (target : ℕ) → Command
  list : Command

pub record Request : Type 0 where
  pub id : ℕ
  pub command : Command

pub record Failure : Type 0 where
  pub code : String
  pub message : String

pub data Reply {ℓ} (A : Type ℓ) : Type ℓ where
  done : A → Reply A
  failed : Failure → Reply A

-- `Failure::new`
abbrev pub failure : {A : Type 0} → String → String → Reply A
failure code message = failed (record { code = code; message = message })

-- The code of `From<flk_vault2::Error>`; its message is the error's own text.
abbrev pub code_of : Error → String
code_of Error.not_found = "notFound"
code_of Error.already_exists = "alreadyExists"
code_of (corrupt what) = "corrupt"
code_of (mismatch what) = "mismatch"
code_of (unsupported what) = "unsupported"
code_of Error.cancelled = "cancelled"
code_of Error.wrong_key = "wrongKey"
code_of (io e) = "io"
code_of _ = "failed"
