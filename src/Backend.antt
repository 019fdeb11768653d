-- ===== src/Backend.antt =====
-- backend.rs: the traits of a share's storage. Their implementations are arguments of the server, so
-- the traits are a record; `World` is all the storage behind them.
use rust_smb_server.Prelude.{ℕ, Bool, true, false, if◌then◌else◌, Option, List}
use rust_smb_server.Prelude.Text.{Str}
use rust_smb_server.Error.{SmbResult, err, not_supported}
use rust_smb_server.Path.{SmbPath}

pub data OpenIntent : Type 0 where
  open_existing create open_or_create overwrite_or_create truncate : OpenIntent

pub record OpenOptions : Type 0 where
  pub read : Bool
  pub write : Bool
  pub intent : OpenIntent
  pub directory : Bool
  pub non_directory : Bool
  pub delete_on_close : Bool

pub record FileInfo : Type 0 where
  pub name : Str
  pub end_of_file : ℕ
  pub allocation_size : ℕ
  pub creation_time : ℕ
  pub last_access_time : ℕ
  pub last_write_time : ℕ
  pub change_time : ℕ
  pub is_directory : Bool
  pub file_index : ℕ

abbrev pub file_attribute_directory : ℕ
file_attribute_directory = 0x0000_0010

abbrev pub file_attribute_normal : ℕ
file_attribute_normal = 0x0000_0080

unfoldable pub attributes : FileInfo → ℕ
attributes i = if i.is_directory then file_attribute_directory else file_attribute_normal

pub record FileTimes : Type 0 where
  pub creation_time : Option ℕ
  pub last_access_time : Option ℕ
  pub last_write_time : Option ℕ
  pub change_time : Option ℕ

pub record BackendCapabilities : Type 0 where
  pub is_read_only : Bool
  pub case_sensitive : Bool
  pub supports_named_streams : Bool

-- The traits `ShareBackend` and `Handle`. A call may change the storage and may fail.
pub record Storage : Type 1 where
  pub World : Type 0
  pub Backend : Type 0
  pub Handle : Type 0
  pub open_path : Backend → SmbPath → OpenOptions → World → SmbResult Handle × World
  pub unlink : Backend → SmbPath → World → SmbResult (Unit {0}) × World
  pub rename : Backend → SmbPath → SmbPath → Bool → World → SmbResult (Unit {0}) × World
  pub capabilities : Backend → BackendCapabilities
  pub read : Handle → ℕ → ℕ → World → SmbResult (List ℕ) × World
  pub write : Handle → ℕ → List ℕ → World → SmbResult ℕ × World
  pub write_owned : Handle → ℕ → List ℕ → World → SmbResult ℕ × World
  pub flush : Handle → World → SmbResult (Unit {0}) × World
  pub stat : Handle → World → SmbResult FileInfo × World
  pub set_times : Handle → FileTimes → World → SmbResult (Unit {0}) × World
  pub truncate : Handle → ℕ → World → SmbResult (Unit {0}) × World
  pub list_dir : Handle → Option Str → World → SmbResult (List FileInfo) × World
  pub close : Handle → World → SmbResult (Unit {0}) × World

-- A backend of a share: one that the server was given, or `NotSupportedBackend`, behind IPC$.
module _ (S : Storage) where
  pub data ShareBackend : Type 0 where
    not_supported_backend : ShareBackend
    given : S.Backend → ShareBackend

  unfoldable pub backend_open :
      ShareBackend → SmbPath → OpenOptions → S.World → SmbResult S.Handle × S.World
  backend_open not_supported_backend path opts w = (err not_supported, w)
  backend_open (given b) path opts w = S.open_path b path opts w

  unfoldable pub backend_unlink : ShareBackend → SmbPath → S.World → SmbResult (Unit {0}) × S.World
  backend_unlink not_supported_backend path w = (err not_supported, w)
  backend_unlink (given b) path w = S.unlink b path w

  unfoldable pub backend_rename :
      ShareBackend → SmbPath → SmbPath → Bool → S.World → SmbResult (Unit {0}) × S.World
  backend_rename not_supported_backend from to replace w = (err not_supported, w)
  backend_rename (given b) from to replace w = S.rename b from to replace w

  unfoldable pub backend_capabilities : ShareBackend → BackendCapabilities
  backend_capabilities not_supported_backend = record {
    is_read_only = true;
    case_sensitive = false;
    supports_named_streams = false;
  }
  backend_capabilities (given b) = S.capabilities b
