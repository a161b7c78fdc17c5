-- ===== src/Security/Facilities.antt =====
-- What the security of a hub rests on outside the repository, as parameters: the files and the
-- encoding of Windows, the key store of p2pcng and the authentication policy of P2PeerHub.
use target_facade.Base.{ℕ, ◌≡◌, ◌≢◌, Bool, true, false, List, [], ◌∷◌, ◌++◌, Option, none, some}
use target_facade.Base.Text.{WString, codes}

-- p2pcng::IdResult: the values that the code names, and any other by its number.
pub data IdResult : Type 0 where
  id_ok id_err_args id_err_format id_err_io : IdResult
  id_other : ℕ → IdResult

-- `e == p2pcng::IdOk`
abbrev pub is_id_ok : IdResult → Bool
is_id_ok id_ok = true
is_id_ok _ = false

-- The narrow bytes of a path or of an identity, and a raw public point.
abbrev pub Bytes : Type 0
Bytes = List ℕ

-- The files are those of the process; the policy is that of one hub, with the keys it holds.
pub record Policy : Type 1 where
  pub Disk : Type 0
  pub Auth : Type 0
  pub IdKey : Type 0
  pub AgreeKey : Type 0
  -- `WideCharToMultiByte (CP_UTF8, …)`, none when it fails
  pub utf8 : WString → Option Bytes
  -- `DeleteFileW`
  pub delete_file : WString → Disk → Disk
  -- `MoveFileExW (…, MOVEFILE_REPLACE_EXISTING)`
  pub move_file : WString → WString → Disk → Bool × Disk
  -- `GetFileAttributesW (path) != INVALID_FILE_ATTRIBUTES`
  pub file_exists : WString → Disk → Bool
  -- `_wfopen_s (…, "wb")` and the text of an empty revocation list, false when it does not open
  pub write_revocation_text : WString → Disk → Bool × Disk
  -- `CreateDirectoryW`, true also for ERROR_ALREADY_EXISTS
  pub create_directory : WString → Disk → Bool × Disk
  -- `GetModuleFileNameW` of the facade's module, none when either call fails
  pub module_path : Option WString
  -- `AppendAllowList`, the agreement point optional
  pub append_allow_list : Bytes → Bytes → Bytes → Option Bytes → Disk → IdResult × Disk
  pub load_public_key : Bytes → Disk → IdResult × IdKey
  pub export_public : IdKey → Option Bytes
  pub load_agreement_public_key : Bytes → Disk → IdResult × AgreeKey
  pub export_agreement : AgreeKey → Option Bytes
  pub import_agreement : Bytes → Option AgreeKey
  pub save_agreement_public_key : Bytes → AgreeKey → Disk → IdResult × Disk
  pub fingerprint : Bytes → Bytes
  -- P2PeerHub: the result, the fingerprint and what the call leaves
  pub provision_auth : Bytes → Disk → Auth → IdResult × Bytes × Disk × Auth
  pub set_agreement_key : Bytes → Disk → Auth → IdResult × Disk × Auth
  pub get_agreement_public : Auth → Option Bytes
  pub set_revocation_list : Bytes → Disk → Auth → IdResult × Auth
  pub set_allow_list : Bytes → Disk → Auth → IdResult × Auth
  pub require_auth : Bool → Auth → Auth
  pub require_seal : Bool → Auth → Auth
  pub require_relay_auth : Bool → Auth → Auth
  -- `AuthArm () == p2pauth::ArmOk`
  pub auth_arms : Disk → Auth → Bool
  pub is_auth_required : Auth → Bool
  pub can_auth_sign : Auth → Bool
  pub can_open : Auth → Bool
  pub is_seal_required : Auth → Bool
  pub is_revocation_configured : Auth → Bool
  pub is_revocation_usable : Auth → Bool

-- ApplyDefaultPosture, which RelinquishSecurity calls
unfoldable pub apply_default_posture : (p : Policy) → p.Auth → p.Auth
apply_default_posture p a =
    p.require_relay_auth false (p.require_seal false (p.require_auth false a))

-- One line of an allow-list: an identity, its public point and its agreement point.
pub record AllowEntry : Type 0 where
  pub who : Bytes
  pub id : Bytes
  pub agree : Option Bytes

-- the lines behind so many more; a file that nothing was written to is not there
abbrev pub appended : Option (List AllowEntry) → List AllowEntry → Option (List AllowEntry)
appended o [] = o
appended none (e ∷ es) = some (e ∷ es)
appended (some old) (e ∷ es) = some (old ++ e ∷ es)

-- the file that an allow-list is built in
abbrev pub beside : WString → WString
beside path = path ++ codes ".new"

-- What is documented of the calls on a file and on the file beside it, as far as the proofs need
-- it: an entry is appended, a deletion takes the one file and may fail, a move replaces the whole
-- file, and a move that fails changes nothing.
pub record IsFileStore (p : Policy) : Type 0 where
  -- the lines of the allow-list in a file, none where there is no file
  pub lines : WString → p.Disk → Option (List AllowEntry)
  pub append_line :
      (path : WString) (name who id : Bytes) (agree : Option Bytes) (d : p.Disk)
      → p.utf8 path ≡ some name
      → (p.append_allow_list name who id agree d).0 ≡ id_ok
      → lines path (p.append_allow_list name who id agree d).1
        ≡ appended (lines path d) (record { who = who; id = id; agree = agree } ∷ [])
  pub append_apart :
      (path : WString) (name who id : Bytes) (agree : Option Bytes) (d : p.Disk)
      → p.utf8 (beside path) ≡ some name
      → lines path (p.append_allow_list name who id agree d).1 ≡ lines path d
  pub delete_apart :
      (path : WString) (d : p.Disk) → lines path (p.delete_file (beside path) d) ≡ lines path d
  pub move_lines :
      (path : WString) (d : p.Disk)
      → (p.move_file (beside path) path d).0 ≡ true
      → (lines path (p.move_file (beside path) path d).1 ≡ lines (beside path) d)
        × (lines (beside path) d ≢ none)
  pub move_refused :
      (path : WString) (d : p.Disk)
      → (p.move_file (beside path) path d).0 ≡ false
      → lines path (p.move_file (beside path) path d).1 ≡ lines path d

-- What is documented of the switch that RequireAuth sets: nothing else of these calls turns it.
pub record IsAuthSwitch (p : Policy) : Type 0 where
  pub require_sets : (on : Bool) (a : p.Auth) → p.is_auth_required (p.require_auth on a) ≡ on
  pub seal_keeps :
      (on : Bool) (a : p.Auth) → p.is_auth_required (p.require_seal on a) ≡ p.is_auth_required a
  pub relay_keeps :
      (on : Bool) (a : p.Auth)
      → p.is_auth_required (p.require_relay_auth on a) ≡ p.is_auth_required a
  pub allow_keeps :
      (path : Bytes) (d : p.Disk) (a : p.Auth)
      → p.is_auth_required (p.set_allow_list path d a).1 ≡ p.is_auth_required a
