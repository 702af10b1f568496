-- ===== src/Accounts.antt =====
-- `getPath` and `GetAccount`, the same in every article:
-- evm/evm-tx-understanding-legacy-ethereum/transaction-types/account/account.go
pub mod Hex
pub mod Kept
mod Runs
use blog_solutions.Prelude.{
  ℤ, pos, ℕ, zero, suc, ◌+◌, Bool, true, false, List, [], ◌∷◌, ◌++◌, Option, none, some, Outcome,
  ok, err, out_of_fuel, panic, no_project_root, length, take, if◌then◌else◌, ◌>>=◌,
}
use blog_solutions.Rlp.Item.{Bytes}
use blog_solutions.Blob.Packing.{equal_bytes}
use blog_solutions.Local.Startup.{has_prefix, to_lower}
use blog_solutions.Accounts.Hex.{hex_encode, hex_decode}

-- The ways in which `log.Fatal` ends the program.
pub data Fatal : Type 0 where
  invalid_account generate_failed write_failed read_failed invalid_hex invalid_key : Fatal

-- `strings.Index`
unfoldable pub index_from : ℕ → Bytes → Bytes → Option ℕ
index_from n [] part = if has_prefix [] part then some n else none
index_from n (b ∷ s) part =
    let rest = index_from (n + 1) s part in if has_prefix (b ∷ s) part then some n else rest

-- "transaction-types"
abbrev pub project_marker : Bytes
project_marker =
    0x74 ∷ 0x72 ∷ 0x61 ∷ 0x6e ∷ 0x73 ∷ 0x61 ∷ 0x63 ∷ 0x74 ∷ 0x69 ∷ 0x6f ∷ 0x6e ∷ 0x2d ∷ 0x74 ∷ 0x79
    ∷ 0x70 ∷ 0x65 ∷ 0x73 ∷ []

-- "account", "account1.key" and "account2.key"
abbrev pub account_directory : Bytes
account_directory = 0x61 ∷ 0x63 ∷ 0x63 ∷ 0x6f ∷ 0x75 ∷ 0x6e ∷ 0x74 ∷ []

abbrev pub key1_file_path : Bytes
key1_file_path = account_directory ++ (0x31 ∷ 0x2e ∷ 0x6b ∷ 0x65 ∷ 0x79 ∷ [])

abbrev pub key2_file_path : Bytes
key2_file_path = account_directory ++ (0x32 ∷ 0x2e ∷ 0x6b ∷ 0x65 ∷ 0x79 ∷ [])

-- `filepath.Join` of a clean path and a name.
abbrev pub join : Bytes → Bytes → Bytes
join path name = path ++ 0x2f ∷ name

-- The path up to the marker, for the file name of the source.
unfoldable pub path_at : Bytes → Option ℕ → Outcome Fatal Bytes
path_at filename none = panic no_project_root
path_at filename (some index) =
    ok (join (take (index + length project_marker) filename) account_directory)

unfoldable pub get_path : Bytes → Outcome Fatal Bytes
get_path filename = path_at filename (index_from 0 (to_lower filename) (to_lower project_marker))

unfoldable pub key_file : ℤ → Bytes → Outcome Fatal Bytes
key_file (pos (suc zero)) path = ok (join path key1_file_path)
key_file (pos (suc (suc zero))) path = ok (join path key2_file_path)
key_file _ path = err invalid_account

-- A name with no file, or a file, which may not be readable.
pub data Entry : Type 0 where
  missing unreadable : Entry
  file : Bytes → Entry

-- What becomes of a write: it goes well, or fails and leaves what it leaves.
pub data Disk : Type 0 where
  healthy : Disk
  failing : Entry → Disk

-- The files, the disk, and what `GenerateKey` answers next.
pub record Machine (Key : Type 0) : Type 0 where
  pub files : List (Bytes × Entry)
  pub disk : Disk
  pub next_key : Option Key

-- What go-ethereum does with keys.
pub record Keys (Key : Type 0) : Type 0 where
  pub from_ecdsa : Key → Bytes
  pub to_ecdsa : Bytes → Option Key
  pub address_of : Key → ℕ

unfoldable pub entry_of : Bytes → List (Bytes × Entry) → Entry
entry_of path [] = missing
entry_of path ((name, entry) ∷ files) =
    let rest = entry_of path files in if equal_bytes path name then entry else rest

module _ {Key : Type 0} (keys : Keys Key) where
  unfoldable pub write_key : Bytes → Key → Disk → Machine Key → Outcome Fatal Key × Machine Key
  write_key path key healthy m =
      (ok key, record m { files = (path, file (hex_encode (keys.from_ecdsa key))) ∷ m.files })
  write_key path key (failing entry) m =
      (err write_failed, record m { files = (path, entry) ∷ m.files })

  unfoldable pub generate : Bytes → Option Key → Machine Key → Outcome Fatal Key × Machine Key
  generate path none m = (err generate_failed, m)
  generate path (some key) m = write_key path key m.disk m

  unfoldable pub parse_key : Option Key → Outcome Fatal Key
  parse_key none = err invalid_key
  parse_key (some key) = ok key

  unfoldable pub parse_hex : Option Bytes → Outcome Fatal Key
  parse_hex none = err invalid_hex
  parse_hex (some s) = parse_key (keys.to_ecdsa s)

  -- Only a file that is not there is written: one that cannot be read ends the program.
  unfoldable pub load_or_generate : Bytes → Entry → Machine Key → Outcome Fatal Key × Machine Key
  load_or_generate path missing m = generate path m.next_key m
  load_or_generate path unreadable m = (err read_failed, m)
  load_or_generate path (file s) m = (parse_hex (hex_decode s), m)

  unfoldable pub with_address :
      Outcome Fatal Key × Machine Key → Outcome Fatal (ℕ × Key) × Machine Key
  with_address (o, m) = ((do key ← o; ok (keys.address_of key, key)), m)

  unfoldable pub account_in :
      Outcome Fatal Bytes → Machine Key → Outcome Fatal (ℕ × Key) × Machine Key
  account_in (ok path) m = with_address (load_or_generate path (entry_of path m.files) m)
  account_in (err e) m = (err e, m)
  account_in (panic p) m = (panic p, m)
  account_in out_of_fuel m = (out_of_fuel, m)

  -- `GetAccount`, for the file name of the source.
  unfoldable pub get_account : Bytes → ℤ → Machine Key → Outcome Fatal (ℕ × Key) × Machine Key
  get_account filename number m = account_in (get_path filename >>= key_file number) m
