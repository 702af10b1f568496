-- ===== src/Accounts/Runs.antt =====
-- Accounts of a machine whose keys are bytes.
use blog_solutions.Prelude.{
  pos, if◌then◌else◌, arith, All, ◌≡◌, ◌≢◌, refl, [], ◌∷◌, ◌++◌, none, some, ok, err,
}
use blog_solutions.Rlp.Item.{Bytes, IsByte}
use blog_solutions.Blob.Packing.{equal_bytes}
use blog_solutions.Local.Startup.{has_prefix, lower, to_lower}
use blog_solutions.Accounts.Hex.{hex_digit, hex_encode, digit_value, hex_decode}
use blog_solutions.Accounts.{
  invalid_hex, project_marker, account_directory, key2_file_path, join, index_from, path_at,
  get_path, key_file, missing, file, healthy, failing, Machine, Keys, entry_of, write_key, generate,
  parse_key, parse_hex, load_or_generate, with_address, account_in, get_account,
}
use blog_solutions.Accounts.Kept.{get_account_again, get_account_keeps}

-- A key is the byte 90 or the byte 91.
data Sample : Type 0 where
  one two : Sample

abbrev sample_bytes : Sample → Bytes
sample_bytes one = 90 ∷ []
sample_bytes two = 91 ∷ []

abbrev sample_keys : Keys Sample
sample_keys = record {
  from_ecdsa = sample_bytes;
  to_ecdsa = λ s.
      if equal_bytes s (90 ∷ [])
      then some one
      else if equal_bytes s (91 ∷ [])
      then some two
      else none;
  address_of = λ key. 7;
}

abbrev reads_back : (key : Sample) → sample_keys.to_ecdsa (sample_keys.from_ecdsa key) ≡ some key
reads_back one = unfold equal_bytes in refl
reads_back two = unfold equal_bytes in refl

abbrev are_bytes : (key : Sample) → All IsByte (sample_keys.from_ecdsa key)
are_bytes one = (omega arith, tt)
are_bytes two = (omega arith, tt)

-- A source under /s/transaction-types/a.
abbrev filename : Bytes
filename = 0x2f ∷ 0x73 ∷ 0x2f ∷ project_marker ++ 0x2f ∷ 0x61 ∷ []

abbrev second_file : Bytes
second_file = join (join (0x2f ∷ 0x73 ∷ 0x2f ∷ project_marker) account_directory) key2_file_path

-- The second account has a file already, which is not a key.
abbrev empty_machine : Machine Sample
empty_machine = record {
  files = (second_file, file (0x78 ∷ [])) ∷ [];
  disk = healthy;
  next_key = some one;
}

abbrev later_machine : Machine Sample
later_machine = record (get_account sample_keys filename (pos 1) empty_machine).1 {
  disk = failing missing;
  next_key = some two;
}

makes_key :
    get_account sample_keys filename (pos 1) empty_machine
    ≡ (ok (7, one), (get_account sample_keys filename (pos 1) empty_machine).1)
unfolding get_account account_in with_address load_or_generate generate write_key entry_of key_file
    get_path path_at index_from equal_bytes has_prefix to_lower lower hex_encode hex_digit
makes_key = refl

get_account_again_example :
    get_account sample_keys filename (pos 1) later_machine ≡ (ok (7, one), later_machine)
get_account_again_example =
    get_account_again sample_keys reads_back are_bytes filename (pos 1) empty_machine
      (get_account sample_keys filename (pos 1) empty_machine).1 later_machine 7 one makes_key refl

second_file_here : entry_of second_file empty_machine.files ≢ missing
unfolding entry_of equal_bytes
second_file_here e = cc

get_account_keeps_example :
    entry_of second_file (get_account sample_keys filename (pos 1) empty_machine).1.files
    ≡ entry_of second_file empty_machine.files
get_account_keeps_example =
    get_account_keeps sample_keys second_file filename (pos 1) empty_machine second_file_here

rejects_text : (get_account sample_keys filename (pos 2) empty_machine).0 ≡ err invalid_hex
unfolding get_account account_in with_address load_or_generate parse_hex parse_key entry_of key_file
    get_path path_at index_from equal_bytes has_prefix to_lower lower hex_decode digit_value
rejects_text = refl
