-- ===== src/Local/Testbed.antt =====
-- A small go-ethereum and a node that mines, for the runs of the local reproductions.
use blog_solutions.Prelude.{
  ℕ, ◌+◌, ◌*◌, ◌%◌, [], ◌∷◌, ◌++◌, ℤ, pos, negsuc, Bool, true, false, List, Option, none, some,
  replicate, if◌then◌else◌, ◌==◌,
}
use blog_solutions.Rlp.Item.{Bytes}
use blog_solutions.Local.Program.{Trace, World}
use blog_solutions.Local.Calls.{
  Reply, answer, failure, not_found, other_error, Receipt, AccessList, NodeCall, NodeAnswer, Call,
  CallAnswer, chain_id, node_info, client_version, suggest_gas_price, fee_history,
  suggest_gas_tip_cap, wait_tick, set_balance, pending_nonce_at, balance_at, send_transaction,
  transaction_receipt, transaction_by_hash, code_at, estimate_gas, create_access_list,
  call_contract, working_directory, forge_create, forge_inspect, anvil_version, free_port,
  close_client, terminate_node, exited_in_time, kill_node, await_exit, context_error,
  current_directory, foundry_file, start_node, dial, sleep, node,
}
use blog_solutions.Local.Ethereum.{Ethereum}
use blog_solutions.Local.Startup.{anvil, supported_version}
use blog_solutions.Local.Silent.{silent}
use blog_solutions.Local.Token.{fixture_recipient, amount}

-- The fields of a transaction, which is written as its type and its nonce.
pub record Sample : Type 0 where
  pub type : ℕ
  pub nonce : ℕ
  pub to : ℕ
  pub value : ℤ
  pub data_of : Bytes
  pub gas_fee_cap : ℤ
  pub access_list : AccessList
  pub blob_hashes : List ℕ
  pub blob_gas_fee_cap : ℤ

abbrev pub sample : ℕ → ℕ → ℕ → ℤ → Bytes → Sample
sample type nonce to value data_of = record {
  type = type;
  nonce = nonce;
  to = to;
  value = value;
  data_of = data_of;
  gas_fee_cap = pos 0;
  access_list = [];
  blob_hashes = [];
  blob_gas_fee_cap = pos 0;
}

abbrev pub read_sample : Bytes → Reply Sample
read_sample (type ∷ nonce ∷ []) = answer (sample type nonce 0 (pos 0) [])
read_sample _ = failure (other_error 0)

abbrev pub nonnegative : ℤ → Option ℕ
nonnegative (pos n) = some n
nonnegative (negsuc n) = none

abbrev pub one_byte_address : Bytes → Option ℕ
one_byte_address (b ∷ []) = some b
one_byte_address _ = none

-- Keys are numbers and their own addresses. Every transaction is signed by the key given here.
abbrev pub sample_lib : ℕ → Ethereum Sample ℕ
sample_lib key = record {
  key_of = λ n. answer n;
  address_of = λ k. k;
  sign_legacy = λ chain k tx. answer (sample 0 tx.nonce tx.to tx.value []);
  sign_access_list = λ chain k tx.
      answer
        (record (sample 1 tx.nonce tx.to tx.value tx.data_of) { access_list = tx.access_list });
  sign_dynamic_fee = λ chain k tx.
      answer
        (record (sample 2 tx.nonce tx.to tx.value tx.data_of) { gas_fee_cap = tx.gas_fee_cap });
  sign_blob = λ chain k tx. answer (record (sample 3 tx.nonce tx.to (pos tx.value) []) {
    gas_fee_cap = pos tx.gas_fee_cap;
    blob_hashes = tx.blob_hashes;
    blob_gas_fee_cap = pos tx.blob_fee_cap;
  });
  marshal_binary = λ tx. answer (tx.type ∷ tx.nonce ∷ []);
  unmarshal_binary = read_sample;
  sender = λ chain tx. answer key;
  hash = λ tx. 1000 * tx.type + tx.nonce;
  type = λ tx. tx.type;
  nonce = λ tx. tx.nonce;
  to = λ tx. some tx.to;
  value = λ tx. tx.value;
  data_of = λ tx. tx.data_of;
  gas_fee_cap = λ tx. tx.gas_fee_cap;
  access_list = λ tx. tx.access_list;
  blob_hashes = λ tx. tx.blob_hashes;
  blob_gas_fee_cap = λ tx. tx.blob_gas_fee_cap;
  selector = λ s. 0x70 ∷ 0xa0 ∷ 0x82 ∷ 0x31 ∷ [];
  event_hash = λ s. 77;
  word_of = λ n. replicate 31 0 ++ n % 256 ∷ [];
  deployed_to = λ out. answer out;
  hex_address = one_byte_address;
  from_hex = λ s. s;
  from_big = nonnegative;
  use_ckzg = λ b. answer tt;
  blob_to_commitment = λ b. answer (1 ∷ []);
  compute_blob_proof = λ b c. answer (2 ∷ []);
  verify_blob_proof = λ b c p. answer tt;
  blob_hash = λ c. 55;
}

abbrev pub sent : Trace (NodeCall Sample) NodeAnswer → Option Sample
sent [] = none
sent ((send_transaction tx, a) ∷ past) = some tx
sent (e ∷ past) = sent past

abbrev pub is_sent : Option Sample → Bool
is_sent none = false
is_sent (some tx) = true

abbrev pub observed : Option Sample → Reply (Sample × Bool)
observed none = failure not_found
observed (some tx) = answer (tx, false)

abbrev pub has_waited : Trace (NodeCall Sample) NodeAnswer → Bool
has_waited [] = false
has_waited ((wait_tick, a) ∷ past) = true
has_waited (e ∷ past) = has_waited past

abbrev pub mined_receipt : ℕ → ℕ → Receipt
mined_receipt type hash = record {
  status = 1;
  type = type;
  tx_hash = hash;
  block_number = some (pos 7);
  gas_used = 21000;
  effective_gas_price = some (pos 3);
  logs =
      record {
        address = 9;
        topics = 77 ∷ 2 ∷ fixture_recipient ∷ [];
        data_of = replicate 31 0 ++ amount % 256 ∷ [];
      }
      ∷ [];
  blob_gas_used = 131072;
  blob_gas_price = some (pos 1);
}

-- The balance that the token names: the owner is known by the last byte of the data.
abbrev pub balance_bytes : Bool → Bool → Bytes
balance_bytes false true = 0x0d ∷ 0xe0 ∷ 0xb6 ∷ 0xb3 ∷ 0xa7 ∷ 0x64 ∷ 0x00 ∷ 0x00 ∷ []
balance_bytes true true = 0x0c ∷ 0x7d ∷ 0x71 ∷ 0x3b ∷ 0x49 ∷ 0xda ∷ 0x00 ∷ 0x00 ∷ []
balance_bytes false false = replicate 8 0
balance_bytes true false = 0x01 ∷ 0x63 ∷ 0x45 ∷ 0x78 ∷ 0x5d ∷ 0x8a ∷ 0x00 ∷ 0x00 ∷ []

abbrev pub last_byte : Bytes → ℕ
last_byte [] = 0
last_byte (b ∷ []) = b
last_byte (b ∷ c ∷ s) = last_byte (c ∷ s)

abbrev pub transferred_value : Option Sample → ℕ
transferred_value none = 0
transferred_value (some tx) = elim (nonnegative tx.value) [ none ↦ 0 | some n ↦ n ]

abbrev pub mining_world : World (NodeCall Sample) NodeAnswer
mining_world past chain_id = answer (pos 31337)
mining_world past node_info = answer (0x43 ∷ 0x61 ∷ 0x6e ∷ 0x63 ∷ 0x75 ∷ 0x6e ∷ [])
mining_world past client_version = answer anvil
mining_world past suggest_gas_price = answer (pos 1000000000)
mining_world past fee_history = answer (pos 5 ∷ pos 1000000000 ∷ [])
mining_world past suggest_gas_tip_cap = answer (pos 2000000000)
mining_world past (set_balance account value) = answer tt
mining_world past (pending_nonce_at account) = answer (if is_sent (sent past) then 4 else 3)
mining_world past (balance_at account) = answer (pos (5 + transferred_value (sent past)))
mining_world past (send_transaction tx) = answer tt
mining_world past (transaction_receipt hash) =
    if has_waited past
    then answer (mined_receipt (elim (sent past) [ none ↦ 0 | some tx ↦ tx.type ]) hash)
    else failure not_found
mining_world past (transaction_by_hash hash) = observed (sent past)
mining_world past (code_at account) = answer (0x60 ∷ [])
mining_world past (estimate_gas message) = answer 50000
mining_world past (create_access_list message) =
    answer (record { access_list = some ((9, 1 ∷ []) ∷ []); error = [] })
mining_world past (call_contract to data_of) =
    answer (replicate 24 0 ++ balance_bytes (is_sent (sent past)) (last_byte data_of == 2))
mining_world past working_directory = answer []
mining_world past forge_create = answer (9 ∷ [])
mining_world past forge_inspect = answer (0x60 ∷ 0x0a ∷ [])
mining_world past c = silent c

-- The calls of the client in a trace of the whole program.
abbrev pub client_calls : Trace (Call Sample) CallAnswer → Trace (NodeCall Sample) NodeAnswer
client_calls [] = []
client_calls ((node c, a) ∷ past) = (c, a) ∷ client_calls past
client_calls (e ∷ past) = client_calls past

-- The node has to be killed at the end.
abbrev pub whole_world : World (Call Sample) CallAnswer
whole_world past anvil_version = answer supported_version
whole_world past free_port = answer 4242
whole_world past close_client = tt
whole_world past terminate_node = tt
whole_world past exited_in_time = false
whole_world past kill_node = tt
whole_world past await_exit = tt
whole_world past context_error = none
whole_world past current_directory = answer []
whole_world past foundry_file = answer tt
whole_world past (start_node port hard_fork) = answer tt
whole_world past (dial port) = answer tt
whole_world past (sleep milliseconds) = tt
whole_world past (node c) = mining_world (client_calls past) c
