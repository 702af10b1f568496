-- ===== src/Local/Calls.antt =====
-- The calls of the local reproductions, what answers them, and their errors.
use blog_solutions.Prelude.{List, ℕ, ℤ, Bool, Option, none, some, ok, err, if◌then◌else◌}
use blog_solutions.Rlp.Item.{Bytes}
use blog_solutions.Local.Program.{Program, done, call}

-- An error of a call: `ethereum.NotFound`, or another one.
pub data CallError : Type 0 where
  not_found : CallError
  other_error : ℕ → CallError

pub data Reply (A : Type 0) : Type 0 where
  answer : A → Reply A
  failure : CallError → Reply A

-- The parts of `types.Log` and `types.Receipt` that the programs read. An address or a hash is the
-- number that its bytes stand for.
pub record Log : Type 0 where
  pub address : ℕ
  pub topics : List ℕ
  pub data_of : Bytes

pub record Receipt : Type 0 where
  pub status : ℕ
  pub type : ℕ
  pub tx_hash : ℕ
  pub block_number : Option ℤ
  pub gas_used : ℕ
  pub effective_gas_price : Option ℤ
  pub logs : List Log
  pub blob_gas_used : ℕ
  pub blob_gas_price : Option ℤ

-- An address with storage keys, for each entry of `types.AccessList`.
abbrev pub AccessList : Type 0
AccessList = List (ℕ × List ℕ)

-- `ethereum.CallMsg`, with `none` for what a program leaves out.
pub record CallMsg : Type 0 where
  pub from : ℕ
  pub to : ℕ
  pub value : Option ℤ
  pub data_of : Bytes
  pub gas_price : Option ℤ
  pub gas_tip_cap : Option ℤ
  pub gas_fee_cap : Option ℤ
  pub access_list : AccessList
  pub blob_gas_fee_cap : Option ℤ
  pub blob_hashes : List ℕ

-- What `eth_createAccessList` is decoded to.
pub record Discovery : Type 0 where
  pub access_list : Option AccessList
  pub error : Bytes

-- The errors that the programs return. Those of a call may be wrapped.
pub data Failure : Type 0 where
  call_failed readiness_failed submission_failed : CallError → Failure
  wrong_anvil_version unexpected_chain not_capable unsupported_kind recovery_mismatch : Failure
  receipt_mismatch fields_mismatch nonce_not_advanced value_mismatch price_exceeds_cap : Failure
  base_fee_omitted discovery_failed invalid_balance_word : Failure
  missing_address runtime_absent runtime_mismatch : Failure
  token_delta_mismatch missing_log log_mismatch access_list_omitted : Failure
  blob_text_mismatch blob_receipt_mismatch : Failure
  deploy_failed layout_failed capability_failed : CallError → Failure
  not_prague stale_authority abi_mismatch signer_mismatch authorization_mismatch : Failure
  account_mismatch event_count_mismatch event_mismatch designation_lost content_too_large : Failure

-- The contracts of the article on delegation.
pub data Contract : Type 0 where
  invoked multi_delegation_invoker : Contract

-- The calls behind the checks: those that go to the node through the client, the waiting between
-- them, and the commands of forge. `wait_tick` is the `select` between the context and the timer,
-- `pause` a `time.Sleep`, `connect` a `Dial` of a fixed URL.
pub data NodeCall (Tx : Type 0) : Type 0 where
  chain_id node_info client_version suggest_gas_price fee_history suggest_gas_tip_cap wait_tick :
      NodeCall Tx
  set_balance : ℕ → ℤ → NodeCall Tx
  pending_nonce_at balance_at : ℕ → NodeCall Tx
  send_transaction : Tx → NodeCall Tx
  transaction_receipt transaction_by_hash code_at : ℕ → NodeCall Tx
  estimate_gas create_access_list : CallMsg → NodeCall Tx
  call_contract : ℕ → Bytes → NodeCall Tx
  working_directory forge_create forge_inspect evm_mine connect : NodeCall Tx
  forge_create_of forge_inspect_of : Contract → NodeCall Tx
  nonce_at pause : ℕ → NodeCall Tx

abbrev pub NodeAnswer : {Tx : Type 0} → NodeCall Tx → Type 0
NodeAnswer chain_id = Reply ℤ
NodeAnswer node_info = Reply Bytes
NodeAnswer client_version = Reply Bytes
NodeAnswer suggest_gas_price = Reply ℤ
NodeAnswer fee_history = Reply (List ℤ)
NodeAnswer suggest_gas_tip_cap = Reply ℤ
NodeAnswer wait_tick = Option CallError
NodeAnswer (set_balance account value) = Reply Unit
NodeAnswer (pending_nonce_at account) = Reply ℕ
NodeAnswer (balance_at account) = Reply ℤ
NodeAnswer (send_transaction tx) = Reply Unit
NodeAnswer (transaction_receipt hash) = Reply Receipt
NodeAnswer {Tx} (transaction_by_hash hash) = Reply (Tx × Bool)
NodeAnswer (code_at account) = Reply Bytes
NodeAnswer (estimate_gas message) = Reply ℕ
NodeAnswer (create_access_list message) = Reply Discovery
NodeAnswer (call_contract to data_of) = Reply Bytes
NodeAnswer working_directory = Reply Bytes
NodeAnswer forge_create = Reply Bytes
NodeAnswer forge_inspect = Reply Bytes
NodeAnswer evm_mine = Reply Unit
NodeAnswer connect = Reply Unit
NodeAnswer (forge_create_of name) = Reply Bytes
NodeAnswer (forge_inspect_of name) = Reply Bytes
NodeAnswer (nonce_at account) = Reply ℕ
NodeAnswer (pause milliseconds) = Unit

-- All the calls: those that deal with the node's process and the connection, and those of the
-- connected client. `free_port` listens on a port of the system's choice and closes it again,
-- `start_node` has the port and the hard fork of the command line, `foundry_file` is the `Stat` of
-- the project's file.
pub data Call (Tx : Type 0) : Type 0 where
  anvil_version free_port close_client terminate_node exited_in_time kill_node await_exit : Call Tx
  context_error current_directory foundry_file : Call Tx
  start_node : ℕ → Bytes → Call Tx
  dial sleep : ℕ → Call Tx
  node : NodeCall Tx → Call Tx

abbrev pub CallAnswer : {Tx : Type 0} → Call Tx → Type 0
CallAnswer anvil_version = Reply Bytes
CallAnswer free_port = Reply ℕ
CallAnswer close_client = Unit
CallAnswer terminate_node = Unit
CallAnswer exited_in_time = Bool
CallAnswer kill_node = Unit
CallAnswer await_exit = Unit
CallAnswer context_error = Option CallError
CallAnswer current_directory = Reply Bytes
CallAnswer foundry_file = Reply Unit
CallAnswer (start_node port hard_fork) = Reply Unit
CallAnswer (dial port) = Reply Unit
CallAnswer (sleep milliseconds) = Unit
CallAnswer (node c) = NodeAnswer c

abbrev pub NodeProgram : Type 0 → Type 0 → Type 0
NodeProgram Tx A = Program (NodeCall Tx) NodeAnswer Failure A

abbrev pub Session : Type 0 → Type 0 → Type 0
Session Tx A = Program (Call Tx) CallAnswer Failure A

module _ {C : Type 0} {Answer : C → Type 0} where
  abbrev pub ask : (c : C) → Program C Answer Failure (Answer c)
  ask c = call c (λ a. done (ok a))

  abbrev pub fail : {A : Type 0} → Failure → Program C Answer Failure A
  fail e = done (err e)

  -- `if e != nil { return e }`, with the error as it is or wrapped.
  abbrev pub checked : {A : Type 0} → (CallError → Failure) → Reply A → Program C Answer Failure A
  checked wrap (answer a) = done (ok a)
  checked wrap (failure e) = done (err (wrap e))

  -- `if ctx.Err() != nil { return ctx.Err() }`
  abbrev pub unless_ended : Option CallError → Program C Answer Failure Unit
  unless_ended none = done (ok tt)
  unless_ended (some e) = done (err (call_failed e))

  -- Goes on if the test holds, and returns the error otherwise.
  abbrev pub require : Bool → Failure → Program C Answer Failure Unit
  require test e = if test then done (ok tt) else done (err e)

-- The connected client makes its calls inside the session.
unfoldable pub connected : {Tx A : Type 0} → NodeProgram Tx A → Session Tx A
connected (done o) = done o
connected (call c k) = call (node c) (λ a. connected (k a))
