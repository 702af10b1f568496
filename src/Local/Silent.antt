-- ===== src/Local/Silent.antt =====
-- A node that answers every call with an error: the ground of the nodes in tests.
use blog_solutions.Prelude.{none}
use blog_solutions.Local.Calls.{
  failure, not_found, NodeCall, NodeAnswer, chain_id, node_info, client_version, suggest_gas_price,
  fee_history, suggest_gas_tip_cap, wait_tick, set_balance, pending_nonce_at, balance_at,
  send_transaction, transaction_receipt, transaction_by_hash, code_at, estimate_gas,
  create_access_list, call_contract, working_directory, forge_create, forge_inspect, evm_mine,
  connect, forge_create_of, forge_inspect_of, nonce_at, pause,
}

abbrev pub silent : {Tx : Type 0} → (c : NodeCall Tx) → NodeAnswer c
silent chain_id = failure not_found
silent node_info = failure not_found
silent client_version = failure not_found
silent suggest_gas_price = failure not_found
silent fee_history = failure not_found
silent suggest_gas_tip_cap = failure not_found
silent wait_tick = none
silent (set_balance account value) = failure not_found
silent (pending_nonce_at account) = failure not_found
silent (balance_at account) = failure not_found
silent (send_transaction tx) = failure not_found
silent (transaction_receipt hash) = failure not_found
silent (transaction_by_hash hash) = failure not_found
silent (code_at account) = failure not_found
silent (estimate_gas message) = failure not_found
silent (create_access_list message) = failure not_found
silent (call_contract to data_of) = failure not_found
silent working_directory = failure not_found
silent forge_create = failure not_found
silent forge_inspect = failure not_found
silent evm_mine = failure not_found
silent connect = failure not_found
silent (forge_create_of name) = failure not_found
silent (forge_inspect_of name) = failure not_found
silent (nonce_at account) = failure not_found
silent (pause milliseconds) = tt
