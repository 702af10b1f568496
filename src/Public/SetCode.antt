-- ===== src/Public/SetCode.antt =====
-- The program that sends two authorizations to the public test network, with its own signing of them:
-- evm/evm-tx-setcode-transactions-eip-7702/transaction-types/eip7702/eip7702_batch.go
use blog_solutions.Prelude.{
  ℕ, ◌+◌, ◌%◌, ◌^◌, ℤ, pos, negsuc, ◌+ℤ◌, ◌-◌, List, [], ◌∷◌, Option, Outcome, ok, panic,
  index_range, word, ltb, if◌then◌else◌, drop,
}
use blog_solutions.Rlp.Item.{Bytes}
use blog_solutions.Rlp.BigEndian.{from_bytes}
use blog_solutions.Slices.{slice}
use blog_solutions.Local.Program.{done, ◌>>=◌}
use blog_solutions.Local.Calls.{
  Reply, Failure, Receipt, NodeProgram, ask, checked, call_failed, connect, pending_nonce_at,
  suggest_gas_tip_cap, suggest_gas_price,
}
use blog_solutions.Local.Ethereum.{Ethereum}
use blog_solutions.Local.Delegation.{SetCodeTx}
use blog_solutions.Local.Blobs.{must}
use blog_solutions.Public.{Holder, amoy_chain_id, broadcast}

abbrev pub invoker_address : ℕ
invoker_address = 0x87581c71b3693062f4d3e34617c3919ec1abf39b

abbrev pub module_address : ℕ
module_address = 0x4f9c96915a9ce8cd5eb11a2c35ab587fc97d5126

-- An entry of the AuthList, with its signature.
pub record SignedGrant : Type 0 where
  pub chain : ℕ
  pub address : ℕ
  pub nonce : ℕ
  pub r : ℕ
  pub s : ℕ
  pub v : ℕ

-- What go-ethereum does for the program. `rlp_list` is `EncodeToBytes` on two numbers with an
-- address between them, `hash_sign` is `Sign` on the Keccak hash of the bytes, which gives 65
-- bytes.
pub record Batch (Tx Key : Type 0) : Type 0 where
  pub rlp_list : ℤ → ℕ → ℤ → Reply Bytes
  pub hash_sign : Key → Bytes → Reply Bytes
  pub pack_trigger : List ℕ → Reply Bytes
  pub sign_set_code : ℤ → Key → SetCodeTx SignedGrant → Reply Tx

-- `int64` of a `uint64`.
unfoldable pub to_int64 : ℕ → ℤ
to_int64 n = if ltb n (2 ^ 63) then pos n else negsuc (word - 1 - n)

-- `sig[:32]`, `sig[32:64]` and `sig[64]`.
unfoldable pub last_byte_of : Bytes → Outcome Failure ℕ
last_byte_of [] = panic index_range
last_byte_of (b ∷ rest) = ok b

-- The parts of the signature, each of 32 bytes but the last.
unfoldable pub grant_of : {Tx : Type 0} → ℕ → Bytes → NodeProgram Tx SignedGrant
grant_of nonce sig = do
  r ← done (slice sig 0 32)
  s ← done (slice sig 32 64)
  v ← done (last_byte_of (drop 64 sig))
  done (
      ok (record {
        chain = amoy_chain_id;
        address = module_address;
        nonce = nonce;
        r = from_bytes 0 r;
        s = from_bytes 0 s;
        v = v;
      }))

module _ {Tx Key : Type 0} (lib : Ethereum Tx Key) (batch : Batch Tx Key) where
  -- `signEIP7702Delegation`: the magic byte, and the list of the chain, the address and the nonce.
  unfoldable pub sign_delegation : Key → ℕ → NodeProgram Tx Bytes
  sign_delegation key nonce = do
    payload ←
        checked call_failed (batch.rlp_list (pos amoy_chain_id) module_address (to_int64 nonce))
    checked call_failed (batch.hash_sign key (0x05 ∷ payload))

  -- What follows the fees. The sender is the second account, and its own authorization has the
  -- nonce behind that of the transaction.
  unfoldable pub send_grants :
      Holder Key → Holder Key → Bytes → ℕ → ℕ → ℤ → ℤ → NodeProgram Tx (Option Receipt)
  send_grants acc1 acc2 data_of base_nonce2 nonce1 tip fee_cap = do
    let nonce2 = (base_nonce2 + 1) % word
    sig2 ← sign_delegation acc2.key nonce2
    sig1 ← sign_delegation acc1.key nonce1
    second ← grant_of nonce2 sig2
    first ← grant_of nonce1 sig1
    tip_word ← must (lib.from_big tip)
    cap_word ← must (lib.from_big fee_cap)
    signed ← checked call_failed (
        batch.sign_set_code (pos amoy_chain_id) acc2.key (record {
          chain = amoy_chain_id;
          nonce = base_nonce2;
          gas_tip_cap = tip_word;
          gas_fee_cap = cap_word;
          gas = 120000;
          to = invoker_address;
          data_of = data_of;
          auth_list = first ∷ second ∷ [];
        }))
    broadcast lib signed

  unfoldable pub eip7702_main : Holder Key → Holder Key → NodeProgram Tx (Option Receipt)
  eip7702_main acc1 acc2 = do
    dialled ← ask connect
    client ← checked call_failed dialled
    data_of ← checked call_failed (batch.pack_trigger (acc1.address ∷ acc2.address ∷ []))
    base_reply ← ask (pending_nonce_at acc2.address)
    base_nonce2 ← checked call_failed base_reply
    nonce_reply ← ask (pending_nonce_at acc1.address)
    nonce1 ← checked call_failed nonce_reply
    tip_reply ← ask suggest_gas_tip_cap
    tip ← checked call_failed tip_reply
    price_reply ← ask suggest_gas_price
    price ← checked call_failed price_reply
    send_grants acc1 acc2 data_of base_nonce2 nonce1 tip (price +ℤ tip)
