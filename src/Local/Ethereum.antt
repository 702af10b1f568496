-- ===== src/Local/Ethereum.antt =====
-- What the local reproductions use of go-ethereum without a call to the node.
use blog_solutions.Prelude.{ℕ, ℤ, Bool, List, Option}
use blog_solutions.Rlp.Item.{Bytes}
use blog_solutions.Local.Calls.{Reply, AccessList}

-- The fields of the transactions of `types` that the programs set.
pub record LegacyTx : Type 0 where
  pub nonce : ℕ
  pub gas_price : ℤ
  pub gas : ℕ
  pub to : ℕ
  pub value : ℤ

pub record AccessListTx : Type 0 where
  pub chain : ℤ
  pub nonce : ℕ
  pub gas_price : ℤ
  pub gas : ℕ
  pub to : ℕ
  pub value : ℤ
  pub data_of : Bytes
  pub access_list : AccessList

pub record DynamicFeeTx : Type 0 where
  pub chain : ℤ
  pub nonce : ℕ
  pub gas_tip_cap : ℤ
  pub gas_fee_cap : ℤ
  pub gas : ℕ
  pub to : ℕ
  pub value : ℤ
  pub data_of : Bytes

pub record Sidecar : Type 0 where
  pub blob : Bytes
  pub commitment : Bytes
  pub proof : Bytes

pub record BlobTx : Type 0 where
  pub chain : ℕ
  pub nonce : ℕ
  pub gas_tip_cap : ℕ
  pub gas_fee_cap : ℕ
  pub gas : ℕ
  pub to : ℕ
  pub value : ℕ
  pub blob_fee_cap : ℕ
  pub blob_hashes : List ℕ
  pub sidecar : Sidecar

-- The signatures whose Keccak hashes the programs take.
pub data Signature : Type 0 where
  balance_of transfer_event trigger_pings ping_start pinged ping_success : Signature

-- Keys, and transactions with their signatures. `key_of` is `HexToECDSA` on the 64 digits of a
-- number, the signers are those of a chain, `word_of` is `LeftPadBytes` of the number's bytes to 32
-- bytes, `selector` the first four bytes of the hash and `event_hash` all of it. `deployed_to`
-- decodes the JSON that forge prints, `hex_address` is `IsHexAddress` and `HexToAddress`. The value
-- is `none` where `uint256.MustFromBig` panics.
pub record Ethereum (Tx Key : Type 0) : Type 0 where
  pub key_of : ℕ → Reply Key
  pub address_of : Key → ℕ
  pub sign_legacy : ℤ → Key → LegacyTx → Reply Tx
  pub sign_access_list : ℤ → Key → AccessListTx → Reply Tx
  pub sign_dynamic_fee : ℤ → Key → DynamicFeeTx → Reply Tx
  pub sign_blob : ℤ → Key → BlobTx → Reply Tx
  pub marshal_binary : Tx → Reply Bytes
  pub unmarshal_binary : Bytes → Reply Tx
  pub sender : ℤ → Tx → Reply ℕ
  pub hash : Tx → ℕ
  pub type : Tx → ℕ
  pub nonce : Tx → ℕ
  pub to : Tx → Option ℕ
  pub value : Tx → ℤ
  pub data_of : Tx → Bytes
  pub gas_fee_cap : Tx → ℤ
  pub access_list : Tx → AccessList
  pub blob_hashes : Tx → List ℕ
  pub blob_gas_fee_cap : Tx → ℤ
  pub selector : Signature → Bytes
  pub event_hash : Signature → ℕ
  pub word_of : ℕ → Bytes
  pub deployed_to : Bytes → Reply Bytes
  pub hex_address : Bytes → Option ℕ
  pub from_hex : Bytes → Bytes
  pub from_big : ℤ → Option ℕ
  pub use_ckzg : Bool → Reply Unit
  pub blob_to_commitment : Bytes → Reply Bytes
  pub compute_blob_proof : Bytes → Bytes → Reply Bytes
  pub verify_blob_proof : Bytes → Bytes → Bytes → Reply Unit
  pub blob_hash : Bytes → ℕ
