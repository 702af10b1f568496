-- ===== src/Local/Token.antt =====
-- The token of the articles on access lists and dynamic fees: its deployment, its balances and the
-- checks of a transfer, in evm/evm-tx-access-list-transactions-eip/transaction-types/local/main.go.
pub mod Moved
use blog_solutions.Prelude.{
  ℕ, ℤ, pos, ◌-ℤ◌, equal_int, Bool, true, false, ◌&&◌, ◌||◌, List, [], ◌∷◌, ◌++◌, Option, none,
  some, reverse, replicate, length, ok, ◌==◌, leb, if◌then◌else◌,
}
use blog_solutions.Rlp.Item.{Bytes}
use blog_solutions.Rlp.BigEndian.{from_bytes}
use blog_solutions.Blob.Packing.{equal_bytes}
use blog_solutions.Local.Program.{Program, done, call, ◌>>=◌}
use blog_solutions.Local.Calls.{
  Reply, answer, failure, Receipt, Log, Failure, call_failed, invalid_balance_word, missing_address,
  runtime_absent, runtime_mismatch, token_delta_mismatch, missing_log, log_mismatch, NodeProgram,
  call_contract, code_at, working_directory, forge_create, forge_inspect, ask, fail, checked,
  require,
}
use blog_solutions.Local.Ethereum.{Ethereum, balance_of, transfer_event}

abbrev pub fixture_recipient : ℕ
fixture_recipient = 0x8056361b1c1361436D61D187d761233b42d1c20e

-- `FromHex(articleTransfer)`: the selector of `transfer`, the recipient and the amount.
abbrev pub article_transfer : Bytes
article_transfer =
    0xa9 ∷ 0x05 ∷ 0x9c ∷ 0xbb ∷ replicate 12 0
    ++ (0x80
          ∷ 0x56
          ∷ 0x36
          ∷ 0x1b
          ∷ 0x1c
          ∷ 0x13
          ∷ 0x61
          ∷ 0x43
          ∷ 0x6d
          ∷ 0x61
          ∷ 0xd1
          ∷ 0x87
          ∷ 0xd7
          ∷ 0x61
          ∷ 0x23
          ∷ 0x3b
          ∷ 0x42
          ∷ 0xd1
          ∷ 0xc2
          ∷ 0x0e
          ∷ replicate 24 0
        ++ (0x01 ∷ 0x63 ∷ 0x45 ∷ 0x78 ∷ 0x5d ∷ 0x8a ∷ 0x00 ∷ 0x00 ∷ []))

abbrev pub amount : ℕ
amount = 100000000000000000

-- `strings.TrimSpace` on ASCII.
unfoldable pub is_space : ℕ → Bool
is_space b = b == 0x20 || leb 0x09 b && leb b 0x0d

unfoldable pub trim_left : Bytes → Bytes
trim_left [] = []
trim_left (b ∷ s) = let rest = trim_left s in if is_space b then rest else b ∷ s

unfoldable pub trim_space : Bytes → Bytes
trim_space s = reverse (trim_left (reverse (trim_left s)))

unfoldable pub is_moved : ℤ × ℤ → ℤ × ℤ → Bool
is_moved (sender_before, recipient_before) (sender_after, recipient_after) =
    equal_int (sender_before -ℤ sender_after) (pos amount)
    && equal_int (recipient_after -ℤ recipient_before) (pos amount)

abbrev pub same_topics : List ℕ → List ℕ → Bool
same_topics [] [] = true
same_topics (x ∷ xs) (y ∷ ys) = x == y && same_topics xs ys
same_topics _ _ = false

module _ {Tx Key : Type 0} (lib : Ethereum Tx Key) where
  unfoldable pub token_balance : ℕ → ℕ → NodeProgram Tx ℤ
  token_balance token owner = do
    reply ← ask (call_contract token (lib.selector balance_of ++ lib.word_of owner))
    out ← checked call_failed reply
    whole ← require (length out == 32) invalid_balance_word
    done (ok (pos (from_bytes 0 out)))

  -- `IsHexAddress` and `HexToAddress` of what forge says.
  unfoldable pub deployed_address : Option ℕ → NodeProgram Tx ℕ
  deployed_address none = fail missing_address
  deployed_address (some token) = done (ok token)

  -- The code at the address: an error and an empty code are the same failure.
  unfoldable pub runtime_of : Reply Bytes → NodeProgram Tx Bytes
  runtime_of (answer (b ∷ code)) = done (ok (b ∷ code))
  runtime_of (answer []) = fail runtime_absent
  runtime_of (failure e) = fail runtime_absent

  unfoldable pub deploy_token : NodeProgram Tx ℕ
  deploy_token = do
    where_to ← ask working_directory
    dir ← checked call_failed where_to
    created ← ask forge_create
    out ← checked call_failed created
    hex ← checked call_failed (lib.deployed_to out)
    token ← deployed_address (lib.hex_address hex)
    found ← ask (code_at token)
    code ← runtime_of found
    inspected ← ask forge_inspect
    expected ← checked call_failed inspected
    same ← require (equal_bytes code (lib.from_hex (trim_space expected))) runtime_mismatch
    done (ok token)

  -- The balances of the sender and of the recipient.
  unfoldable pub token_balances : ℕ → ℕ → NodeProgram Tx (ℤ × ℤ)
  token_balances token from = do
    sender ← token_balance token from
    recipient ← token_balance token fixture_recipient
    done (ok (sender, recipient))

  -- The log of the transfer: three topics, and the amount.
  unfoldable pub is_transfer_log : ℕ → ℕ → Log → Bool
  is_transfer_log token from l =
      l.address == token
      && same_topics l.topics (lib.event_hash transfer_event ∷ from ∷ fixture_recipient ∷ [])
      && equal_bytes l.data_of (lib.word_of amount)

  unfoldable pub check_logs : ℕ → ℕ → List Log → NodeProgram Tx Unit
  check_logs token from (l ∷ []) = require (is_transfer_log token from l) log_mismatch
  check_logs token from _ = fail missing_log

  -- The checks of the token behind the submission.
  unfoldable pub check_token : ℕ → ℕ → ℤ × ℤ → Receipt → NodeProgram Tx Unit
  check_token token from before receipt = do
    after ← token_balances token from
    moved ← require (is_moved before after) token_delta_mismatch
    check_logs token from receipt.logs
