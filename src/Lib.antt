-- ===== src/Lib.antt =====
-- Programs of the blog's EVM articles (evm/), written in Go.
--
-- RLP, evm/what-is-recursive-length-prefix-rlp: rlp/ is the article's codec and corrected/ a second
-- version of it that bounds lengths and rejects trailing bytes. The copy of rlp/ in the first
-- article of the transactions series is the same text.
--   Rlp/Item.antt: what the decoders return, and their errors. Rlp/Value.antt: what the encoders are
--   given in their `any`, by the kinds of `reflect`. Slices.antt: slice expressions with the
--   bounds check of the run-time system.
--   Rlp/Header.antt: toBinary, encodeLength, isIntegerKind and the case of a byte slice, which the
--   two encoders share word for word.
--   Rlp/Original/Encode.antt and Rlp/Original/Decode.antt: rlp/encode/encode.go and
--   rlp/decode/decode.go. Rlp/Corrected/Encode.antt and Rlp/Corrected/Decode.antt: the same files
--   under corrected/. RlpEncode is `rlp_encode`, RlpDecode `rlp_decode`, decodeItem `decode_item`
--   with a function for each long case of its switch, and so on.
--   Rlp/BigEndian.antt and Rlp/Spec.antt: the specification, which are the digits of a number and
--   the serialisation of the Yellow Paper on the items of the decoders. The children of the two
--   codecs, Rlp/Matches.antt, Rlp/Comparison.antt, Rlp/Panics.antt, Rlp/Numbers.antt and
--   Rlp/RoundTrip.antt: proofs. Rlp/Runs.antt: vectors of the tests, and the theorems at concrete inputs.
--
-- Blob transactions, evm/evm-tx-blob-transactions-eip-4844/transaction-types/local/main.go:
--   Blob/Packing.antt: the loop of `transact` that packs a text into a blob, for a text and a blob
--   of any size: the source has 4096 elements and a fixed text. Blob/FieldElements.antt: the
--   specification, elements of a zero byte and 31 of text. Blob/Loop.antt: proofs about the loop.
--   Blob/Unpacking.antt: what a reader gets. Blob/Runs.antt: the theorems at concrete inputs.
--
-- Local reproductions, evm/evm-tx-*/transaction-types/local/main.go, and that of the first article of
-- the transactions series. They share most of their text: a shared function is modelled once.
--   Local/Program.antt: a program is a tree of calls to the world outside it; the world answers each
--   call as it likes, by all that has happened. A theorem holds for every world. Local/Calls.antt:
--   the calls of the programs (processes, sockets, the clock, forge, and the requests of ethclient), the
--   types of their answers, and the errors. Local/Ethereum.antt: what go-ethereum does without a call,
--   a parameter. Local/Rules.antt and Local/Success.antt: proof rules for programs.
--   Local/Startup.antt: `stop` and `run`, with a function for each part of `run` that a `defer` wraps.
--   `work` stands for what follows the checks. Local/Guard.antt with its children, and
--   Local/Lifecycle.antt: which calls come in which order. Local/Runs.antt: runs against a node.
--
--   Local/Transact.antt: `transact` of evm-tx-understanding-legacy-ethereum, a function for each part of
--   it, and `waitReceipt`, on a number of polls. Its children: proofs and runs. Local/Legacy.antt: the
--   whole `run` of that article.
--   Local/Token.antt: `deployToken`, `tokenBalance` and the checks of a token transfer.
--   Local/Submission.antt: the part of `transact` behind the signing in the articles with a token.
--   Local/Access.antt, Local/Dynamic.antt and Local/Series.antt: the articles on access lists and dynamic
--   fees, and the first one of the series, with the cases of their `switch`. Local/Token/Moved.antt
--   and the children of Local/Submission.antt: proofs and runs.
--   Local/Blobs.antt: `transact` of the blob article. Its children: proofs and runs.
--   Local/Delegation.antt and, among its children, Native.antt and Owned.antt: the set-code article,
--   evm-tx-setcode-transactions-eip-7702, with the part of its `run` behind the checks of the node as
--   `delegate`. Its signed authorizations are a second parameter. The other children: proofs and runs.
--   Local/Named.antt and Local/Sessions.antt: what a run that ends in success has reached, whatever its
--   work is.
--   Local/Signals.antt: `main`, and `executeWithSignals` as the steps of its goroutine and its own, in
--   any order. Its children: proofs and runs.
--   Local/Testbed.antt and Local/Silent.antt: the node of the runs.
--
-- Programs for the public test network, evm/evm-tx-*/transaction-types: legacy-tx/legacy.go,
-- eip2930/eip2930.go, eip1559/eip1559.go, eip4844/eip4844.go and eip7702/eip7702_batch.go. Public.antt,
-- Public/Blobs.antt and Public/SetCode.antt: `main` of each, on the accounts that GetAccount has returned,
-- the fourth for a blob of any size. Public/Terms.antt: the terms of what is sent, apart from the code.
-- The other children: proofs. Public/Runs.antt: runs.
--
-- Account keys, evm/evm-tx-understanding-legacy-ethereum/transaction-types/account/account.go, one of
-- nine copies. Accounts.antt: getPath and GetAccount, on the files of a machine whose disk may fail.
-- Accounts/Hex.antt: encoding/hex. Accounts/Kept.antt: proofs. Accounts/Runs.antt: runs.
--
-- Fees, evm/evm-tx-dynamic-fee-transactions-eip/transaction-types:
--   Fees/Caps.antt: feeCap of offline/main.go and feeCaps of local/main.go, which calls the node.
--   Fees/Laws.antt: proofs. Fees/Runs.antt: the fees of the fixture.
--
-- A trace has its last call first (Local/Program.antt).
-- A byte is a number below 256. The programs run on a 64-bit machine: an `int` is kept as its
-- pattern of 64 bits where the source lets it wrap (Prelude/Words.antt), and a length of a slice is
-- a plain number elsewhere. A call comes to a value, an error or a panic (Prelude/Results.antt).
-- decodeItem and decodeList call one another on payloads that are shorter than their item: the
-- model counts the rounds of decodeList by fuel, of which one more than the length of the input is
-- enough; loops over a number recur on the number. The value that Go returns beside an error is not
-- modelled, nor the limit on the depth of its stack. The in-place reversal at the end of toBinary
-- is the library's `reverse`.
--
-- In the local reproductions an answer is a value or an error, a text is its bytes and the functions
-- of `strings` are those on ASCII, a context is what its `Err` answers, and the URL and the command
-- line are their varying parts, the port and the hard fork. Output is left out.
-- A base fee of the history is a number: a null in it, which the interface of the node does not have,
-- is left out too.
--
-- Not modelled: the programs of the EIP-191 and EIP-712 messages, the multicall and streaming programs,
-- the offline programs but for their fee cap, and all that is not Go. They are mostly calls of
-- go-ethereum. The local programs of the second article of the series are copies of two that are modelled.
pub mod Prelude
pub mod Accounts
pub mod Blob
pub mod Fees
pub mod Local
pub mod Public
pub mod Rlp
pub mod Slices
