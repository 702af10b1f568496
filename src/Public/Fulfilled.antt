-- ===== src/Public/Fulfilled.antt =====
-- What the programs for the public test network do, one with the other.
use blog_solutions.Prelude.{ℕ, ◌≡◌, [], Option, ok}
use blog_solutions.Local.Program.{Trace, World, exec, Ensures}
use blog_solutions.Local.Calls.{Reply, Receipt, NodeCall, NodeAnswer, NodeProgram}
use blog_solutions.Local.Ethereum.{Ethereum}
use blog_solutions.Local.Success.{OnSuccess, OnSuccess-exec}
use blog_solutions.Public.{Holder, legacy_main, eip2930_main, eip1559_main}
use blog_solutions.Public.Blobs.{eip4844_main}
use blog_solutions.Public.Broadcast.{IsDynamicSent, eip1559_main-IsDynamicSent}
use blog_solutions.Public.Listed.{
  IsLegacySent, legacy_main-IsLegacySent, IsListSent, eip2930_main-IsListSent,
}
use blog_solutions.Public.SetCode.{Batch, eip7702_main}
use blog_solutions.Public.Granted.{AreGranted, eip7702_main-AreGranted}
use blog_solutions.Public.Sealed.{IsBlobSent, eip4844_main-IsBlobSent}

-- The programs.
pub data Article : Type 0 where
  legacy_tx eip2930 eip1559 eip4844 eip7702 : Article

module _ {Tx Key : Type 0} (lib : Ethereum Tx Key) (batch : Batch Tx Key) where
  abbrev pub main_of :
      Article → ℕ → Reply Unit → Holder Key → Holder Key → NodeProgram Tx (Option Receipt)
  main_of legacy_tx size setup acc1 acc2 = legacy_main lib acc1 acc2
  main_of eip2930 size setup acc1 acc2 = eip2930_main lib acc2
  main_of eip1559 size setup acc1 acc2 = eip1559_main lib acc2
  main_of eip4844 size setup acc1 acc2 = eip4844_main lib size setup acc2
  main_of eip7702 size setup acc1 acc2 = eip7702_main lib batch acc1 acc2

  -- What each program is for.
  abbrev pub IsFulfilled :
      Article
      → ℕ
      → Holder Key
      → Holder Key
      → Trace (NodeCall Tx) NodeAnswer
      → Option Receipt
      → Type 0
  IsFulfilled legacy_tx size acc1 acc2 t o = IsLegacySent lib acc1 acc2 t o
  IsFulfilled eip2930 size acc1 acc2 t o = IsListSent lib acc2 t o
  IsFulfilled eip1559 size acc1 acc2 t o = IsDynamicSent lib acc2 t o
  IsFulfilled eip4844 size acc1 acc2 t o = IsBlobSent lib size acc2 t o
  IsFulfilled eip7702 size acc1 acc2 t o = AreGranted lib batch acc1 acc2 t o

  main-IsFulfilled :
      (article : Article) (size : ℕ) (setup : Reply Unit) (acc1 acc2 : Holder Key)
      (past : Trace (NodeCall Tx) NodeAnswer)
      → Ensures
          (OnSuccess (λ t o. IsFulfilled article size acc1 acc2 t o))
          past
          (main_of article size setup acc1 acc2)
  main-IsFulfilled legacy_tx size setup acc1 acc2 past = legacy_main-IsLegacySent lib acc1 acc2 past
  main-IsFulfilled eip2930 size setup acc1 acc2 past = eip2930_main-IsListSent lib acc2 past
  main-IsFulfilled eip1559 size setup acc1 acc2 past = eip1559_main-IsDynamicSent lib acc2 past
  main-IsFulfilled eip4844 size setup acc1 acc2 past =
      eip4844_main-IsBlobSent lib size setup acc2 past
  main-IsFulfilled eip7702 size setup acc1 acc2 past =
      eip7702_main-AreGranted lib batch acc1 acc2 past

  -- Whatever the node answers, when one of the five programs ends without an error or a panic, then
  -- it has sent the transaction that its account has signed for its chain, with the nonce that the
  -- node had given for that account: the legacy one with the node's gas price, 21000 of gas and the
  -- value for account 2; that of EIP-2930 with the node's gas price, its estimate for that very
  -- call and the access list; that of EIP-1559 with the node's tip, its estimate, and as its fee
  -- cap 112 hundredths of the last base fee, rounded down, and the tip; that of EIP-4844, for a
  -- blob of any size in which the text has room, with those fees, the node's estimate, the text and
  -- zeros behind it as the blob, the commitment to it and its proof, and the hash of that
  -- commitment; and that of EIP-7702, from account 2, with the node's tip and its gas price above
  -- it, and with two authorizations, whose signatures are those of accounts 1 and 2 on the very
  -- chain, address and, below 2 ^ 63, nonce that they hold, the node's nonce for account 1 and the
  -- one behind the transaction's own for account 2. Behind the sending it has read what the node
  -- has said of the receipt for the transaction's hash.
  pub main_fulfils :
      (world : World (NodeCall Tx) NodeAnswer) (article : Article) (size : ℕ) (setup : Reply Unit)
      (acc1 acc2 : Holder Key) (o : Option Receipt)
      → (exec world [] (main_of article size setup acc1 acc2)).1 ≡ ok o
      → IsFulfilled article size acc1 acc2
          (exec world [] (main_of article size setup acc1 acc2)).0
          o
  main_fulfils world article size setup acc1 acc2 o e =
      OnSuccess-exec (λ t o. IsFulfilled article size acc1 acc2 t o) world []
        (main_of article size setup acc1 acc2) o (main-IsFulfilled article size setup acc1 acc2 [])
        e
