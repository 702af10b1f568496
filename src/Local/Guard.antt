-- ===== src/Local/Guard.antt =====
-- What it is that the calls that change the chain come behind the checks of `run`.
pub mod Checks
pub mod Sessions
use blog_solutions.Prelude.{
  ℕ, zero, suc, ◌≡◌, refl, [], ◌∷◌, ◌⊎◌, inl, inr, ℤ, ◌&&◌, Bool, true, false, Option, none, some,
  Outcome, ok, err, panic, out_of_fuel, List,
}
use blog_solutions.Rlp.Item.{Bytes}
use blog_solutions.Local.Program.{
  Program, done, call, Event, Trace, World, exec, Ensures, on_end, next_step, ◌>>=◌, deferring,
  Ensures-on_end, exec-Ensures,
}
use blog_solutions.Local.Program.{Happened, InOrder}
use blog_solutions.Local.Calls.{
  CallError, Reply, answer, failure, Failure, call_failed, readiness_failed, unexpected_chain,
  not_capable, wrong_anvil_version, checked, require, unless_ended, ask, Session, NodeProgram,
  NodeCall, NodeAnswer, Call, CallAnswer, node, connected, chain_id, node_info, client_version,
  set_balance, send_transaction, forge_create, forge_create_of, evm_mine, anvil_version, free_port,
  close_client, terminate_node, exited_in_time, kill_node, await_exit, context_error, start_node,
  dial, sleep,
}
use blog_solutions.Local.Rules.{
  Ensures-checked, Ensures-require, Ensures-unless_ended, Ends, Ensures-bind, Ensures-deferring,
  Ensures-connected,
}
use blog_solutions.Local.Startup.{
  kill_unless, stop, chain_or_retry, poll_chain, await_chain, check_capabilities, connected_session,
  node_session, start_session, owned_session, run, contains, equal_fold, to_lower,
  supported_version, is_local_chain, cancun, anvil,
}

-- The calls that change the chain.
unfoldable pub is_mutating : {Tx : Type 0} → NodeCall Tx → Bool
is_mutating (set_balance account value) = true
is_mutating (send_transaction tx) = true
is_mutating forge_create = true
is_mutating (forge_create_of name) = true
is_mutating evm_mine = true
is_mutating _ = false

module _ {Tx : Type 0} where
  -- The program has started a node of the hard fork on a port that it was given, and dialled that
  -- port.
  abbrev pub node_started : Bytes → ℕ → List (Event (Call Tx) CallAnswer)
  node_started version port =
      (dial port, answer tt)
      ∷ (start_node port cancun, answer tt)
      ∷ (free_port, answer port)
      ∷ (anvil_version, answer version)
      ∷ []

  -- The version of anvil is the supported one, and, in this order, the program has started its node
  -- and dialled it, and has been told by it what it is: an anvil of the local chain, with the hard
  -- fork.
  pub record Vetted (past : Trace (Call Tx) CallAnswer) : Type 0 where
    pub version : Bytes
    pub port : ℕ
    pub chain : ℤ
    pub hard_fork : Bytes
    pub client : Bytes
    pub ordered :
        InOrder
          ((node client_version, answer client)
            ∷ (node node_info, answer hard_fork)
            ∷ (node chain_id, answer chain)
            ∷ node_started version port)
          past
    pub is_supported : contains version supported_version ≡ true
    pub is_local : is_local_chain chain ≡ true
    pub is_cancun : equal_fold hard_fork cancun ≡ true
    pub is_anvil : contains (to_lower client) anvil ≡ true

  -- Each mutating call of the trace has the checks before it.
  unfoldable pub IsGuarded : Trace (Call Tx) CallAnswer → Type 0
  IsGuarded [] = Unit
  IsGuarded ((node c, a) ∷ past) = (is_mutating c ≡ true → Vetted past) × IsGuarded past
  IsGuarded ((c, a) ∷ past) = IsGuarded past

  pub Vetted-cons :
      (e : Event (Call Tx) CallAnswer) (past : Trace (Call Tx) CallAnswer)
      → Vetted past
      → Vetted (e ∷ past)
  Vetted-cons e past v = record {
    version = v.version;
    port = v.port;
    chain = v.chain;
    hard_fork = v.hard_fork;
    client = v.client;
    ordered = inr v.ordered;
    is_supported = v.is_supported;
    is_local = v.is_local;
    is_cancun = v.is_cancun;
    is_anvil = v.is_anvil;
  }

  -- The version is the supported one.
  abbrev pub IsVersioned : Bytes → Trace (Call Tx) CallAnswer → Type 0
  IsVersioned version past =
      Happened (anvil_version, answer version) past × (contains version supported_version ≡ true)

  -- The node is started and dialled, and no check of it is made.
  pub record Started (past : Trace (Call Tx) CallAnswer) : Type 0 where
    pub version : Bytes
    pub port : ℕ
    pub ordered : InOrder (node_started version port) past
    pub is_supported : contains version supported_version ≡ true
    pub guarded : IsGuarded past

  pub Started-cons :
      (e : Event (Call Tx) CallAnswer) (past : Trace (Call Tx) CallAnswer)
      → IsGuarded (e ∷ past)
      → Started past
      → Started (e ∷ past)
  Started-cons e past g s = record {
    version = s.version;
    port = s.port;
    ordered = inr s.ordered;
    is_supported = s.is_supported;
    guarded = g;
  }

  -- The started node has named the chain.
  abbrev pub IsNamed : ℤ → Trace (Call Tx) CallAnswer → Type 0
  IsNamed chain past =
      Started past
      × (version : Bytes) × (port : ℕ) × InOrder
          ((node chain_id, answer chain) ∷ node_started version port) past
      × (contains version supported_version ≡ true)
