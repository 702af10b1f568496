-- ===== src/Local/Guard/Sessions.antt =====
-- The calls that change the chain come behind the checks of `run`.
use blog_solutions.Prelude.{
  ◌≡◌, ℕ, refl, [], ◌∷◌, inl, ℤ, Bool, true, false, Outcome, ok, err, panic, out_of_fuel,
}
use blog_solutions.Local.Program.{
  Trace, World, exec, Ensures, on_end, next_step, Ensures-on_end, exec-Ensures,
}
use blog_solutions.Local.Calls.{
  answer, Failure, call_failed, wrong_anvil_version, ask, NodeProgram, NodeCall, NodeAnswer, Call,
  CallAnswer, node, connected, anvil_version, free_port, close_client, terminate_node,
  exited_in_time, start_node, dial,
}
use blog_solutions.Local.Rules.{
  Ensures-checked, Ensures-require, Ends, Ensures-deferring, Ensures-weaken, Ensures-connected,
}
use blog_solutions.Local.Startup.{
  kill_unless, stop, check_capabilities, connected_session, node_session, start_session,
  owned_session, run, contains, supported_version, cancun,
}
use blog_solutions.Local.Guard.{
  InOrder, Bytes, IsVersioned, Vetted, IsGuarded, Vetted-cons, Started,
}
use blog_solutions.Local.Guard.Checks.{Checked, check_capabilities-Checked}

module _ {Tx : Type 0} where
  Vetted-connected :
      (p : Trace (Call Tx) CallAnswer) (c : NodeCall Tx) (a : NodeAnswer c)
      → Vetted p × IsGuarded p
      → Vetted ((node c, a) ∷ p) × IsGuarded ((node c, a) ∷ p)
  unfolding IsGuarded
  Vetted-connected p c a k = (Vetted-cons (node c, a) p k.0, ((λ e. k.0), k.1))

  -- Behind the checks every call is guarded, whatever the program.
  Checked-IsGuarded :
      (work : ℤ → NodeProgram Tx Unit) (t : Trace (Call Tx) CallAnswer) (o : Outcome Failure ℤ)
      → Checked t o
      → Ensures (Ends IsGuarded) t (next_step (λ chain. connected (work chain)) o)
  unfolding Checked
  Checked-IsGuarded work t (ok chain) r =
      Ensures-weaken (λ p. Vetted p × IsGuarded p) IsGuarded t (connected (work chain)) (λ p k. k.1)
        (Ensures-connected (λ p. Vetted p × IsGuarded p) Vetted-connected t (work chain) r)
  Checked-IsGuarded work t (err e) r = unfold Ensures in r
  Checked-IsGuarded work t (panic p) r = unfold Ensures in r
  Checked-IsGuarded work t out_of_fuel r = unfold Ensures in r

  connected_session-IsGuarded :
      (work : ℤ → NodeProgram Tx Unit) (past : Trace (Call Tx) CallAnswer)
      → Started past
      → Ensures (Ends IsGuarded) past (connected_session work)
  unfolding connected_session
  connected_session-IsGuarded work past h =
      Ensures-on_end Checked (Ends IsGuarded) past check_capabilities _
        (check_capabilities-Checked past h) (Checked-IsGuarded work)

  kill_unless-IsGuarded :
      (in_time : Bool) (past : Trace (Call Tx) CallAnswer)
      → IsGuarded past
      → Ensures
          (Ends IsGuarded)
          ((exited_in_time, in_time) ∷ (terminate_node, tt) ∷ past)
          (kill_unless in_time)
  unfolding kill_unless Ensures on_end IsGuarded
  kill_unless-IsGuarded true past h = h
  kill_unless-IsGuarded false past h = λ a b. h

  stop-IsGuarded :
      (past : Trace (Call Tx) CallAnswer) → IsGuarded past → Ensures (Ends IsGuarded) past stop
  unfolding stop Ensures on_end IsGuarded
  stop-IsGuarded past h = λ sent in_time. kill_unless-IsGuarded in_time past h

  node_session-IsGuarded :
      (version : Bytes) (port : ℕ) (work : ℤ → NodeProgram Tx Unit)
      (past : Trace (Call Tx) CallAnswer)
      → InOrder
          ((start_node port cancun, answer tt)
            ∷ (free_port, answer port)
            ∷ (anvil_version, answer version)
            ∷ [])
          past
      → contains version supported_version ≡ true
      → IsGuarded past
      → Ensures (Ends IsGuarded) past (node_session port work)
  unfolding node_session Ensures on_end IsGuarded
  node_session-IsGuarded version port work past s v g = λ reply.
      Ensures-checked (Ends IsGuarded) ((dial port, reply) ∷ past) call_failed reply _ (λ e y. g)
        (λ u y.
          Ensures-deferring IsGuarded IsGuarded ((dial port, reply) ∷ past) (connected_session work)
            (ask close_client)
            (connected_session-IsGuarded work _ (record {
              version = version;
              port = port;
              ordered = inl (rw y refl, s);
              is_supported = v;
              guarded = g;
            }))
            (λ t k closed. k))

  start_session-IsGuarded :
      (version : Bytes) (port : ℕ) (work : ℤ → NodeProgram Tx Unit)
      (past : Trace (Call Tx) CallAnswer)
      → InOrder ((free_port, answer port) ∷ (anvil_version, answer version) ∷ []) past
      → contains version supported_version ≡ true
      → IsGuarded past
      → Ensures (Ends IsGuarded) past (start_session port work)
  unfolding start_session Ensures on_end IsGuarded
  start_session-IsGuarded version port work past s v g = λ process.
      Ensures-checked (Ends IsGuarded) ((start_node port cancun, process) ∷ past) call_failed
        process _ (λ e y. g)
        (λ u y.
          Ensures-deferring IsGuarded IsGuarded ((start_node port cancun, process) ∷ past)
            (node_session port work) stop
            (node_session-IsGuarded version port work _ (inl (rw y refl, s)) v g) stop-IsGuarded)

  owned_session-IsGuarded :
      (version : Bytes) (work : ℤ → NodeProgram Tx Unit) (past : Trace (Call Tx) CallAnswer)
      → IsVersioned version past
      → IsGuarded past
      → Ensures (Ends IsGuarded) past (owned_session work)
  unfolding owned_session Ensures on_end IsGuarded
  owned_session-IsGuarded version work past v g = λ listener.
      Ensures-checked (Ends IsGuarded) ((free_port, listener) ∷ past) call_failed listener _
        (λ e y. g)
        (λ port y.
          start_session-IsGuarded version port work ((free_port, listener) ∷ past)
            (inl (rw y refl, v.0)) v.1 g)

  run-Ensures : (work : ℤ → NodeProgram Tx Unit) → Ensures (Ends IsGuarded) [] (run work)
  unfolding run Ensures on_end IsGuarded
  run-Ensures work = λ output.
      let past = (anvil_version, output) ∷ [] in
      Ensures-checked (Ends IsGuarded) past call_failed output _ (λ e y. tt)
        (λ version y.
          Ensures-require (Ends IsGuarded) past (contains version supported_version)
            wrong_anvil_version (λ u. owned_session work) (λ e. tt)
            (λ e. owned_session-IsGuarded version work past (inl (rw y refl), e) tt))

  -- Whatever the world answers, and whatever is done with the connection, no call that changes the
  -- chain is made before, in this order, the version of anvil is found to be supported, a port is
  -- given, a Cancun node is started on that very port and dialled there, and over that connection
  -- the local chain, the hard fork and the client are named.
  pub run-IsGuarded :
      (world : World (Call Tx) CallAnswer) (work : ℤ → NodeProgram Tx Unit)
      → IsGuarded (exec world [] (run work)).0
  run-IsGuarded world work = exec-Ensures world (Ends IsGuarded) [] (run work) (run-Ensures work)
