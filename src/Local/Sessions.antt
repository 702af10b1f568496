-- ===== src/Local/Sessions.antt =====
-- What a run of the local reproductions that ends in success has reached, whatever its work is.
use blog_solutions.Prelude.{
  List, ℤ, ◌≡◌, ap, [], ◌∷◌, inl, inr, true, Outcome, ok, err, panic, out_of_fuel,
}
use blog_solutions.Local.Program.{
  Program, InOrder, InOrder-cons, InOrder-nil, done, call, Trace, Event, Ensures, on_end, deferring,
}
use blog_solutions.Local.Calls.{
  Failure, call_failed, wrong_anvil_version, NodeCall, NodeAnswer, NodeProgram, Call, CallAnswer,
  node, connected, ask, anvil_version, close_client, chain_id, answer,
}
use blog_solutions.Local.Success.{
  OnSuccess, Extends, OnSuccess-bind, OnSuccess-checked, OnSuccess-require, OnSuccess-weaken,
}
use blog_solutions.Local.Named.{HasNamed, HasNamedLocal, check_capabilities-HasNamedLocal}
use blog_solutions.Local.Startup.{
  is_local_chain, contains, supported_version, check_capabilities, connected_session, node_session,
  start_session, owned_session, stop, run,
}

module _ {C : Type 0} {Answer : C → Type 0} {A : Type 0} (R : Trace C Answer → A → Type 0)
    (stable : (t u : Trace C Answer) (a : A) → Extends t u → R t a → R u a) where
  ended-OnSuccess :
      (o : Outcome Failure A) (past : Trace C Answer) (d : Program C Answer Failure Unit)
      → OnSuccess R past o
      → Ensures (OnSuccess R) past (on_end d (λ ended. done o))
  unfolding Ensures on_end
  ended-OnSuccess (ok a) past (done x) r = r
  ended-OnSuccess (ok a) past (call c k) r = λ x.
      ended-OnSuccess (ok a) ((c, x) ∷ past) (k x)
        (stable past ((c, x) ∷ past) a (λ es y. InOrder-cons es _ past y) r)
  ended-OnSuccess (err e) past (done x) r = tt
  ended-OnSuccess (err e) past (call c k) r = λ x. ended-OnSuccess (err e) ((c, x) ∷ past) (k x) tt
  ended-OnSuccess (panic q) past (done x) r = tt
  ended-OnSuccess (panic q) past (call c k) r =
      λ x. ended-OnSuccess (panic q) ((c, x) ∷ past) (k x) tt
  ended-OnSuccess out_of_fuel past (done x) r = tt
  ended-OnSuccess out_of_fuel past (call c k) r =
      λ x. ended-OnSuccess out_of_fuel ((c, x) ∷ past) (k x) tt

  pub OnSuccess-deferring :
      (past : Trace C Answer) (p : Program C Answer Failure A) (d : Program C Answer Failure Unit)
      → Ensures (OnSuccess R) past p
      → Ensures (OnSuccess R) past (deferring p d)
  unfolding Ensures on_end
  OnSuccess-deferring past (done o) d h = ended-OnSuccess o past d h
  OnSuccess-deferring past (call c k) d h = λ x. OnSuccess-deferring ((c, x) ∷ past) (k x) d (h x)

module _ {Tx : Type 0} where
  abbrev in_session : Event (NodeCall Tx) NodeAnswer → Event (Call Tx) CallAnswer
  in_session e = (node e.0, e.1)

  -- The answer for the chain and, behind it, the client's calls.
  abbrev behind_chain :
      ℤ → List (Event (NodeCall Tx) NodeAnswer) → List (Event (Call Tx) CallAnswer)
  behind_chain chain [] = (node chain_id, answer chain) ∷ []
  behind_chain chain (e ∷ es) = in_session e ∷ behind_chain chain es

  -- The calls of the client are among those of the session, in their order, and the node has named
  -- the chain before them.
  abbrev pub Includes : ℤ → Trace (NodeCall Tx) NodeAnswer → Trace (Call Tx) CallAnswer → Type 0
  Includes chain inner t =
      (es : List (Event (NodeCall Tx) NodeAnswer))
      → InOrder es inner
      → InOrder (behind_chain chain es) t

  included :
      (chain : ℤ) (inner : Trace (NodeCall Tx) NodeAnswer) (past : Trace (Call Tx) CallAnswer)
      (c : NodeCall Tx) (x : NodeAnswer c)
      → Includes chain inner past
      → Includes chain ((c, x) ∷ inner) ((node c, x) ∷ past)
  included chain inner past c x i [] y = inr (i [] (InOrder-nil inner))
  included chain inner past c x i (e ∷ []) (inl y) = inl (ap in_session y, i [] (InOrder-nil inner))
  included chain inner past c x i (e ∷ []) (inr y) = inr (i (e ∷ []) y)
  included chain inner past c x i (e ∷ f ∷ es) (inl (y, z)) = inl (ap in_session y, i (f ∷ es) z)
  included chain inner past c x i (e ∷ f ∷ es) (inr y) = inr (i (e ∷ f ∷ es) y)

  Includes-nil :
      (chain : ℤ) (past : Trace (Call Tx) CallAnswer) → HasNamed past chain → Includes chain [] past
  Includes-nil chain past n [] y = n
  Includes-nil chain past n (e ∷ es) y = absurd y

  pub connected-OnSuccess :
      {A : Type 0} (chain : ℤ) (R : Trace (NodeCall Tx) NodeAnswer → A → Type 0)
      (inner : Trace (NodeCall Tx) NodeAnswer) (past : Trace (Call Tx) CallAnswer)
      (p : NodeProgram Tx A)
      → Includes chain inner past
      → Ensures (OnSuccess R) inner p
      → Ensures
          (OnSuccess (λ t a. (u : Trace (NodeCall Tx) NodeAnswer) × R u a × Includes chain u t))
          past
          (connected p)
  unfolding Ensures connected
  connected-OnSuccess chain R inner past (done (ok a)) i h = (inner, h, i)
  connected-OnSuccess chain R inner past (done (err e)) i h = tt
  connected-OnSuccess chain R inner past (done (panic q)) i h = tt
  connected-OnSuccess chain R inner past (done out_of_fuel) i h = tt
  connected-OnSuccess chain R inner past (call c k) i h = λ x.
      connected-OnSuccess chain R ((c, x) ∷ inner) ((node c, x) ∷ past) (k x)
        (included chain inner past c x i) (h x)

module _ {Tx : Type 0} where
  -- The node has named the local chain, and `R` holds of the client's calls, which are among those
  -- of the trace, in their order and behind the answer for the chain.
  pub record Reached (R : ℤ → Trace (NodeCall Tx) NodeAnswer → Type 0)
      (t : Trace (Call Tx) CallAnswer) : Type 0 where
    pub chain : ℤ
    pub calls : Trace (NodeCall Tx) NodeAnswer
    pub named : HasNamed t chain
    pub is_local : is_local_chain chain ≡ true
    pub reached : R chain calls
    pub among : Includes chain calls t

module _ {Tx : Type 0} (R : ℤ → Trace (NodeCall Tx) NodeAnswer → Type 0) where
  pub Reached-Extends :
      (t u : Trace (Call Tx) CallAnswer) (a : Unit {0}) → Extends t u → Reached R t → Reached R u
  Reached-Extends t u a w d = record {
    chain = d.chain;
    calls = d.calls;
    named = w _ d.named;
    is_local = d.is_local;
    reached = d.reached;
    among = λ es x. w _ (d.among es x);
  }

  module _ (work : ℤ → NodeProgram Tx Unit)
      (works : (chain : ℤ) → Ensures (OnSuccess (λ t u. R chain t)) [] (work chain)) where
    -- The work of the connected client.
    pub connected-Reached :
        (chain : ℤ) (past : Trace (Call Tx) CallAnswer)
        → HasNamedLocal past chain
        → Ensures (OnSuccess (λ t u. Reached R t)) past (connected (work chain))
    connected-Reached chain past l =
        OnSuccess-weaken
          (λ t a. (u : Trace (NodeCall Tx) NodeAnswer) × R chain u × Includes chain u t)
          (λ t u. Reached R t) past _
          (connected-OnSuccess chain (λ u a. R chain u) [] past (work chain)
            (Includes-nil chain past l.0) (works chain))
          λ t a w r. record {
            chain = chain;
            calls = r.0;
            named = w _ l.0;
            is_local = l.1;
            reached = r.1;
            among = r.2;
          }

    connected_session-Reached :
        (past : Trace (Call Tx) CallAnswer)
        → Ensures (OnSuccess (λ t u. Reached R t)) past (connected_session work)
    unfolding connected_session
    connected_session-Reached past =
        OnSuccess-bind HasNamedLocal (λ t u. Reached R t) past check_capabilities _
          (check_capabilities-HasNamedLocal past) λ t chain w l. connected-Reached chain t l

    pub run-Reached : Ensures (OnSuccess (λ t u. Reached R t)) [] (run work)
    unfolding run owned_session start_session node_session Ensures on_end
    run-Reached = λ output.
        let S : Trace (Call Tx) CallAnswer → Unit → Type 0 = λ t u. Reached R t in
        OnSuccess-checked S _ call_failed output _ λ version e.
          OnSuccess-require S ((anvil_version, output) ∷ []) (contains version supported_version)
            wrong_anvil_version (λ u. owned_session work)
            λ f listener. OnSuccess-checked S _ call_failed listener _ λ port g process.
              OnSuccess-checked S _ call_failed process _ λ started h.
                OnSuccess-deferring S (λ t u a w r. Reached-Extends t u a w r) _
                  (node_session port work) stop
                  (λ reply. OnSuccess-checked S _ call_failed reply _ λ client i.
                    OnSuccess-deferring S (λ t u a w r. Reached-Extends t u a w r) _
                      (connected_session work) (ask close_client) (connected_session-Reached _))
