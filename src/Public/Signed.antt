-- ===== src/Public/Signed.antt =====
-- The authorizations that the set-code program signs.
use blog_solutions.Prelude.{
  ℤ, ◌<◌, ◌^◌, ◌-◌, ◌≤◌, ◌++◌, length, take, take-drop, drop_add, sym, arith, [], ℕ, pos, ◌≡◌, refl,
  ◌∷◌, ok,
}
use blog_solutions.Local.Program.{Trace, Ensures, done}
use blog_solutions.Local.Calls.{
  failure, checked, Failure, Reply, answer, NodeCall, NodeAnswer, call_failed,
}
use blog_solutions.Local.Ethereum.{Ethereum}
use blog_solutions.Local.Success.{OnSuccess, OnSuccess-bind, OnSuccess-checked, OnSuccess-weaken}
use blog_solutions.Public.Terms.{to_int64_small}
use blog_solutions.Public.{Bytes, amoy_chain_id}
use blog_solutions.Public.Broadcast.{done-ok}
use blog_solutions.Prelude.{drop}
use blog_solutions.Rlp.BigEndian.{from_bytes}
use blog_solutions.Slices.{slice, length-part}
use blog_solutions.Public.{amoy_chain_id}
use blog_solutions.Public.SetCode.{
  module_address, SignedGrant, Batch, to_int64, last_byte_of, grant_of, sign_delegation,
}

-- The authorization holds the parts of the signature, and what was signed.
pub record IsGrantOf (nonce : ℕ) (sig : Bytes) (grant : SignedGrant) : Type 0 where
  pub r_bytes : Bytes
  pub s_bytes : Bytes
  pub rest : Bytes
  pub r_length : length r_bytes ≡ 32
  pub s_length : length s_bytes ≡ 32
  pub parts : sig ≡ r_bytes ++ (s_bytes ++ (grant.v ∷ rest))
  pub chain : grant.chain ≡ 80002
  pub address : grant.address ≡ 0x4f9c96915a9ce8cd5eb11a2c35ab587fc97d5126
  pub nonce_of : grant.nonce ≡ nonce
  pub r : grant.r ≡ from_bytes 0 r_bytes
  pub s : grant.s ≡ from_bytes 0 s_bytes

slice_parts :
    (sig : Bytes) (lo hi : ℕ) (bytes : Bytes)
    → slice {E = Failure} sig lo hi ≡ ok bytes
    → (bytes ≡ take (hi - lo) (drop lo sig)) × (hi ≤ length sig)
unfolding slice
slice_parts sig lo hi bytes e = ground arith

last_byte_rest : (xs : Bytes) (v : ℕ) → last_byte_of xs ≡ ok v → (rest : Bytes) × (xs ≡ v ∷ rest)
unfolding last_byte_of
last_byte_rest [] v e = absurd cc
last_byte_rest (b ∷ rest) v e = (rest, cc e)

-- A signature of which the program reads the three parts.
pub signature_parts :
    (sig r s : Bytes) (v : ℕ)
    → slice {E = Failure} sig 0 32 ≡ ok r
    → slice {E = Failure} sig 32 64 ≡ ok s
    → last_byte_of (drop 64 sig) ≡ ok v
    → (length r ≡ 32) × (length s ≡ 32) × (rest : Bytes) × (sig ≡ r ++ (s ++ (v ∷ rest)))
signature_parts sig r s v e1 e2 e3 =
    let (p, l1) = slice_parts sig 0 32 r e1 in
    let (q, l2) = slice_parts sig 32 64 s e2 in
    let (rest, k) = last_byte_rest (drop 64 sig) v e3 in
    let cut : drop 64 sig ≡ drop 32 (drop 32 sig) = drop_add 32 32 sig in
    (
      rw p (length-part sig 0 32 (omega arith)),
      rw q (length-part sig 32 32 (omega arith)),
      rest,
      rw (p, q, sym k, cut, take-drop 32 (drop 32 sig)) (sym (take-drop 32 sig)),
    )

module _ {Tx Key : Type 0} (lib : Ethereum Tx Key) (batch : Batch Tx Key) where
  pub grant_of-IsGrantOf :
      (nonce : ℕ) (sig : Bytes) (past : Trace (NodeCall Tx) NodeAnswer)
      → Ensures
          (OnSuccess (λ t grant. IsGrantOf nonce sig grant))
          past
          (grant_of {Tx = Tx} nonce sig)
  unfolding grant_of
  grant_of-IsGrantOf nonce sig past =
      let R : Trace (NodeCall Tx) NodeAnswer → SignedGrant → Type 0 =
        λ t grant. IsGrantOf nonce sig grant in
      OnSuccess-bind (λ t r. slice {E = Failure} sig 0 32 ≡ ok r) R past (done (slice sig 0 32)) _
        (done-ok lib (slice sig 0 32) past)
        λ t1 r w1 e1.
          OnSuccess-bind (λ t s. slice {E = Failure} sig 32 64 ≡ ok s) R t1 (done (slice sig 32 64))
            _ (done-ok lib (slice sig 32 64) t1)
            λ t2 s w2 e2.
              OnSuccess-bind (λ t v. last_byte_of (drop 64 sig) ≡ ok v) R t2
                (done (last_byte_of (drop 64 sig)))
                (λ v. done (
                  ok (record {
                    chain = amoy_chain_id;
                    address = module_address;
                    nonce = nonce;
                    r = from_bytes 0 r;
                    s = from_bytes 0 s;
                    v = v;
                  })))
                (done-ok lib (last_byte_of (drop 64 sig)) t2)
                λ t3 v w3 e3.
                  unfold Ensures in
                  record {
                    r_bytes = r;
                    s_bytes = s;
                    rest = (signature_parts sig r s v e1 e2 e3).2;
                    r_length = (signature_parts sig r s v e1 e2 e3).0;
                    s_length = (signature_parts sig r s v e1 e2 e3).1;
                    parts = (signature_parts sig r s v e1 e2 e3).3;
                    chain = refl;
                    address = refl;
                    nonce_of = refl;
                    r = refl;
                    s = refl;
                  }

  -- The signature is that of the key on the hash of the magic byte and the list of the same chain,
  -- address and nonce.
  pub record IsDelegationSig (key : Key) (nonce : ℕ) (sig : Bytes) : Type 0 where
    pub payload : Bytes
    pub number : ℤ
    pub is_number : nonce < 2 ^ 63 → number ≡ pos nonce
    pub encoded :
        batch.rlp_list (pos 80002) 0x4f9c96915a9ce8cd5eb11a2c35ab587fc97d5126 number
        ≡ answer payload
    pub signed : batch.hash_sign key (0x05 ∷ payload) ≡ answer sig

  pub checked-answer :
      {A : Type 0} (r : Reply A) (past : Trace (NodeCall Tx) NodeAnswer)
      → Ensures (OnSuccess (λ t a. r ≡ answer a)) past (checked call_failed r)
  unfolding Ensures
  checked-answer (answer a) past = refl
  checked-answer (failure e) past = tt

  pub sign_delegation-IsDelegationSig :
      (key : Key) (nonce : ℕ) (past : Trace (NodeCall Tx) NodeAnswer)
      → Ensures
          (OnSuccess (λ t sig. IsDelegationSig key nonce sig))
          past
          (sign_delegation lib batch key nonce)
  unfolding sign_delegation
  sign_delegation-IsDelegationSig key nonce past =
      let R : Trace (NodeCall Tx) NodeAnswer → Bytes → Type 0 =
        λ t sig. IsDelegationSig key nonce sig in
      OnSuccess-checked R past call_failed
        (batch.rlp_list (pos amoy_chain_id) module_address (to_int64 nonce)) _
        λ payload e.
          OnSuccess-weaken (λ t sig. batch.hash_sign key (0x05 ∷ payload) ≡ answer sig) R past
            (checked call_failed (batch.hash_sign key (0x05 ∷ payload)))
            (checked-answer (batch.hash_sign key (0x05 ∷ payload)) past)
            λ t sig w f. record {
              payload = payload;
              number = to_int64 nonce;
              is_number = to_int64_small nonce;
              encoded = e;
              signed = f;
            }
