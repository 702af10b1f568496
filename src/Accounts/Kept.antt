-- ===== src/Accounts/Kept.antt =====
-- What `GetAccount` keeps: the files that are there, and the key that it has made.
use blog_solutions.Prelude.{
  ℤ, inr, inl, Bool-cases, arith, All, ℕ, ◌≡◌, ◌≢◌, refl, sym, ap, ◌∙◌, true, List, [], ◌∷◌, Option,
  none, some, Outcome, ok, err, panic, out_of_fuel, ◌>>=◌,
}
use blog_solutions.Rlp.Item.{Bytes, IsByte}
use blog_solutions.Blob.Packing.{equal_bytes}
use blog_solutions.Local.Token.Moved.{equal_bytes-eq}
use blog_solutions.Accounts.Hex.{hex_encode, hex_decode, hex_decode-hex_encode}
use blog_solutions.Accounts.{
  Fatal, Entry, missing, unreadable, file, Disk, healthy, failing, Machine, Keys, entry_of,
  write_key, generate, parse_key, parse_hex, load_or_generate, with_address, account_in, get_path,
  key_file, get_account,
}

same_bytes : (s : Bytes) → equal_bytes s s ≡ true
unfolding equal_bytes
same_bytes [] = refl
same_bytes (b ∷ s) = let r = same_bytes s in grind arith

entry_of_first :
    (path : Bytes) (entry : Entry) (files : List (Bytes × Entry))
    → entry_of path ((path, entry) ∷ files) ≡ entry
unfolding entry_of
entry_of_first path entry files = rw (same_bytes path) refl

module _ {Key : Type 0} (keys : Keys Key)
    (reads_back : (key : Key) → keys.to_ecdsa (keys.from_ecdsa key) ≡ some key)
    (is_bytes : (key : Key) → All IsByte (keys.from_ecdsa key)) where
  stored : (key : Key) → parse_hex keys (hex_decode (hex_encode (keys.from_ecdsa key))) ≡ ok key
  unfolding parse_hex parse_key
  stored key = rw (hex_decode-hex_encode (keys.from_ecdsa key) (is_bytes key), reads_back key) refl

  write_again :
      (path : Bytes) (made key : Key) (disk : Disk) (m n k : Machine Key)
      → write_key keys path made disk m ≡ (ok key, n)
      → k.files ≡ n.files
      → load_or_generate keys path (entry_of path k.files) k ≡ (ok key, k)
  unfolding write_key load_or_generate
  write_again path made key healthy m n k e f =
      let same : made ≡ key = cc (ap (λ (x : Outcome Fatal Key × Machine Key). x.0) e) in
      let files : (path, file (hex_encode (keys.from_ecdsa made))) ∷ m.files ≡ n.files =
        ap (λ (x : Outcome Fatal Key × Machine Key). x.1.files) e in
      rw
        (
          f,
          ← files,
          entry_of_first path (file (hex_encode (keys.from_ecdsa made))) m.files,
          stored made,
          same,
        )
        refl
  write_again path made key (failing entry) m n k e f = absurd cc

  generate_again :
      (path : Bytes) (made : Option Key) (key : Key) (m n k : Machine Key)
      → generate keys path made m ≡ (ok key, n)
      → k.files ≡ n.files
      → load_or_generate keys path (entry_of path k.files) k ≡ (ok key, k)
  unfolding generate
  generate_again path none key m n k e f = absurd cc
  generate_again path (some made) key m n k e f = write_again path made key m.disk m n k e f

  load_again :
      (path : Bytes) (entry : Entry) (key : Key) (m n k : Machine Key)
      → entry_of path m.files ≡ entry
      → load_or_generate keys path entry m ≡ (ok key, n)
      → k.files ≡ n.files
      → load_or_generate keys path (entry_of path k.files) k ≡ (ok key, k)
  unfolding load_or_generate
  load_again path missing key m n k g e f = generate_again path m.next_key key m n k e f
  load_again path unreadable key m n k g e f = absurd cc
  load_again path (file s) key m n k g e f =
      let files : m.files ≡ n.files = ap (λ (x : Outcome Fatal Key × Machine Key). x.1.files) e in
      let parsed : parse_hex keys (hex_decode s) ≡ ok key =
        ap (λ (x : Outcome Fatal Key × Machine Key). x.0) e in
      rw (f, ← files, g, parsed) refl

  -- The address goes with the key.
  with_address_again :
      (o : Outcome Fatal Key) (m n : Machine Key) (a : ℕ) (key : Key)
      → with_address keys (o, m) ≡ (ok (a, key), n)
      → (o ≡ ok key) × (m ≡ n) × (a ≡ keys.address_of key)
  unfolding with_address
  with_address_again (ok made) m n a key e =
      let same : ◌≡◌ {A = Outcome Fatal (ℕ × Key)} (ok (keys.address_of made, made)) (ok (a, key)) =
        ap (λ (x : Outcome Fatal (ℕ × Key) × Machine Key). x.0) e in
      (cc, ap (λ (x : Outcome Fatal (ℕ × Key) × Machine Key). x.1) e, cc)
  with_address_again (err x) m n a key e = absurd cc
  with_address_again (panic x) m n a key e = absurd cc
  with_address_again out_of_fuel m n a key e = absurd cc

  load_address_again :
      (path : Bytes) (x : Outcome Fatal Key × Machine Key) (m n k : Machine Key) (a : ℕ) (key : Key)
      → load_or_generate keys path (entry_of path m.files) m ≡ x
      → with_address keys x ≡ (ok (a, key), n)
      → k.files ≡ n.files
      → with_address keys (load_or_generate keys path (entry_of path k.files) k) ≡ (ok (a, key), k)
  load_address_again path (o, l) m n k a key g e f =
      let w = with_address_again o l n a key e in
      let files : k.files ≡ l.files = f ∙ ap (λ (x : Machine Key). x.files) (sym w.1) in
      let loaded : load_or_generate keys path (entry_of path m.files) m ≡ (ok key, l) =
        g ∙ ap (λ (x : Outcome Fatal Key). (x, l)) w.0 in
      let again = load_again path (entry_of path m.files) key m l k refl loaded files in
      rw (again, w.2) (unfold with_address in refl)

  account_in_again :
      (o : Outcome Fatal Bytes) (m n k : Machine Key) (a : ℕ) (key : Key)
      → account_in keys o m ≡ (ok (a, key), n)
      → k.files ≡ n.files
      → account_in keys o k ≡ (ok (a, key), k)
  unfolding account_in
  account_in_again (ok path) m n k a key e f = load_address_again path _ m n k a key refl e f
  account_in_again (err x) m n k a key e f = absurd cc
  account_in_again (panic x) m n k a key e f = absurd cc
  account_in_again out_of_fuel m n k a key e f = absurd cc

  -- For keys that go-ethereum reads back from the bytes that it writes for them: once GetAccount
  -- has returned an account, made or loaded, it returns the same address and key from then on and
  -- writes nothing, whatever key would be made next and whether or not the disk can be written.
  pub get_account_again :
      (filename : Bytes) (number : ℤ) (m n k : Machine Key) (a : ℕ) (key : Key)
      → get_account keys filename number m ≡ (ok (a, key), n)
      → k.files ≡ n.files
      → get_account keys filename number k ≡ (ok (a, key), k)
  unfolding get_account
  get_account_again filename number m n k a key e f =
      account_in_again (get_path filename >>= key_file number) m n k a key e f

entry_of_other :
    (path name : Bytes) (entry : Entry) (files : List (Bytes × Entry))
    → entry_of name files ≡ missing
    → entry_of path files ≢ missing
    → entry_of path ((name, entry) ∷ files) ≡ entry_of path files
entry_of_other path name entry files g h = elim (Bool-cases (equal_bytes path name)) [
  | inl t ↦ absurd (h (rw (equal_bytes-eq path name t) g))
  | inr f ↦ unfold entry_of in rw f refl
]

module _ {Key : Type 0} (keys : Keys Key) where
  write_key_keeps :
      (path name : Bytes) (key : Key) (disk : Disk) (m : Machine Key)
      → entry_of name m.files ≡ missing
      → entry_of path m.files ≢ missing
      → entry_of path (write_key keys name key disk m).1.files ≡ entry_of path m.files
  unfolding write_key
  write_key_keeps path name key healthy m g h =
      entry_of_other path name (file (hex_encode (keys.from_ecdsa key))) m.files g h
  write_key_keeps path name key (failing entry) m g h = entry_of_other path name entry m.files g h

  generate_keeps :
      (path name : Bytes) (made : Option Key) (m : Machine Key)
      → entry_of name m.files ≡ missing
      → entry_of path m.files ≢ missing
      → entry_of path (generate keys name made m).1.files ≡ entry_of path m.files
  unfolding generate
  generate_keeps path name none m g h = refl
  generate_keeps path name (some key) m g h = write_key_keeps path name key m.disk m g h

  load_or_generate_keeps :
      (path name : Bytes) (entry : Entry) (m : Machine Key)
      → entry_of name m.files ≡ entry
      → entry_of path m.files ≢ missing
      → entry_of path (load_or_generate keys name entry m).1.files ≡ entry_of path m.files
  unfolding load_or_generate
  load_or_generate_keeps path name missing m g h = generate_keeps path name m.next_key m g h
  load_or_generate_keeps path name unreadable m g h = refl
  load_or_generate_keeps path name (file s) m g h = refl

  account_in_keeps :
      (path : Bytes) (o : Outcome Fatal Bytes) (m : Machine Key)
      → entry_of path m.files ≢ missing
      → entry_of path (account_in keys o m).1.files ≡ entry_of path m.files
  unfolding account_in with_address
  account_in_keeps path (ok name) m h =
      load_or_generate_keeps path name (entry_of name m.files) m refl h
  account_in_keeps path (err x) m h = refl
  account_in_keeps path (panic x) m h = refl
  account_in_keeps path out_of_fuel m h = refl

  -- Whatever GetAccount comes to, with an error too, no file that was there is changed: a key is
  -- written only to a name that had none.
  pub get_account_keeps :
      (path filename : Bytes) (number : ℤ) (m : Machine Key)
      → entry_of path m.files ≢ missing
      → entry_of path (get_account keys filename number m).1.files ≡ entry_of path m.files
  unfolding get_account
  get_account_keeps path filename number m h =
      account_in_keeps path (get_path filename >>= key_file number) m h
