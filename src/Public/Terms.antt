-- ===== src/Public/Terms.antt =====
-- The terms of the transactions that the programs send, said apart from the code that makes them.
use blog_solutions.Prelude.{
  ℕ, ◌+◌, ◌-◌, ◌*◌, ◌<◌, ◌≤◌, ◌^◌, ◌≡◌, refl, ap, arith, ℤ, pos, negsuc, List, [], ◌∷◌, ◌++◌,
  Option, none, some, ok, length, replicate,
}
use blog_solutions.Blob.FieldElements.{copy_at_start}
use blog_solutions.Local.Calls.{AccessList, CallMsg, Failure, Reply, answer, failure, Receipt}
use blog_solutions.Fees.Caps.{buffered, last_of, last_fee}
use blog_solutions.Public.{Bytes, reported}
use blog_solutions.Public.Blobs.{raw_blob}
use blog_solutions.Public.SetCode.{to_int64}
use blog_solutions.Local.Blobs.{content}

-- The message of an estimate without terms of its own.
abbrev pub call_of : ℕ → ℕ → Option ℤ → Bytes → AccessList → CallMsg
call_of sender target sum payload entries = record {
  from = sender;
  to = target;
  value = sum;
  data_of = payload;
  gas_price = none;
  gas_tip_cap = none;
  gas_fee_cap = none;
  access_list = entries;
  blob_gas_fee_cap = none;
  blob_hashes = [];
}

-- `part` is 112 hundredths of the fee, rounded down.
abbrev pub IsHundredths : ℤ → ℤ → Type 0
IsHundredths (pos fee) (pos part) = (100 * part ≤ 112 * fee) × (112 * fee < 100 * part + 100)
IsHundredths (negsuc fee) (negsuc part) =
    (112 * (fee + 1) ≤ 100 * (part + 1)) × (100 * part < 112 * (fee + 1))
IsHundredths _ _ = ⊥

pub buffered-IsHundredths : (fee : ℤ) → IsHundredths fee (buffered fee)
unfolding buffered
buffered-IsHundredths (pos fee) = (omega arith, omega arith)
buffered-IsHundredths (negsuc fee) = (omega arith, omega arith)

-- The fee is the last of the history.
abbrev pub IsLast : List ℤ → ℤ → Type 0
IsLast fees fee = (front : List ℤ) × (fees ≡ front ++ (fee ∷ []))

last_of-IsLast : (fee : ℤ) (fees : List ℤ) → IsLast (fee ∷ fees) (last_of fee fees)
unfolding last_of
last_of-IsLast fee [] = ([], refl)
last_of-IsLast fee (next ∷ fees) =
    let (front, e) = last_of-IsLast next fees in (fee ∷ front, ap (λ rest. fee ∷ rest) e)

pub last_fee-IsLast :
    (fees : List ℤ) (fee : ℤ) → last_fee {E = Failure} fees ≡ ok fee → IsLast fees fee
unfolding last_fee
last_fee-IsLast [] fee e = absurd cc
last_fee-IsLast (first ∷ fees) fee e =
    let same : last_of first fees ≡ fee = cc in rw same at (last_of-IsLast first fees)

-- What is printed: the receipt, where the node has answered with one.
abbrev pub IsPrinted : Reply Receipt → Option Receipt → Type 0
IsPrinted (answer receipt) o = o ≡ some receipt
IsPrinted (failure e) o = o ≡ none

pub reported-IsPrinted : (reply : Reply Receipt) → IsPrinted reply (reported reply)
reported-IsPrinted (answer receipt) = refl
reported-IsPrinted (failure e) = refl

-- The text from the first byte on, filled up with zeros to the size.
abbrev pub IsTextBlob : ℕ → Bytes → Type 0
IsTextBlob size payload = payload ≡ content ++ replicate (size - length content) 0

pub raw_blob-IsTextBlob : (size : ℕ) → length content ≤ size → IsTextBlob size (raw_blob size)
unfolding raw_blob
raw_blob-IsTextBlob size h = copy_at_start size content h

-- Below 2 ^ 63 the signed number is the number itself.
pub to_int64_small : (nonce : ℕ) → nonce < 2 ^ 63 → to_int64 nonce ≡ pos nonce
unfolding to_int64
to_int64_small nonce h = ground arith
