-- ===== src/Transaction/Tests.antt =====
-- Codecs that keep a word in one cell, and instances of the round trips.
use constantinople.Base.{ℕ, ◌≡◌, ◌↔◌, refl, List, [], ◌∷◌, ◌++◌, CodecError, arith, replicate}
use constantinople.Base.Result.{ok, err}
use constantinople.Base.Cells.{cell}
use constantinople.Account.{Account}
use constantinople.Account.Codec.{read_key, write_account, read_account, account-round_trip}
use constantinople.Transaction.{SignedTransaction}
use constantinople.Transaction.Codec.{
  write_signed, read_signed, read_sealed, read_transaction, IsSealed, signed_transaction-round_trip,
}

abbrev account : Account
account = record { balance = 42; nonce = record { base = 7; bitmap = 3 } }

account-round_trip_example :
    (read_account cell (write_account cell account ++ 9 ∷ []) ≡ ok (account, 9 ∷ []))
    × ((read_account cell (42 ∷ 7 ∷ 3 ∷ 9 ∷ []) ≡ ok (account, 9 ∷ []))
        ↔ (42 ∷ 7 ∷ 3 ∷ 9 ∷ [] ≡ write_account cell account ++ 9 ∷ []))
account-round_trip_example =
    account-round_trip cell account (42 ∷ 7 ∷ 3 ∷ 9 ∷ []) (9 ∷ [])
      (omega arith, (omega arith, omega arith))

abbrev first_or_zero : List ℕ → ℕ
first_or_zero [] = 0
first_or_zero (x ∷ xs) = x

abbrev payment : ℕ → SignedTransaction ℕ ℕ ℕ
payment value = record {
  inner = record {
    inner = record { sender = 5; to = record { bytes = replicate 32 1 }; value = value; nonce = 8 };
    seal = 5;
  };
  signature = 6;
}

abbrev encoding : ℕ → List ℕ
encoding value = 5 ∷ replicate 32 1 ++ value ∷ 8 ∷ 6 ∷ []

-- A value of zero is refused.
zero_value_refused :
    read_signed cell cell cell first_or_zero (encoding 0)
    ≡ err (CodecError.invalid "Transaction" "value must be non-zero")
unfolding read_signed read_sealed read_transaction read_key
zero_value_refused = refl

signed_transaction-round_trip_example :
    (read_signed cell cell cell first_or_zero (encoding 9) ≡ ok (payment 9, [])) ↔ (
      (encoding 9 ≡ write_signed cell cell cell first_or_zero (payment 9) ++ [])
      × IsSealed cell cell cell first_or_zero (payment 9))
signed_transaction-round_trip_example =
    signed_transaction-round_trip cell cell cell first_or_zero (encoding 9) (payment 9) []
