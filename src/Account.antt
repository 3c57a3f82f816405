-- ===== src/Account.antt =====
-- crates/primitives/src/account.rs: account keys, nonces with a run-ahead window, accounts.
pub mod Nonce
pub mod Codec
use constantinople.Base.{
  ℕ, ◌+◌, ◌≡◌, true, not, Option, none, some, List, [], ◌∷◌, eqb, if◌then◌else◌, length, take, drop,
  Eq, Ord, bytes_beq, bytes_cmp, bytes_beq_iff, bytes_cmp-eq, bytes_cmp_refl, bytes_cmp-gt,
  bytes_cmp-lt, bytes_cmp-lt_trans, ap,
}
use Prim.Native.Nat.{Ordering}
use Prim.Native.Nat.Ordering.{lt, eq, gt}
use mathlib.Core.Logic.{◌↔◌}

-- `DEFAULT_ACCOUNT_BALANCE`
abbrev pub default_account_balance : ℕ
default_account_balance = 100

-- `ED25519_SCHEME` and `SECP256R1_SCHEME` of auth.rs
abbrev pub ed25519_scheme : ℕ
ed25519_scheme = 0

abbrev pub secp256r1_scheme : ℕ
secp256r1_scheme = 1

-- `AccountKey::SIZE` and `TransactionPublicKey::SIZE`
abbrev pub account_key_size : ℕ
account_key_size = 32

abbrev pub public_key_size : ℕ
public_key_size = 34

-- The derived `PartialEq`, `Eq` and `Ord` compare the bytes.
pub record AccountKey : Type 0 where
  pub bytes : List ℕ

pub key_beq_iff : (a b : AccountKey) → (bytes_beq a.bytes b.bytes ≡ true) ↔ (a ≡ b)
key_beq_iff a b = (
  (λ h. ap (λ x. record { bytes = x }) ((bytes_beq_iff a.bytes b.bytes).0 h)),
  (λ e. (bytes_beq_iff a.bytes b.bytes).1 (ap (λ (k : AccountKey). k.bytes) e)),
)

instance abbrev pub key_eq : Eq AccountKey
key_eq = record { beq = λ a b. bytes_beq a.bytes b.bytes; beq_iff = key_beq_iff }

pub key_cmp-eq : (a b : AccountKey) → bytes_cmp a.bytes b.bytes ≡ eq → a ≡ b
key_cmp-eq a b h = ap {B = AccountKey} (λ x. record { bytes = x }) (bytes_cmp-eq a.bytes b.bytes h)

instance abbrev pub key_ord : Ord AccountKey
key_ord = record {
  cmp = λ a b. bytes_cmp a.bytes b.bytes;
  eq_of_cmp = key_cmp-eq;
  cmp_refl = λ a. bytes_cmp_refl a.bytes;
  lt_of_gt = λ a b. bytes_cmp-gt a.bytes b.bytes;
  gt_of_lt = λ a b. bytes_cmp-lt a.bytes b.bytes;
  lt_trans = λ a b c. bytes_cmp-lt_trans a.bytes b.bytes c.bytes;
}

module _ (sha256 : List ℕ → List ℕ) where
  -- `AccountKey::from_public_key_bytes`, with `commonware_cryptography::sha256` as a parameter.
  unfoldable pub from_public_key_bytes : List ℕ → Option AccountKey
  from_public_key_bytes [] = none
  from_public_key_bytes (scheme ∷ key) =
      if not (eqb (length (scheme ∷ key)) public_key_size)
      then none
      else if eqb scheme ed25519_scheme
      then some (record { bytes = take account_key_size key })
      else if eqb scheme secp256r1_scheme
      then some (record { bytes = sha256 (scheme ∷ key) })
      else none

-- `AccountKey::from_bytes`
unfoldable pub from_bytes : List ℕ → Option AccountKey
from_bytes bytes =
    if not (eqb (length bytes) account_key_size) then none else some (record { bytes = bytes })

pub record Account : Type 0 where
  pub balance : ℕ
  pub nonce : Nonce.Nonce

-- `Account::default()`
abbrev pub default_account : Account
default_account = record {
  balance = default_account_balance;
  nonce = record { base = 0; bitmap = 0 };
}
