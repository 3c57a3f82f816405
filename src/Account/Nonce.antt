-- ===== src/Account/Nonce.antt =====
-- `struct Nonce` of crates/primitives/src/account.rs: a base and a 64-bit map of used future
-- nonces, and the state machine that consumes one nonce.
pub mod Scan
pub mod Consume
mod Tests
use constantinople.Base.{
  ℕ, zero, suc, ◌+◌, ◌-◌, ◌/◌, ◌^◌, ◌≡◌, Bool, true, false, not, ◌&&◌, Option, none, some, arith,
  ltb, leb, eqb, if◌then◌else◌, ◌>>=◌, bit_and, bit_or,
}
use constantinople.Base.Word.{checked_add}

-- `NONCE_BITMAP_CAPACITY`
abbrev pub nonce_bitmap_capacity : ℕ
nonce_bitmap_capacity = 64

-- Bit 0 of `bitmap` records `base + 1`, and bit 63 records `base + 64`.
pub record Nonce : Type 0 where
  pub base : ℕ
  pub bitmap : ℕ

-- The `while advance <= NONCE_BITMAP_CAPACITY` loop; the first argument bounds its rounds.
unfoldable pub count_advance : ℕ → ℕ → ℕ → ℕ
count_advance zero bitmap advance = advance
count_advance (suc rounds) bitmap advance =
    let next = count_advance rounds bitmap (advance + 1) in
    if leb advance nonce_bitmap_capacity
    then if eqb (bit_and bitmap (2 ^ (advance - 1))) 0 then advance else next
    else advance

unfoldable pub consume_current_nonce : ℕ → ℕ → Option Nonce
consume_current_nonce base bitmap =
    let advance = count_advance nonce_bitmap_capacity bitmap 1 in
    do
      nonce ← checked_add base advance
      some (record {
        base = nonce;
        bitmap = if leb nonce_bitmap_capacity advance then 0 else bitmap / 2 ^ advance;
      })

unfoldable pub next_nonce_state : ℕ → ℕ → ℕ → Option Nonce
next_nonce_state base bitmap nonce = do
  next_used_nonce ← checked_add nonce 1
  let delta = nonce - base
  let bit = 2 ^ (delta - 1)
  if ltb nonce base
      then none
      else if eqb delta 0
      then consume_current_nonce base bitmap
      else if ltb nonce_bitmap_capacity delta
      then some (record { base = next_used_nonce; bitmap = 0 })
      else if not (eqb (bit_and bitmap bit) 0)
      then none
      else some (record { base = base; bitmap = bit_or bitmap bit })

-- `Nonce::consume`: the new state, and whether the nonce was accepted.
unfoldable pub consume : Nonce → ℕ → Nonce × Bool
consume n nonce = elim (next_nonce_state n.base n.bitmap nonce) [
  | none ↦ (n, false)
  | some next ↦ (next, true)
]
