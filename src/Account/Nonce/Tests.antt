-- ===== src/Account/Nonce/Tests.antt =====
-- Runs of `Nonce::consume` from the unit tests of account.rs, and instances of the theorems.
use constantinople.Base.{◌≡◌, refl, true, false, not, ◌&&◌, ◌^◌, ◌-◌, ltb, if◌then◌else◌, arith}
use constantinople.Account.Nonce.{
  Nonce, consume, next_nonce_state, consume_current_nonce, count_advance,
}
use constantinople.Account.Nonce.Consume.{
  IsNonce, is_used, used_after, consume-refines_set, default-IsNonce,
}

abbrev fresh : Nonce
fresh = record { base = 0; bitmap = 0 }

records_run_ahead : consume fresh 2 ≡ (record { base = 0; bitmap = 2 }, true)
unfolding consume next_nonce_state
records_run_ahead = refl

compacts_contiguous :
    consume (record { base = 1; bitmap = 1 }) 1 ≡ (record { base = 3; bitmap = 0 }, true)
unfolding consume next_nonce_state consume_current_nonce count_advance
compacts_contiguous = refl

rejects_duplicate :
    consume (record { base = 0; bitmap = 2 }) 2 ≡ (record { base = 0; bitmap = 2 }, false)
unfolding consume next_nonce_state
rejects_duplicate = refl

clears_after_jump :
    consume (record { base = 0; bitmap = 2 }) 65 ≡ (record { base = 66; bitmap = 0 }, true)
unfolding consume next_nonce_state
clears_after_jump = refl

consume-refines_set_example :
    let (next, accepted) = consume fresh 2 in
    (accepted ≡ (not (is_used fresh 2) && ltb 2 (2 ^ 64 - 1)))
    × IsNonce next
    × (is_used next 2 ≡ (if accepted then used_after fresh 2 2 else is_used fresh 2))
    × (next ≡ (if accepted then next else fresh))
consume-refines_set_example = consume-refines_set fresh 2 2 default-IsNonce (omega arith)
