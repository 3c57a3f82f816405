-- ===== src/Mempool/Reachable.antt =====
-- The states that the actor of crates/mempool/src/webserver/actor.rs passes through.
use constantinople.Base.{ℕ, List, Eq}
use constantinople.Mempool.{Config, Mempool, Message, new}
use constantinople.Mempool.Messages.{handle}

pub data Reachable {L D S : Type 0} ⦃e : Eq D⦄ (c : Config) (signature_size : S → ℕ)
    (to_string : D → List ℕ) (iteration : List (List ℕ) → List (List ℕ))
    : Mempool L D S → Type 0 where
  started : Reachable c signature_size to_string iteration new
  handled :
      (message : Message L D S) (m : Mempool L D S)
      → Reachable c signature_size to_string iteration m
      → Reachable c signature_size to_string iteration
          (handle c signature_size to_string iteration message m).0

-- What holds at the start and is kept by every message holds always.
pub Reachable-inv :
    {L D S : Type 0} ⦃e : Eq D⦄ {c : Config} {signature_size : S → ℕ} {to_string : D → List ℕ}
    {iteration : List (List ℕ) → List (List ℕ)} (P : Mempool L D S → Type 0)
    → P new
    → ((message : Message L D S) (m : Mempool L D S)
        → P m
        → P (handle c signature_size to_string iteration message m).0)
    → (m : Mempool L D S) → Reachable c signature_size to_string iteration m
    → P m
Reachable-inv P start keep _ started = start
Reachable-inv P start keep _ (handled message m r) = keep message m (Reachable-inv P start keep m r)
