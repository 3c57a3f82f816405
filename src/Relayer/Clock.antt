-- ===== src/Relayer/Clock.antt =====
-- bin/validator/src/relayer.rs: the view clock that the relayer waits for, and what the merging of
-- statuses leaves alone.
use constantinople.Base.{
  ℕ, suc, ◌≤◌, ◌<◌, length, ◌≡◌, refl, ◌∙◌, Option, none, some, List, [], ◌∷◌, ◌++◌, arith,
  bytes_eq,
}
use constantinople.Mempool.{BatchStatus}
use constantinople.Relayer.{Leader, wait_for_view_advance}
use constantinople.Relayer.Submit.{
  Relay, Externals, status_of_response, merge_status, merge_statuses, transactions_path,
}

-- The views to come, each higher than the one before it: the clock is only ever set higher.
abbrev pub IsIncreasing : ℕ → List ℕ → Type 0
IsIncreasing view [] = Unit
IsIncreasing view (next ∷ views) = (view < next) × IsIncreasing next views

-- A clock that has `left` views to come.
abbrev pub IsReady : ℕ → List ℕ × ℕ → Type 0
IsReady left (views, view) = IsIncreasing view views × (left ≤ length views)

pub wait_for_view_advance-IsReady :
    (left : ℕ) (views : List ℕ) (view : ℕ)
    → IsReady (suc left) (views, view)
    → (later : List ℕ × ℕ) × (wait_for_view_advance views view ≡ some later) × IsReady left later
unfolding wait_for_view_advance
wait_for_view_advance-IsReady left [] view h = absurd (omega (arith, h.1))
wait_for_view_advance-IsReady left (next ∷ views) view h =
    ((views, next), ground (arith, h.0.0), (h.0.1, omega (arith, h.1)))

module _ {W L D S : Type 0} (x : Externals W L D S) where
  -- What a status leaves alone, the statuses of all attempts do.
  pub merge_statuses-kept :
      {A : Type 0} (f : Relay W → A)
      → ((status : Option BatchStatus) (r : Relay W) (w1 : W)
          → f (merge_status x status (record r { world = w1 })) ≡ f r)
      → (attempts : List (List ℕ × Leader)) (r : Relay W) → f (merge_statuses x attempts r) ≡ f r
  unfolding merge_statuses
  merge_statuses-kept f h [] r = refl
  merge_statuses-kept f h ((id, leader) ∷ attempts) r =
      let (answer, w1) = x.http.get (leader.url ++ transactions_path ++ 47 ∷ id) r.world in
      merge_statuses-kept f h attempts
        (merge_status x (status_of_response x answer) (record r { world = w1 }))
      ∙ h (status_of_response x answer) r w1

  pub merge_status-pending :
      (status : Option BatchStatus) (r : Relay W) (w1 : W)
      → (merge_status x status (record r { world = w1 })).pending ≡ r.pending
  merge_status-pending none r w1 = refl
  merge_status-pending (some status) r w1 = refl

  pub merge_status-clock :
      (status : Option BatchStatus) (r : Relay W) (w1 : W)
      → ◌≡◌ {A = List ℕ × ℕ}
          (let merged = merge_status x status (record r { world = w1 }) in
            (merged.views, merged.view))
          (r.views, r.view)
  merge_status-clock none r w1 = refl
  merge_status-clock (some status) r w1 = refl
