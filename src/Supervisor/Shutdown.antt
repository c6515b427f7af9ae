-- ===== src/Supervisor/Shutdown.antt =====
-- The end of `supervise` in internal/role/supervisor.go: once its context is done it waits for its
-- workers and receives no exits any more, while each worker sends its exit before it counts as done.
use buddynet.Support.{ℕ, zero, suc, ◌+◌, ◌≤◌, ◌<◌, ◌≡◌, ◌↔◌, refl, arith}

-- The capacity of the channel `exited`.
abbrev pub exit_capacity : ℕ
exit_capacity = 16

-- The workers that have not sent, and the exits in the channel.
pub record Waiting : Type 0 where
  pub workers : ℕ
  pub sent : ℕ

-- A send goes through if the channel has room.
pub data Drain : Waiting → Waiting → Type 0 where
  send :
      (n sent : ℕ)
      → sent < exit_capacity
      → Drain (record { workers = suc n; sent = sent }) (record { workers = n; sent = suc sent })

pub data Drains (w : Waiting) : Waiting → Type 0 where
  here : Drains w w
  next : {u v : Waiting} → Drains w u → Drain u v → Drains w v

-- The wait ends when no worker is left.
abbrev pub Ends : Waiting → Type 0
Ends w = (u : Waiting) × (Drains w u × (u.workers ≡ 0))

Drains-bound :
    {w u : Waiting}
    → Drains w u
    → w.sent ≤ exit_capacity
    → (u.workers + u.sent ≡ w.workers + w.sent) × (u.sent ≤ exit_capacity)
Drains-bound here h = (refl, h)
Drains-bound (next r (send n sent room)) h =
    (omega (arith, Drains-bound r h, room), omega (arith, room))

after : {w u v : Waiting} → Drain w u → Drains u v → Drains w v
after d here = next here d
after d (next r e) = next (after d r) e

drain_all : (n sent : ℕ) → n + sent ≤ exit_capacity → Ends (record { workers = n; sent = sent })
drain_all zero sent h = (record { workers = zero; sent = sent }, (here, refl))
drain_all (suc n) sent h =
    let (u, (r, e)) = drain_all n (suc sent) (omega (arith, h)) in
    (u, (after (send n sent (omega (arith, h))) r, e))

-- The wait at the end can come to its end exactly if the workers that have not sent their exit and
-- the exits in the channel are at most 16, so more than 16 workers with an empty channel wait for
-- ever.
pub drains_iff :
    (n sent : ℕ)
    → sent ≤ exit_capacity
    → Ends (record { workers = n; sent = sent }) ↔ (n + sent ≤ exit_capacity)
drains_iff n sent h = (
  λ ((u, (r, e)) : Ends (record { workers = n; sent = sent })). omega (arith, Drains-bound r h, e),
  drain_all n sent,
)
