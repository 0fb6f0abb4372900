-- ===== src/Gitlab/Limits.antt =====
-- The limit on removals, and that a group with an unresolved user loses nobody.
use group_bridge.Base.{ℕ, ◌≤◌, ◌≡◌, ◌⊎◌, false, number_eq, str_eq}
use group_bridge.Base.Map.{Map}
use group_bridge.Model.{SyncRequest, SyncResult}
use group_bridge.Gitlab.Api.{Api}

-- Nobody is removed yet, and this many users are unresolved.
abbrev Idle : ℕ → SyncResult → Type 0
Idle n x = (x.unresolved ≡ n) × (x.removed ≡ 0) × (x.converged ≡ false)

-- The limit on removals holds, and a user who is not resolved stops all of them.
abbrev pub IsLimited : SyncRequest → SyncResult → Type 0
IsLimited req x =
    (x.removed ≤ req.max_removals) × ((x.unresolved ≡ 0) ⊎ (x.removed ≡ 0) × (x.converged ≡ false))
