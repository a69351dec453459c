-- ===== src/Heartbeat/Window.antt =====
-- The liveness window of reenqueue_orphaned.rs.
use apalis_surrealdb.Prelude.{ℕ, ◌*◌, ◌/◌, ◌^◌, ◌<◌, max, ◌≡◌, arith}
use apalis_surrealdb.Prelude.Int.{pos}
use apalis_surrealdb.Fetch.{Config}
use apalis_surrealdb.Heartbeat.{effective_reenqueue_millis, millis}

millis-pos : (d : ℕ) → d / 1000000 < 2 ^ 63 → millis d ≡ pos (d / 1000000)
millis-pos d h = ground arith

-- For intervals whose milliseconds fit an i64, the window is the configured one, but never below twice the
-- keep-alive interval.
pub effective_reenqueue_millis_lem :
    (config : Config)
    → config.keep_alive * 2 / 1000000 < 2 ^ 63
    → config.reenqueue_orphaned_after / 1000000 < 2 ^ 63
    → effective_reenqueue_millis config
      ≡ pos (max (config.reenqueue_orphaned_after / 1000000) (config.keep_alive * 2 / 1000000))
unfolding effective_reenqueue_millis
effective_reenqueue_millis_lem config k a = ground arith
