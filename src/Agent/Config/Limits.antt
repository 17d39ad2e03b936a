-- ===== src/Agent/Config/Limits.antt =====
-- The limits that calls resolve to under a filled configuration.
use hadron_desktop.Base.{ℕ, ◌<◌, ◌≡◌, Option, arith}
use hadron_desktop.Agent.Capture.{clamp_timeout, clamp_cap}
use hadron_desktop.Agent.Config.{Config, fill_defaults}

-- Under a configuration whose defaults were filled in, every call gets a positive timeout and a
-- positive cap, whatever it asks for, and filling in the defaults again changes neither.
pub fill_defaults-limits :
    (c : Config) (ms cap : Option ℕ)
    → let f = fill_defaults c in
      let g = fill_defaults f in
      (0 < clamp_timeout ms f.default_timeout f.max_timeout)
      × (0 < clamp_cap cap f.default_stream_cap f.max_stream_cap)
      × (clamp_timeout ms g.default_timeout g.max_timeout
          ≡ clamp_timeout ms f.default_timeout f.max_timeout)
      × (clamp_cap cap g.default_stream_cap g.max_stream_cap
          ≡ clamp_cap cap f.default_stream_cap f.max_stream_cap)
unfolding fill_defaults clamp_timeout clamp_cap
fill_defaults-limits c ms cap = (ground arith, ground arith, ground arith, ground arith)
