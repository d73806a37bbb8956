-- ===== src/Storage/Tests.antt =====
-- A volume of 1000 bytes that is half full, under a guard at 90 percent.
use strife.Base.{◌+◌, ◌*◌, ◌<◌, ◌≤◌, ◌≡◌, refl, arith}
use strife.Base.Result.{ok, err}
use strife.Storage.{DiskGuard, DiskUsage, check}
use strife.Base.Text.{u64_max}

abbrev limit : DiskGuard
limit = record { threshold_percent = 90 }

abbrev volume : DiskUsage
volume = record { total_bytes = 1000; used_bytes = 500; available_bytes = 500 }

fits : check limit volume 100 ≡ ok 60
unfolding check
fits = refl

at_limit : check limit volume 400 ≡ err (record { usage_percent = 90 })
unfolding check
at_limit = refl

small : 1000 * 90 ≤ u64_max
small = omega arith

below : (500 + 100) * 100 < 1000 * 90
below = omega arith
