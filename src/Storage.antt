-- ===== src/Storage.antt =====
-- crates/storage/src/lib.rs: the guard on the capacity of the storage volume.
pub mod Objects
mod Tests
use strife.Base.{
  ℕ, ◌+◌, ◌*◌, ◌/◌, ◌≤◌, ◌<◌, ◌≡◌, Option, none, some, Bool, true, false, ◌||◌, arith, leb, ltb,
  min, ◌==◌, if◌then◌else◌,
}
use strife.Base.Result.{Result, ok, err}
use strife.Base.Text.{u64_max}

abbrev pub saturating : ℕ → ℕ
saturating x = if ltb u64_max x then u64_max else x

abbrev pub saturating_add : ℕ → ℕ → ℕ
saturating_add a b = saturating (a + b)

abbrev pub saturating_mul : ℕ → ℕ → ℕ
saturating_mul a b = saturating (a * b)

pub record DiskUsage : Type 0 where
  pub total_bytes : ℕ
  pub used_bytes : ℕ
  pub available_bytes : ℕ

pub record DiskGuard : Type 0 where
  pub threshold_percent : ℕ

pub record DiskGuardExceeded : Type 0 where
  pub usage_percent : ℕ

-- DiskGuard::new
unfoldable pub new_guard : ℕ → Option DiskGuard
new_guard threshold_percent =
    if threshold_percent == 0 || ltb 100 threshold_percent
    then none
    else some (record { threshold_percent = threshold_percent })

-- checked_div(total).unwrap_or(100)
abbrev pub percent_of : ℕ → ℕ → ℕ
percent_of x total = if total == 0 then 100 else x / total

-- DiskGuard::check
unfoldable pub check : DiskGuard → DiskUsage → ℕ → Result DiskGuardExceeded ℕ
check guard usage incoming_bytes =
    let projected_used = saturating_add usage.used_bytes incoming_bytes in
    let usage_percent = percent_of (saturating_mul projected_used 100) usage.total_bytes in
    if usage.total_bytes == 0
      || leb (saturating_mul usage.total_bytes guard.threshold_percent)
          (saturating_mul projected_used 100)
    then err (record { usage_percent = usage_percent })
    else ok usage_percent

-- A projection that passes the guard is below the threshold, also where the arithmetic saturates, and
-- the returned percentage is that of the exact projection.
pub check-below :
    (g : DiskGuard) (u : DiskUsage) (incoming p : ℕ)
    → check g u incoming ≡ ok p
    → ((u.used_bytes + incoming) * 100 < u.total_bytes * g.threshold_percent)
      × (p ≡ (u.used_bytes + incoming) * 100 / u.total_bytes)
unfolding check
check-below g u incoming p e = ground arith

-- Where the volume's size times the threshold fits a u64, every projection below the threshold passes
-- the guard.
pub check-passes :
    (g : DiskGuard) (u : DiskUsage) (incoming : ℕ)
    → u.total_bytes * g.threshold_percent ≤ u64_max
    → (u.used_bytes + incoming) * 100 < u.total_bytes * g.threshold_percent
    → check g u incoming ≡ ok ((u.used_bytes + incoming) * 100 / u.total_bytes)
unfolding check
check-passes g u incoming fits below = ground arith
