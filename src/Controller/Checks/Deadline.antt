-- ===== src/Controller/Checks/Deadline.antt =====
-- `probeJobDeadlineSeconds` of internal/controller/networkprobelab_controller.go.
use smtx_lab.Prelude.{
  ℕ, ◌+◌, ◌*◌, ◌^◌, ◌<◌, min, max, ◌≡◌, ap, ◌∙◌, arith, if◌then◌else◌, nat_eq, text_eq,
}
use smtx_lab.Prelude.Int.{
  ℤ, pos, ◌≤ℤ◌, ◌+ℤ◌, ◌*ℤ◌, wrap64, wrap64_fits, eq_of_parts, int_laws, is_pos,
}
use smtx_lab.Api.Network.{NetworkProbeTrafficSpec}
use smtx_lab.Controller.Checks.{default_int32, clamp_deadline, probe_job_deadline_seconds}
use smtx_lab.Analyzer.Resource.Rounding.{pos*ℤpos}

clamp_deadline_bounds : (d : ℤ) → (pos 120 ≤ℤ clamp_deadline d) × (clamp_deadline d ≤ℤ pos 3600)
unfolding clamp_deadline
clamp_deadline_bounds d = ground arith

-- The deadline of a probe job is at least 120 and at most 3600 seconds, whatever the spec says.
pub probe_job_deadline_seconds_bounds :
    (traffic : NetworkProbeTrafficSpec) (check_count : ℤ)
    → (pos 120 ≤ℤ probe_job_deadline_seconds traffic check_count)
      × (probe_job_deadline_seconds traffic check_count ≤ℤ pos 3600)
unfolding probe_job_deadline_seconds
probe_job_deadline_seconds_bounds traffic check_count = clamp_deadline_bounds _

default_int32_pos : (n : ℕ) (fallback : ℤ) → 0 < n → default_int32 (pos n) fallback ≡ pos n
unfolding default_int32
default_int32_pos n fallback h = ground arith

positive_count : (n : ℕ) → 0 < n → (if is_pos (pos n) then pos n else pos 1) ≡ pos n
positive_count n h = ground arith

wrap_times : (a b : ℕ) → a * b < 2 ^ 63 → wrap64 (pos a *ℤ pos b) ≡ pos (a * b)
wrap_times a b h = ap wrap64 (pos*ℤpos a b) ∙ wrap64_fits (pos (a * b)) h (omega arith)

wrap_plus : (a b : ℕ) → a + b < 2 ^ 63 → wrap64 (pos a +ℤ pos b) ≡ pos (a + b)
wrap_plus a b h =
    ap wrap64 (eq_of_parts (pos a +ℤ pos b) (pos (a + b)) (omega int_laws))
    ∙ wrap64_fits (pos (a + b)) h (omega arith)

clamp_deadline_pos : (n : ℕ) → clamp_deadline (pos n) ≡ pos (min 3600 (max 120 n))
unfolding clamp_deadline
clamp_deadline_pos n = ground arith

-- Where the spec gives a positive count and a positive timeout, and their product with the number of
-- checks, which is positive, leaves 60 seconds below 2^63, the deadline is that product and 60 seconds,
-- brought into the range from 120 to 3600.
pub probe_job_deadline_seconds-eq-clamp :
    (traffic : NetworkProbeTrafficSpec) (checks count timeout : ℕ)
    → 0 < checks
    → 0 < count
    → 0 < timeout
    → traffic.count ≡ pos count
    → traffic.timeout_seconds ≡ pos timeout
    → checks * count < 2 ^ 63
    → checks * count * timeout + 60 < 2 ^ 63
    → probe_job_deadline_seconds traffic (pos checks)
      ≡ pos (min 3600 (max 120 (checks * count * timeout + 60)))
unfolding probe_job_deadline_seconds
probe_job_deadline_seconds-eq-clamp traffic checks count timeout n c t ec et h k =
    rw
      (
        ec,
        et,
        default_int32_pos count (pos 1) c,
        default_int32_pos timeout (pos 5) t,
        positive_count checks n,
        wrap_times checks count h,
        wrap_times (checks * count) timeout (omega arith),
        wrap_plus (checks * count * timeout) 60 k,
      )
      (clamp_deadline_pos (checks * count * timeout + 60))
