-- ===== src/Certificates/Listing/Lines.antt =====
-- The days left of a certificate, and what they say beside its status.
use gracon_admin_service.Prelude.{
  ℕ, ◌+◌, ◌-◌, ◌*◌, ◌/◌, ◌≤◌, ◌<◌, ◌≡◌, ◌≢◌, refl, leb, Bool-cases, inl, inr, arith,
}
use native.Mathlib.Nat.{div-mul-le_self, lt-div-mul-add}
use gracon_admin_service.Prelude.Int.{ℤ, pos, negsuc}
use gracon_admin_service.Models.{PersonalCertificate}
use gracon_admin_service.Certificates.{active, expired, derive_certificate_status}
use gracon_admin_service.Certificates.Listing.{ms_per_day, compute_days_to_expiry}

-- The whole days of a - b, rounded down: `negsuc k` is -(k + 1).
abbrev pub WholeDays : ℤ → ℕ → ℕ → Type 0
WholeDays (pos k) a b = (b ≤ a) × (k * ms_per_day ≤ a - b) × (a - b < k * ms_per_day + ms_per_day)
WholeDays (negsuc k) a b =
    (a < b) × (k * ms_per_day < b - a) × (b - a ≤ k * ms_per_day + ms_per_day)

abbrev pub IsNegative : ℤ → Type 0
IsNegative (pos k) = ⊥
IsNegative (negsuc k) = Unit

days_by :
    (not_after now q : ℕ)
    → now ≤ not_after
    → q ≡ (not_after - now) / ms_per_day
    → WholeDays (pos q) not_after now
days_by not_after now q h e =
    let low : (not_after - now) / ms_per_day * ms_per_day ≤ not_after - now =
      div-mul-le_self (not_after - now) ms_per_day in
    let high : not_after - now < (not_after - now) / ms_per_day * ms_per_day + ms_per_day =
      lt-div-mul-add (omega arith) in
    rw e (h, low, high)

days_ago_by :
    (not_after now q : ℕ)
    → not_after < now
    → q ≡ (now - not_after - 1) / ms_per_day
    → WholeDays (negsuc q) not_after now
days_ago_by not_after now q h e =
    let low : (now - not_after - 1) / ms_per_day * ms_per_day ≤ now - not_after - 1 =
      div-mul-le_self (now - not_after - 1) ms_per_day in
    let high : now - not_after - 1 < (now - not_after - 1) / ms_per_day * ms_per_day + ms_per_day =
      lt-div-mul-add (omega arith) in
    rw e (h, omega (arith, low, h), omega (arith, high, h))

-- The count of days is the exact difference rounded down to whole days, negative for a certificate
-- that ended before. A certificate that is shown as ACTIVE never has a negative count, and one that
-- is shown as EXPIRED has a negative count unless it ends at this very instant.
pub compute_days_to_expiry-WholeDays :
    (c : PersonalCertificate) (now : ℕ)
    → WholeDays (compute_days_to_expiry c.not_after now) c.not_after now
      × (derive_certificate_status c now ≡ active
          → ¬ IsNegative (compute_days_to_expiry c.not_after now))
      × (derive_certificate_status c now ≡ expired
          → c.not_after ≢ now
          → IsNegative (compute_days_to_expiry c.not_after now))
unfolding compute_days_to_expiry derive_certificate_status
compute_days_to_expiry-WholeDays c now = elim (Bool-cases (leb now c.not_after)) [
  | inl ahead ↦
      let later : now ≤ c.not_after = ground (arith, ahead) in
      rw ahead (
        days_by c.not_after now ((c.not_after - now) / ms_per_day) later refl,
        (λ shown negative. negative),
        λ shown apart. absurd (ground (arith, shown, apart, later)),
      )
  | inr behind ↦
      let earlier : c.not_after < now = ground (arith, behind) in
      rw behind (
        days_ago_by c.not_after now ((now - c.not_after - 1) / ms_per_day) earlier refl,
        (λ shown negative. ground (arith, shown, earlier)),
        λ shown apart. tt,
      )
]
