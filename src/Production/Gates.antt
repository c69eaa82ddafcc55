-- ===== src/Production/Gates.antt =====
-- When the review gate lets a candidate scene through.
use open_hollywood.Artifacts.{has_blocking_findings, ContinuityReport}
use open_hollywood.Production.State.{ProductionState}
use open_hollywood.Prelude.{
  Bool-cases, inl, inr, ℕ, ◌≤◌, ◌≡◌, true, false, arith, ok, if◌then◌else◌, string_eq, nat_eq,
}
use open_hollywood.Production.Contracts.{
  UnitAcceptanceReason, passed_rubric, revision_limit_reached,
}
use open_hollywood.Production.Review.{review_disposition, accepted_as}

-- A disposition that accepts a candidate has seen no blocking continuity finding and no blocking critique
-- issue; its reason is the exhausted limit exactly when the critique asked for a revision, and then no
-- revision is left. The hypothesis is what the validator of `Critique` ensures of the counts in the
-- state: a critique that does not ask for a revision has no blocking issue.
pub review_disposition-accepts :
    (s : ProductionState) (r : ℕ) (report : ContinuityReport) (reason : UnitAcceptanceReason)
    → (s.critique_requires_revision ≡ false → s.critique_blocking_issue_count ≡ 0)
    → review_disposition s r report ≡ ok (accepted_as reason)
    → (has_blocking_findings report ≡ false)
      × (s.critique_blocking_issue_count ≡ 0)
      × (reason ≡ (if s.critique_requires_revision then revision_limit_reached else passed_rubric))
      × (s.critique_requires_revision ≡ true → s.production.maximum_revision_cycles ≤ r)
unfolding review_disposition
review_disposition-accepts s r report reason sound h =
    elim (Bool-cases s.critique_requires_revision) [
      | inl e ↦ (ground arith, ground arith, ground arith, λ e'. ground arith)
      | inr e ↦
          let none_blocks = sound e in (ground arith, none_blocks, ground arith, λ e'. cc (e, e'))
    ]
