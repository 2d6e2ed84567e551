-- ===== src/Decisions/Posture.antt =====
-- The graded postures of packages/pctr/src/decisions.mjs.
use ttp_protocol.Common.{◌≡◌, ◌⊎◌, ◌↔◌, true, arith}
use ttp_protocol.Decisions.{
  Response, Classification, accepted, accepted_with_controls, proceeds, within_posture, posture_for,
}

-- A response that lets the execution proceed lies within the posture of a classification only if
-- that classification is TRUST_ACCEPTED or TRUST_ACCEPTED_WITH_CONTROLS.
pub within_posture-proceeds :
    (r : Response) (c : Classification)
    → within_posture r c ≡ true
    → proceeds r ≡ true
    → (c ≡ accepted) ⊎ (c ≡ accepted_with_controls)
unfolding within_posture proceeds
within_posture-proceeds r c h k = ground arith

-- `proceeds` of a posture holds exactly for TRUST_ACCEPTED and TRUST_ACCEPTED_WITH_CONTROLS.
pub posture_for-proceeds_iff :
    (c : Classification)
    → ((posture_for c).may_proceed ≡ true) ↔ ((c ≡ accepted) ⊎ (c ≡ accepted_with_controls))
unfolding posture_for
posture_for-proceeds_iff c = ground arith
