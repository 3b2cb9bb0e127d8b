-- ===== src/Tests/Gates.antt =====
-- The gates at concrete flags, prompts and channels.
use better_unraid_mcp.Base.{◌≡◌, refl, inr, u, true, none, some}
use better_unraid_mcp.Gate.{
  accepted, ElicitationChannel, RiskGateFlags, require_confirmation_interactive,
  require_risk_acknowledgement_interactive,
}
use better_unraid_mcp.Gate.Laws.{confirmation_iff, risk_iff}

abbrev willing : ElicitationChannel
willing = record { is_available = true; confirm = λ message require_risk. accepted }

abbrev half_flags : RiskGateFlags
half_flags = record { confirm = some true; acknowledge_risk = none }

risk_iff_example :
    require_risk_acknowledgement_interactive half_flags (u "Refusing to reboot.") (some willing)
    ≡ none
risk_iff_example =
    (risk_iff half_flags (u "Refusing to reboot.") (some willing)).1 (inr (refl, refl))

confirmation_iff_example :
    require_confirmation_interactive none (u "start the array") (some willing) ≡ none
confirmation_iff_example =
    (confirmation_iff none (u "start the array") (some willing)).1 (inr (refl, refl))
