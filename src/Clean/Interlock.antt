-- ===== src/Clean/Interlock.antt =====
-- The order in which the scenarios of main/motor.c may move the machine's parts, told from the
-- messages they send and from what their waits have seen.
pub mod Rules
pub mod Waits
pub mod Drives
pub mod Arrivals
pub mod Parts
pub mod Scenarios
pub mod Visits
use cat_litter_box.Common.{Bool, true, false, not, ◌||◌, ◌≡◌, List, [], ◌∷◌, if◌then◌else◌}
use cat_litter_box.Motion.{
  Motor, dc_motor, step_motor, scpinout_motor, main_cover_motor, plate_motor, Position, at_open,
  at_close, Direction, forward, reverse, stop, Action, plate, scpinout, main_cover, waste, scpspin,
  scpspin_ex, led,
}
use cat_litter_box.Clean.World.{Event, sent, looked}

-- Where a part is on its way: driven, and then, once a wait has found it so, at the end of that drive.
pub data Place : Type 0 where
  unknown : Place
  moving ended : Direction → Place

-- The scoop's slide and the main cover. A stop changes neither.
pub record Posture : Type 0 where
  pub scoop : Place
  pub cover : Place

abbrev pub driven : Direction → Place → Place
driven forward place = moving forward
driven reverse place = moving reverse
driven stop place = place

-- The sensor at the end of a drive.
abbrev is_end : Direction → Position → Bool
is_end forward at_open = true
is_end reverse at_close = true
is_end _ _ = false

-- A drive is over when its end's sensor is seen, or the motor is seen not to run any more.
abbrev pub seen : Position → Bool → Place → Place
seen at running (moving dir) = if is_end dir at || not running then ended dir else moving dir
seen at running unknown = unknown
seen at running (ended dir) = ended dir

abbrev pub after : Event → Posture → Posture
after (sent (scpinout cmd angle dir timeout)) p = record p { scoop = driven dir p.scoop }
after (sent (main_cover cmd angle dir timeout)) p = record p { cover = driven dir p.cover }
after (looked (dc_motor scpinout_motor) at running) p = record p { scoop = seen at running p.scoop }
after (looked (dc_motor main_cover_motor) at running) p = record p {
  cover = seen at running p.cover;
}
after _ p = p

abbrev pub posture : List Event → Posture
posture [] = record { scoop = unknown; cover = unknown }
posture (a ∷ events) = after a (posture events)

-- The slide is driven only when the main cover's opening has been seen to end, the waste cover only
-- when the scoop's going out has, and the main cover is closed only when the scoop's coming in has.
abbrev pub IsAllowed : Event → Posture → Type 0
IsAllowed (sent (scpinout cmd angle forward timeout)) p = p.cover ≡ ended forward
IsAllowed (sent (scpinout cmd angle reverse timeout)) p = p.cover ≡ ended forward
IsAllowed (sent (waste cmd angle forward timeout)) p = p.scoop ≡ ended forward
IsAllowed (sent (waste cmd angle reverse timeout)) p = p.scoop ≡ ended forward
IsAllowed (sent (main_cover cmd angle reverse timeout)) p = p.scoop ≡ ended reverse
IsAllowed _ p = Unit

-- Each message, newest first, was allowed when it was sent.
abbrev pub IsInterlocked : List Event → Type 0
IsInterlocked [] = Unit
IsInterlocked (a ∷ events) = IsAllowed a (posture events) × IsInterlocked events
