-- ===== src/Pause/Tests.antt =====
-- Transaction 7 in conflict with the backup again and again.
use backup_lfs.Base.{◌≡◌, refl, ok, arith}
use backup_lfs.Pause.{Pauses, no_pauses, too_often, pause_again}
use backup_lfs.Pause.Turns.{take_turns, turn_after, take_turns-turn_after, no_pauses-IsNotPaused}

take_turns-turn_after_example : (s : Pauses) × (take_turns 6 7 no_pauses ≡ ok (too_often, s))
take_turns-turn_after_example =
    take_turns-turn_after 6 7 no_pauses (no_pauses-IsNotPaused 7 (omega arith))

sixth_pause : turn_after 5 ≡ pause_again
sixth_pause = refl
