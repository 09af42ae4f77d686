-- ===== src/Subprocess/Tests/Bridges.antt =====
-- The bridges of a child's pipes at concrete histories.
use talyn.Base.{refl, none, true, false, [], ◌∷◌, ◌≡◌, ◌++◌}
use talyn.Subprocess.Bridges.{
  early_data_lost, pauses_told-losses, told, read_bridge, write_bridge, data_told, pauses_told,
  connected, ends, pauses, resumes, receives, loses,
}

early_data_lost_example :
    data_told (
      told
        (read_bridge 1)
        false
        ((receives (1 ∷ 2 ∷ []) ∷ []) ++ connected ∷ receives (3 ∷ []) ∷ ends ∷ []))
    ≡ 3 ∷ []
early_data_lost_example =
    early_data_lost 1 (receives (1 ∷ 2 ∷ []) ∷ []) (receives (3 ∷ []) ∷ ends ∷ []) refl

-- Two requests to pause, and then the pipe goes.
pauses_told-losses_example :
    pauses_told (told (write_bridge true true) true (pauses ∷ resumes ∷ pauses ∷ loses none ∷ []))
    ≡ 1
pauses_told-losses_example = pauses_told-losses true (pauses ∷ resumes ∷ pauses ∷ loses none ∷ [])
