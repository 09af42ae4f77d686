-- ===== src/Subprocess/Bridges.antt =====
-- `_ReadBridge` and `_WriteBridge` of `subprocess_exec`, talyn/loop.py: the protocols of the pipes that
-- are connected before the child's protocol exists, which hand on to it what the pipes tell them.
use talyn.Base.{
  if◌then◌else◌, ap, Option, List, Bool, refl, none, some, true, false, [], ◌∷◌, ℕ, suc, ◌≡◌, ◌++◌,
}

-- The calls on the child's protocol. Exceptions are numbers.
pub data TargetCall : Type 0 where
  pipe_data_received : ℕ → List ℕ → TargetCall
  pipe_connection_lost : ℕ → Option ℕ → TargetCall
  pause_writing resume_writing : TargetCall

-- The calls of a pipe's transport on its bridge, and `_ProtocolWrapper.connection_made`, which fills
-- `bridge_target`.
pub data BridgeEvent : Type 0 where
  connected ends pauses resumes : BridgeEvent
  receives : List ℕ → BridgeEvent
  loses : Option ℕ → BridgeEvent

-- `_ReadBridge` for the file `fd`, with `bridge_target` filled or not. It has `pause_writing` and
-- `resume_writing` of BaseProtocol, which do nothing.
unfoldable pub read_bridge : ℕ → Bool → BridgeEvent → List TargetCall
read_bridge fd false e = []
read_bridge fd true (receives d) = pipe_data_received fd d ∷ []
read_bridge fd true ends = pipe_connection_lost fd none ∷ []
read_bridge fd true (loses e) = pipe_connection_lost fd e ∷ []
read_bridge fd true _ = []

abbrev when_has : Bool → TargetCall → List TargetCall
when_has b c = if b then c ∷ [] else []

-- `if target is not None and exc is not None`
abbrev surfaced : Option ℕ → List TargetCall
surfaced none = []
surfaced (some e) = pipe_connection_lost 0 (some e) ∷ []

-- `_WriteBridge`, whose `connection_lost` ends with the call of `pause_writing`, and which has no
-- method `pause_writing` of its own: that of BaseProtocol does nothing.
unfoldable pub write_bridge : (has_pause has_resume : Bool) → Bool → BridgeEvent → List TargetCall
write_bridge has_pause has_resume false e = []
write_bridge has_pause has_resume true (loses e) = surfaced e ++ when_has has_pause pause_writing
write_bridge has_pause has_resume true resumes = when_has has_resume resume_writing
write_bridge has_pause has_resume true _ = []

abbrev fill_target : Bool → BridgeEvent → Bool
fill_target b connected = true
fill_target b _ = b

-- What the child's protocol is told in a history of one bridge.
unfoldable pub told :
    (Bool → BridgeEvent → List TargetCall) → Bool → List BridgeEvent → List TargetCall
told bridge b [] = []
told bridge b (e ∷ es) = bridge b e ++ told bridge (fill_target b e) es

-- The bytes in the calls, and in the events.
abbrev pub data_told : List TargetCall → List ℕ
data_told [] = []
data_told (pipe_data_received _ d ∷ cs) = d ++ data_told cs
data_told (_ ∷ cs) = data_told cs

abbrev pub data_read : List BridgeEvent → List ℕ
data_read [] = []
data_read (receives d ∷ es) = d ++ data_read es
data_read (_ ∷ es) = data_read es

-- A history in which the target is not filled.
abbrev pub is_early : List BridgeEvent → Bool
is_early [] = true
is_early (connected ∷ es) = false
is_early (_ ∷ es) = is_early es

data_told-read_bridge :
    (fd : ℕ) (es : List BridgeEvent) → data_told (told (read_bridge fd) true es) ≡ data_read es
unfolding told read_bridge
data_told-read_bridge fd [] = refl
data_told-read_bridge fd (connected ∷ es) = data_told-read_bridge fd es
data_told-read_bridge fd (ends ∷ es) = data_told-read_bridge fd es
data_told-read_bridge fd (pauses ∷ es) = data_told-read_bridge fd es
data_told-read_bridge fd (resumes ∷ es) = data_told-read_bridge fd es
data_told-read_bridge fd (receives d ∷ es) = ap (λ x. d ++ x) (data_told-read_bridge fd es)
data_told-read_bridge fd (loses e ∷ es) = data_told-read_bridge fd es

-- Of what a pipe of the child is read, the child's protocol is given exactly what comes after it is
-- connected, in order: all that is read earlier, while the pipes are being connected, is dropped.
pub early_data_lost :
    (fd : ℕ) (before after : List BridgeEvent)
    → is_early before ≡ true
    → data_told (told (read_bridge fd) false (before ++ connected ∷ after)) ≡ data_read after
unfolding told read_bridge
early_data_lost fd [] after h = data_told-read_bridge fd after
early_data_lost fd (connected ∷ before) after h = cc
early_data_lost fd (ends ∷ before) after h = early_data_lost fd before after h
early_data_lost fd (pauses ∷ before) after h = early_data_lost fd before after h
early_data_lost fd (resumes ∷ before) after h = early_data_lost fd before after h
early_data_lost fd (receives d ∷ before) after h = early_data_lost fd before after h
early_data_lost fd (loses e ∷ before) after h = early_data_lost fd before after h

-- How often the protocol was told to pause, and how often the pipe was lost.
abbrev pub pauses_told : List TargetCall → ℕ
pauses_told [] = 0
pauses_told (pause_writing ∷ cs) = suc (pauses_told cs)
pauses_told (_ ∷ cs) = pauses_told cs

abbrev pub losses : List BridgeEvent → ℕ
losses [] = 0
losses (loses _ ∷ es) = suc (losses es)
losses (_ ∷ es) = losses es

-- For a protocol that has `pause_writing` and is connected: it is told to pause once for each loss of
-- the pipe to the child, with or without an error, and never because the pipe's transport asks its
-- bridge to pause.
pub pauses_told-losses :
    (has_resume : Bool) (es : List BridgeEvent)
    → pauses_told (told (write_bridge true has_resume) true es) ≡ losses es
unfolding told write_bridge
pauses_told-losses r [] = refl
pauses_told-losses r (connected ∷ es) = pauses_told-losses r es
pauses_told-losses r (ends ∷ es) = pauses_told-losses r es
pauses_told-losses r (pauses ∷ es) = pauses_told-losses r es
pauses_told-losses true (resumes ∷ es) = pauses_told-losses true es
pauses_told-losses false (resumes ∷ es) = pauses_told-losses false es
pauses_told-losses r (receives d ∷ es) = pauses_told-losses r es
pauses_told-losses r (loses none ∷ es) = ap suc (pauses_told-losses r es)
pauses_told-losses r (loses (some e) ∷ es) = ap suc (pauses_told-losses r es)
