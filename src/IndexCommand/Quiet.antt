-- ===== src/IndexCommand/Quiet.antt =====
-- What `quiet` does.
use sta_generation_service.IndexCommand.{End, command_error}

-- What ends without a CommandError.
abbrev Calm : End → Type 0
Calm (command_error message) = ⊥
Calm _ = Unit {0}
