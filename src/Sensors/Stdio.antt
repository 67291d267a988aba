-- ===== src/Sensors/Stdio.antt =====
-- fopen and fclose, as the constructors and destructors in src/sensors call them.
pub mod Counted
use hw_agent.Prelude.{Text, Option, none, some}

-- A null pointer is `none`. Every call of fopen has the mode "r".
pub record Stdio (H W : Type 0) : Type 0 where
  pub fopen : Text → W → Option H × W
  pub fclose : H → W → W

module _ {H W : Type 0} (stdio : Stdio H W) where
  -- The closing of a pointer that is not null.
  unfoldable pub close_file : Option H → W → W
  close_file none w = w
  close_file (some file) w = stdio.fclose file w
