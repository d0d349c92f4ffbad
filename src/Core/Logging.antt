-- ===== src/Core/Logging.antt =====
-- packages/core/src/novon/core/logging.py: a placeholder, which leaves the world as it is.
use platform_backend.Prelude.{String}

abbrev pub setup_logging : {W : Type 0} → (level : String) → W → W
setup_logging level w = w
