-- ===== src/Context/Library.antt =====
-- The functions of src/core/cauchy.c on the library as a whole: a flag, which no other function
-- reads, and the version.
use Prim.Native.String.{String}
use cauchy.Prelude.{ℕ, Bool, true, false, Option, none, some}
use cauchy.Types.{Result, ok}
use cauchy.Platform.{version_major, version_minor, version_patch}

-- `cauchy_init`, with the flag `cauchy_initialized` before and after
unfoldable pub init : Bool → Result × Bool
init false = (ok, true)
init true = (ok, true)

-- `cauchy_shutdown`
unfoldable pub shutdown : Bool → Bool
shutdown initialized = false

unfoldable pub version : String
version = "0.1.0"

-- `cauchy_version_info`, where each pointer may be NULL
unfoldable pub version_info : Option ℕ → Option ℕ → Option ℕ → Option ℕ × Option ℕ × Option ℕ
version_info major minor patch =
    (put version_major major, put version_minor minor, put version_patch patch)
  where
    put : ℕ → Option ℕ → Option ℕ
    put value none = none
    put value (some old) = some value
