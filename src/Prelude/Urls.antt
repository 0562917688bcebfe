-- ===== src/Prelude/Urls.antt =====
-- The parts of a parsed URL that the host keys are built from. Parsing is that of Go's package
-- net/url, a parameter of the definitions that use it.
use Prim.Native.String.{String, ◌++◌}
use mathlib.Core.Bool.{◌||◌}
use webapp_sec_tools.Prelude.Tests.{if◌then◌else◌}
use webapp_sec_tools.Prelude.Strings.{contains}

pub record Url : Type 0 where
  pub scheme : String
  pub host : String
  pub port : String

-- net.JoinHostPort(host, port)
unfoldable pub join_host_port : String → String → String
join_host_port host port =
    if contains host ":" || contains host "%"
    then "[" ++ (host ++ ("]:" ++ port))
    else host ++ (":" ++ port)
