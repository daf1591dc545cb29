-- ===== src/Version.antt =====
-- internal/version/version.go: the build identity, and how cmd/worker prints it. The values that the
-- linker sets are a record, and what debug.ReadBuildInfo finds is an argument.
pub mod Report
use Prim.Native.String.{◌++◌ as ◌<>◌}
use apipact_agent.Prelude.{◌-◌, ◌<◌, String, ◌&&◌, not, Option, none, some, ◌=ₛ◌, if◌then◌else◌}

-- Version, Commit and Date
pub record Build : Type 0 where
  pub version : String
  pub commit : String
  pub date : String

-- The version that String prints, from the main module's version in the build information, if any.
unfoldable pub shown_version : Build → Option String → String
shown_version b info =
    if b.version =ₛ "dev"
    then elim info [
      | none ↦ b.version
      | some v ↦ if not (v =ₛ "") && not (v =ₛ "(devel)") then v else b.version
    ]
    else b.version

-- String
unfoldable pub version_string : Build → Option String → String
unfolding shown_version
version_string b info = shown_version b info <> (" (" <> (b.commit <> (", " <> (b.date <> ")"))))

-- cmd/worker's fmt.Println("apipact-worker", version.String())
unfoldable pub version_line : Build → Option String → String
unfolding version_string
version_line b info = "apipact-worker" <> (" " <> (version_string b info <> "\n"))
