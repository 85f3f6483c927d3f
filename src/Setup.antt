-- ===== src/Setup.antt =====
-- scripts/agent-setup.py: the constants.
pub mod Checks
pub mod Fetch
pub mod Cache
pub mod Replace
pub mod Preflight
pub mod Update
pub mod Register
pub mod Install
pub mod Main
use see_size.Base.{ℕ, ◌*◌, String, List, [], ◌∷◌}
use see_size.Fs.{FilePath, ◌//◌}

abbrev pub root : FilePath
root = [] // "opt" // "seesize-agent"

abbrev pub data_folder : FilePath
data_folder = [] // "var" // "lib" // "seesize-agent"

abbrev pub unit_name : String
unit_name = "seesize-agent.service"

abbrev pub unit : FilePath
unit = [] // "etc" // "systemd" // "system" // unit_name

abbrev pub account : String
account = "seesize-agent"

abbrev pub repo : String
repo = "https://github.com/wxlys/See-size/releases/download/"

abbrev pub agent_program : String
agent_program = "seesize-agent-linux-amd64"

abbrev pub enroll_program : String
enroll_program = "seesize-enroll-linux-amd64"

abbrev pub components : List String
components = agent_program ∷ enroll_program ∷ []

abbrev pub max_binary : ℕ
max_binary = 64 * 1024 * 1024

abbrev pub download_attempts : ℕ
download_attempts = 3

abbrev pub cache : FilePath
cache = [] // "var" // "cache" // "seesize-agent-downloads"

abbrev pub cache_days : ℕ
cache_days = 7

-- `names` of `update`: the files of the package.
abbrev pub package_files : List String
package_files = agent_program ∷ enroll_program ∷ "agent-release.json" ∷ "agent-setup.py" ∷ []
