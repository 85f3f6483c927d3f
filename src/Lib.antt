-- ===== src/Lib.antt =====
-- A model of the operations scripts of SeeSize (scripts/*.py), with what makes them correct.
--
-- scripts/agent-setup.py installs, checks and updates the monitoring agent of a Linux host. Its
-- `update` checks what is installed, downloads or reads a release, asks the operator, and switches
-- to the new package with a way back. The modules:
--   Base: equality, lists, dictionaries and texts as Python has them, over the native numbers.
--   Fs: files by path with `pathlib`'s queries; Fs/Laws: what each change does to each path.
--   Json: values as `json.loads` gives them.
--   Script: exceptions, the machine's part, the state, and `try` in its forms; Script/Files: the
--     calls of os, pathlib, shutil, tempfile and subprocess; Script/Rules: statements of what holds
--     before and after an action; Script/Frame: the files that each call leaves alone.
--   Setup: the constants; Setup/Checks: `version`, `device_id`, `download_seconds`, `hub_url`,
--     `manifest`, `validate_binary`; Setup/Fetch: `fetch`, `redirect_request`; Setup/Cache:
--     `prepare_cache`, `release_binary`; Setup/Preflight: `preflight`; Setup/Replace:
--     `atomic_copy`, `validate_rollback`, `update_workspace`; Setup/Update: `update`, cut into
--     `inspect`, `stage`, `save`, `switch` and their parts; Setup/Register: `register`, with its
--     unit in Setup/Register/Unit; Setup/Install: `install`, `check_update`; Setup/Main: `main` and
--     what becomes of its exceptions.
--   Storage: `plan` of scripts/storage-maintenance.py, which picks the registered artifacts that are
--     to be removed; it reads the files and changes none; Storage/Order, Storage/Sorted and
--     Storage/Retention: the order of texts, `sorted`, and which artifacts are picked. Storage/Main:
--     `main`, which removes them.
--   Upgrade: `digest`, `mapping`, `validate_candidate` and `atomic_json` of
--     scripts/upgrade-prepare.py; Upgrade/Prepare: `main`, cut into `check`, `lock`, `make_bundle`
--     and `commit`.
--   Deployment: scripts/deployment-check.py, whose surroundings are a record
--     `Host`; Deployment/Blockers, Deployment/Services and Deployment/Files: what its results say
--     of the answers and the files.
--   Rollout: the functions of scripts/deploy-secret-fix-20260927.py: `health`, `configs`, `observe`,
--     `api_check`, `replace` and `switch`; Rollout/Main: its body, with the roll back.
--   ChartHub: `request` and `probe` of scripts/deploy-chart-hub.py and `probe` of
--     scripts/deploy-disk-hub.py; ChartHub/Main: the `main` that both run, for
--     either release (`Edition`).
--   Enroll: scripts/enroll-local-migration.py. UpgradeLab: scripts/setup-upgrade-lab.py.
--   Rehearsal: scripts/production-baseline-vm.py.
--   Tests: runs at concrete inputs.
--
-- The machine (Script.Machine) is a parameter: for each tick, whether a call fails and with what,
-- what a command answers and does to the files, what the operator types, what a download brings;
-- and the functions of sha256, json, urlsplit, shlex and `\d`. A failure can be an interrupt, and
-- a failed write can leave a part of the bytes, so a theorem over all machines is one over all
-- courses of events at the calls that change a file and at the commands. The hypotheses that speak
-- of it: commands do not write below the installation folder (Undisturbed), write only directly in
-- the bundle's folder, as the backup program does (Confined), leave one file alone (Untouched, for
-- `systemctl` alone Spared, for the files of a program Leaves), change nothing where they are
-- queries (QuietQueries), are not interrupted (Uninterrupted), or succeed (Succeeds); the
-- preparation of an upgrade copies the live Hub into its bundle (Backs); no change of a file fails
-- (Fine); a file is none of the unfinished ones of the backup program (Durable); `shlex.split`
-- takes plain words apart at the spaces (SplitsWords).
--
-- Bounds: the loop of `fetch` over a response has fuel for limit + 2 rounds, which suffices since
-- every round that goes on adds a byte; a path is followed through at most 40 links, as the kernel
-- does. The retries are a recursion on the attempts that are left. The wait for the background
-- services has fuel for 122 rounds, which suffices since a round takes a second and the deadline is
-- 120 seconds away.
--
-- A read fails only where the file is missing or is none; that a device fails in a read, or that an
-- interrupt comes there, is left out, as is a removal of a folder that stops midway. Bytes are read as
-- the code points of a text.
--
-- Not modelled: printing; the command line's parser; the sleep between attempts; links in the inner
-- parts of a path where a script does not look at them, and writes through links; groups and umask;
-- the environment that carries the registration code; scripts/soak-monitor.py;
-- the report's times and observations in scripts/deploy-secret-fix-20260927.py; the other live
-- validation and acceptance scripts; and
-- the Hub, the agent and the tools in Go.
pub mod Base
pub mod ChartHub
pub mod Deployment
pub mod Enroll
pub mod Fs
pub mod Json
pub mod Rehearsal
pub mod Rollout
pub mod Script
pub mod Setup
pub mod Storage
pub mod Tests
pub mod Upgrade
pub mod UpgradeLab
