-- ===== src/Lib.antt =====
-- EpilykosOS, the Raspberry Pi appliance image: its A/B system updates, checked.
--
-- An appliance has two root slots. RAUC installs a signed bundle in the slot that does not run and
-- leaves that slot without boot attempts; Restart makes it bootable as a trial; a healthy trial is
-- confirmed, an unhealthy one falls back. What is durable is the job in journal.json, the guard in
-- guard.json and a redundant U-Boot environment, and the power may fail between any two writes. Below,
-- P stands for os/board/epilykos/raspberrypi3/rootfs-overlay/usr/lib/epilykos/python.
--
-- The files:
--   Base          the library names and the Boolean tests that the modules share.
--   Storage       P/epilykos_storage.py: when DATA has room for a download or an install.
--   OsBox         the durable state and the calls that change it (`_write_atomic`, `save`,
--                 `set_guard`, `finish`, `set_env`, `target_bad`, ...), as actions that return, raise
--                 or are cut. OsBox/Outside has what is not in this repository or is other code: the
--                 tools, the disk and the trust checks, as the fields of a Host, and the documented
--                 behaviour of the tools, as IsFaithful. OsBox/Triples, Rules and EnvRules are the
--                 rules for reasoning about actions.
--   OsUpdate      P/epilykos_os_update.py: `blocking`, `refuse_reboot`, `verify_target`,
--                 `fail_install`, `complete_install`, `reconcile`.
--   OsActivate    P/epilykos_os_activate.py: `restart`, `discard`, `revalidate`, `back_to_ready`,
--                 `activate`.
--   OsConfirm     the same file: `confirm_candidate`, `promote_app`, `rebuild`, `confirm_main`.
--   OsBoot        the same file: `reconcile_boot`, run at every start.
--   OsJobs        P/epilykos_os_update.py: `check`, `view`, `install`, `cancel` and `dismiss`, the actions
--                 of hostd on the job, over the same Box.
--   OsDownload    P/epilykos_os_update.py: `download` and `_transfer`, over what is staged; the server, the
--                 clock and the disk are a Response for each request.
--   OsBundle      P/epilykos_os_update.py: `verify_bundle`, with the checks of OsTrust/Bundle.
--   OsRauc        P/epilykos_os_update.py: `rauc_operation`, `rauc_identity`, `restart_rauc` and
--                 `reconcile_install`; its wait is given 2881 rounds, one for every five seconds of its
--                 deadline and one more, which are enough with a clock that goes on so far in a round.
--   OsWorker      P/epilykos_os_update.py: `run_worker`, `work` and `install_bundle`, which join OsDownload,
--                 OsBundle, OsRauc and OsUpdate; what the worker finds outside is a Crew, one download a
--                 Delivery. Its wait for the lease is bounded by `power`, of which every try takes one.
--   Appliance     the histories of a card: the operations above in any order, with power cuts.
--   Publishing    `decide` of tools/os_release.py and of tools/image_release_policy.py: which builds
--                 may be published; Publishing/Sequence: the sequence of the next OS release.
--   BootHealth    P/epilykos_boot_health.py: the supervisor of a boot, stepped every two seconds; `step`
--                 and what it calls in BootHealth/Ticks, its attributes in BootHealth/Record.
--   OsTrust       P/epilykos_os_trust.py: strict JSON, the root-signed policy, the signed releases and
--                 bundles, the trust state in the environment, and RAUC's keyring.
--   AppUpdate     P/epilykos_update.py: `validate`, `verify`, `check`, `apply`, `_run` and `recover`, over
--                 the updater's files (Store), with the same counting of writes and calls.
--   AppCompat     P/epilykos_app_compat.py: whether an app cooperates with maintenance and OS updates.
--   OsOffer       P/epilykos_os_update.py: `health_blockers`, `app_blockers`, `required_bytes` and
--                 `verify_release`.
--   Versions      tools/os_version.py: the version of a build, by the repository's tags.
--   Port          P/epilykos_port.py: the dashboard's port and the file that keeps it.
--   WifiCountry   P/epilykos_wifi.py: the regulatory country of the radio.
--   WifiNetwork   P/epilykos_wifi.py: the networks as iwd's files, and the reader of wifi.txt.
--   Json          what json.loads makes of a document, for the modules that check one.
--   Samples       a host, a card, the theorems at concrete inputs, and test runs.
--
-- How the state corresponds: a Box holds the environment, the journal, the guard, the staging files,
-- the app's promotion record and `power`, the number of writes and outside calls that are left before
-- the power fails. Every write and every outside call spends one, so an action may be cut before any
-- of them. A write may be refused, or be made and reported as failed (the directory was not synced).
-- A tool may fail to answer whether or not it did its work, and what a call does may depend on when
-- it is called. Python's exceptions are the outcome `raised`; `try_except` and `try_else` are its
-- `try` statements. Loops are structural, the one over a response's
-- body by the list of its rounds and the one of `download` by the attempts that are left; the fuel is
-- the rounds of OsRauc and `power`, which is part of the model and is not bounded by any theorem.
--
-- A supervisor's times are microseconds; what it asks of the outside at a tick is a World, and a run is
-- over the list of ticks that it is given. A document is a Json, with an object's pairs in order;
-- json.loads, base64, openssl and podman are parameters, so that a theorem holds whatever they answer.
--
-- The numbers are natural numbers, since Python's integers are unbounded and none here is negative.
-- Identifiers, digests and channels are only compared, so they are numbers. The environment is read
-- as its fields, because the guarded environment holds canonical decimals only. Not modelled are time
-- stamps, log lines, the `version` and the percentage that are only displayed, and the HTTP service. Nor
-- are the helpers for SSH, Bluetooth, the network's state and the reset, which edit files or call other
-- programs; and the tools that build and check images. A call of a tool that is killed by its timeout counts as one that did
-- not answer.
pub mod AppCompat
pub mod AppUpdate
pub mod Appliance
pub mod Base
pub mod BootHealth
pub mod Json
pub mod OsActivate
pub mod OsBoot
pub mod OsBox
pub mod OsBundle
pub mod OsConfirm
pub mod OsDownload
pub mod OsJobs
pub mod OsOffer
pub mod OsRauc
pub mod OsTrust
pub mod OsUpdate
pub mod OsWorker
pub mod Port
pub mod Publishing
mod Samples
pub mod Storage
pub mod Versions
pub mod WifiCountry
pub mod WifiNetwork
