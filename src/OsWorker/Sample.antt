-- ===== src/OsWorker/Sample.antt =====
-- What the worker finds at the bench: RAUC idle, the lease free, and a bundle that is there.
use epilykos_os.Base.{
  ℕ, zero, suc, List, ◌≤◌, arith, ◌+◌, ◌*◌, true, false, some, none, [], ◌∷◌, codes, ok,
}
use epilykos_os.OsBox.{queued, Job, holds, active, on_guard, Box, Host, IsFaithful}
use epilykos_os.OsJobs.Install.{Shop}
use epilykos_os.OsRauc.{Bus}
use epilykos_os.OsBundle.Sample.{reader, package_file}
use epilykos_os.OsTrust.Sample.{entry, policy_of}
use epilykos_os.OsWorker.Fetching.{Crew, Delivery}
use epilykos_os.Samples.Bench.{bench, bench-IsFaithful, card, restarting_job}

abbrev pub bus : Bus
bus = record {
  name_owner = λ t. some (0, codes "s \":1.7\"");
  operation = λ t. some (0, codes "s \"idle\"");
  invocation = λ t. some (0, codes "abc");
  last_error = λ t. some (0, codes "s \"\"");
  start_rauc = λ t. some (0, []);
  restart_rauc = λ t. some (0, []);
  clock = λ k. 100 + 5 * k;
}

abbrev pub shop : Shop
shop = record {
  checked = λ t. none;
  health = λ t. none;
  verify_policy = λ files plat state. ok 1;
  new_id = λ t. 42;
}

-- The bench, with the sample entry as the release that is signed.
abbrev pub shelf : Host
shelf = record bench {
  verify_os_release =
      λ d p policy. ok (record { sequence = 9; bundle_size = 100; bundle_sha256 = 5 });
}

pub shelf-IsFaithful : IsFaithful shelf
shelf-IsFaithful = record {
  printed = bench-IsFaithful.printed;
  atomic = bench-IsFaithful.atomic;
  bad_record = bench-IsFaithful.bad_record;
  bad_left = bench-IsFaithful.bad_left;
  active_record = bench-IsFaithful.active_record;
  good_record = bench-IsFaithful.good_record;
}

abbrev repeated : ℕ → ℕ → List ℕ
repeated zero c = []
repeated (suc n) c = c ∷ repeated n c

abbrev hundred_bytes : List ℕ
hundred_bytes = repeated 100 7

-- The file is there already, with as many bytes as the entry names.
abbrev pub delivered : Delivery
delivered = record {
  server = λ n request. none;
  staged = record {
    part = [];
    final = some hundred_bytes;
    validator = none;
    saved_validator = none;
    requests = 0;
  };
  move_fails = false;
  sync_fails = false;
  saves = 0;
  tools = reader "3";
  read_bundle = λ bytes. package_file;
  keyring_unwritten = false;
  keyring_unremoved = false;
  number_of = λ t. 6;
}

abbrev pub crew : Crew
crew = record {
  attempts = 5;
  cancel_readable = λ t. true;
  lease = λ t. ok none;
  is_newer = λ files state. false;
  admit_policy = λ t files plat state. ok state;
  delivery = λ t. delivered;
  entry_json = λ e. entry;
  policy_json = λ p. policy_of 2;
  rauc = λ t. some (true ∷ false ∷ true ∷ []);
  exit_code = λ t. 0;
  last_line = λ t. none;
  rauc_writes = λ t e. e;
  recorded = λ id. record { bus_owner = none; invocation = none };
  started = 100;
}

abbrev pub queued_job : Job
queued_job = record restarting_job { state = queued; sequence = 9; image = none }

abbrev pub queued_card : Box
queued_card = record card { journal = holds queued_job; guard = on_guard active (some 41) }

five_later : (k : ℕ) → bus.clock k + 5 ≤ bus.clock (suc k)
five_later k = omega arith

pub bus-IsTimed : (crew.started ≤ bus.clock 0) × ((k : ℕ) → bus.clock k + 5 ≤ bus.clock (suc k))
bus-IsTimed = (omega arith, five_later)
