-- ===== src/AppUpdate/Examples.antt =====
-- An update of the app from release 1 to release 2, and one that was interrupted.
use epilykos_os.Base.{String, ◌≡◌, refl, ◌≤◌, true, none, some, codes, arith}
use epilykos_os.Json.{
  Json, null, str, array, object, Elements, empty, element, Members, end, member,
}
use epilykos_os.AppCompat.{label, protocol}
use epilykos_os.AppUpdate.{
  Candidate, AppRelease, Chosen, promoted, baseline, AppJob, downloading, Store, Outside, written,
  UpdateResult, installed, floor, current_of, run_job, recover,
}
use epilykos_os.AppUpdate.Returns.{AtReturn}
use epilykos_os.AppUpdate.Floor.{run_job-floor}
use epilykos_os.AppUpdate.Endings.{Ended, run_job-Ended}
use epilykos_os.AppUpdate.Lease.{IsReleased, run_job-IsReleased}

abbrev image_id : String
image_id = "0123456789abcdef0123456789abcdef0123456789abcdef0123456789abcdef"

abbrev text : String → Json
text s = str (codes s)

-- What podman says of the new image.
abbrev image : Json
image = object (
    member (codes "Os") (text "linux") (
      member (codes "Architecture") (text "arm64") (
        member (codes "Config")
          (object (member (codes "Labels") (object (member (codes label) (text protocol) end)) end))
          (member (codes "Id") (text image_id) end))))

abbrev base : AppRelease
base = record { release = codes "1.0"; sequence = 1; digest = codes "d1"; image_id = codes "i1" }

abbrev outside : Outside
outside = record {
  base = base;
  verifier = record {
    has_key = true;
    accepts = λ _ _. true;
    loads = λ _. some (array (element image empty));
    channel = codes "stable";
  };
  writes = λ _. written;
  pull = λ _ _. some 0;
  inspect_image = λ _ _. some (0, codes "[]");
  inspect_app = λ _. some (0, codes "[]");
  restart = λ _. some 0;
  remove_image = λ _ _. some 0;
  fetch = λ _. none;
  acquire = λ _. true;
  start_thread = λ _. true;
}

abbrev candidate : Candidate
candidate = record {
  release = codes "2.0";
  channel = codes "stable";
  sequence = 2;
  digest = codes "d2";
  source = codes "epilykos/app";
}

abbrev job : AppJob
job = record { state = downloading; release = codes "2.0"; sequence = 2; digest = codes "d2" }

abbrev store : Store
store = record {
  power = 40;
  current = none;
  previous = none;
  stored_floor = some 1;
  active = none;
  job = some job;
  result = none;
  verified = none;
  attempt = none;
  running = true;
  held = true;
}

-- The run ends with release 2 installed.
is_installed : (run_job outside candidate job store).1.result ≡ some (installed (codes "2.0") 2)
unfolding run_job epilykos_os.AppCompat.inspection epilykos_os.AppCompat.candidate_image
    epilykos_os.Json.field epilykos_os.AppUpdate.write epilykos_os.AppUpdate.set_active
    epilykos_os.AppUpdate.chosen
is_installed = refl

run_job-floor_example : floor outside store ≤ floor outside (run_job outside candidate job store).1
unfolding floor
run_job-floor_example = run_job-floor outside candidate job store (ground arith)

run_job-IsReleased_example : IsReleased (run_job outside candidate job store)
run_job-IsReleased_example = run_job-IsReleased outside candidate job store

run_job-Ended_example :
    AtReturn
      (Ended outside candidate (current_of outside store))
      (run_job outside candidate job store)
run_job-Ended_example = run_job-Ended outside candidate job store
