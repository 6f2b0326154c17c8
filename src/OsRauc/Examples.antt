-- ===== src/OsRauc/Examples.antt =====
-- RAUC's writer is found idle after the worker was away; and what busctl prints is read.
use epilykos_os.Base.{ℕ, suc, ◌+◌, ◌*◌, ◌≡◌, ◌≤◌, refl, some, none, [], ◌∷◌, ◌++◌, codes, arith}
use epilykos_os.OsBox.{installing, Job, holds, active, on_guard, Box}
use epilykos_os.OsRauc.{Bus, Writer, busctl_string}
use epilykos_os.Samples.Bench.{card, restarting_job}

abbrev writing_job : Job
writing_job = record restarting_job { state = installing }

abbrev writing_card : Box
writing_card = record card { journal = holds writing_job; guard = on_guard active (some 41) }

abbrev bus : Bus
bus = record {
  name_owner = λ t. some (0, codes "s \":1.7\"");
  operation = λ t. some (0, codes "s \"idle\"");
  invocation = λ t. some (0, codes "abc");
  last_error = λ t. some (0, codes "s \"\"");
  start_rauc = λ t. some (0, []);
  restart_rauc = λ t. some (0, []);
  clock = λ k. 100 + 5 * k;
}

abbrev writer : Writer
writer = record { bus_owner = some (codes ":1.7"); invocation = some (codes "abc") }

string_read : busctl_string (codes " s  \":1.7\"" ++ (10 ∷ [])) ≡ some (codes ":1.7")
unfolding busctl_string
string_read = refl

string_refused : busctl_string (codes "s \"a\"b\"") ≡ none
unfolding busctl_string
string_refused = refl

five_later : (k : ℕ) → bus.clock k + 5 ≤ bus.clock (suc k)
five_later k = omega arith
