-- ===== src/Updater/Install/Tests.antt =====
-- Apply on a machine with 1.0.0, for a release 1.1.0.
use idunn.Prelude.{
  length, ◌+◌, ◌*◌, ◌≡◌, refl, ℕ, true, false, Option, none, some, [], ◌∷◌, codes, same, ok, last?,
}
use idunn.Prelude.Integers.{pos, is_int, exceeds}
use idunn.Timefloor
use idunn.Timefloor.{Floor}
use idunn.Txn.Journal.{Record}
use idunn.Txn.Log.{open_journal}
use idunn.Txn.Recover.{recover, clean_orphans}
use idunn.Txn.Invariant.{Sound}
use idunn.Layout.Disk.{Disk, names, whole, set_scratch}
use idunn.Layout.Effects.{
  World, refused, done, lift, pure, look, look_or, quiet, io, effect, on_error, write_file_atomic,
  ◌>>=◌,
}
use idunn.Layout.Effects.Region.{Over}
use idunn.Layout.Pointer.{pointer_target, read_pointer, validate_version}
use idunn.Release.Version.{newer, compare_versions, valid_version}
use idunn.Release.Descriptor.{Descriptor}
use idunn.Probation.Record.{absent, validate}
use idunn.Probation.Reason.{sanitize_reason, is_space}
use idunn.Probation.Files.{Files, read_probation, write_probation, store}
use idunn.Probation.Allowance.{HostPolicy, probation_for, capped}
use idunn.Probation.Arming.{
  arm_probation, arm, count, falls_back, refuse_unfinished, next_probation, blocked_reason,
}
use idunn.Updater.Policy.{Client, applicable, check_client, check_jump, check_floor}
use idunn.Updater.Apply.{quiet_now}
use idunn.Updater.Tests.{at_old-Sound, hooks, old_version, new_version, history, waiting}
use idunn.Updater.Install.{Updater, Answers, ready, ask, pre_flight, install}
use idunn.Updater.Install.Loop.{IsReady, ready-IsReady, install-Sound}

abbrev linux_client : Client
linux_client = record {
  channel = codes "stable";
  goos = codes "linux";
  goarch = codes "amd64";
  client_version = [];
  allow_downgrade = false;
}

abbrev new_release : Descriptor
new_release = record {
  schema_version = pos 1;
  files = [];
  rollout = record { negative = false; whole = 0; scale = 0 };
  layout_schema = pos 1;
  name = codes "app";
  version = new_version;
  channel = codes "stable";
  os = codes "linux";
  arch = codes "amd64";
  requirements = record { min_client_version = []; min_from_version = old_version };
}

abbrev two_starts : HostPolicy
two_starts = record {
  attempts = pos 2;
  restarts = pos 3;
  follow_release = false;
  max_attempts = pos 0;
}

abbrev updater : Updater ℕ
updater = record {
  client = linux_client;
  floor = record { clock = none; build_time = 3000000000 };
  known = none;
  hooks = hooks;
  host_policy = two_starts;
  resolver = none;
  verify_after_apply = true;
  retain = 2;
}

abbrev answers : Answers
answers = record {
  now = 5000000000;
  check_passes = true;
  confirmed = true;
  launcher = [];
  fetched = [];
  quiesced = quiet_now;
  listing = old_version ∷ new_version ∷ [];
  pinned = [];
}

abbrev machine : Option Record → Disk (Files ℕ)
machine r = record {
  current = names old_version;
  dirs = λ v. whole;
  journal = elim r [ none ↦ none | some x ↦ some (history x) ];
  journal_len = 700;
  encoded_len = λ rs. 64 + 200 * length rs;
  install = none;
  staged = λ v. false;
  pending = λ v. none;
  next_launcher = none;
  scratch = λ p. false;
  host = record { probation = absent; outcomes = []; app = 7 };
}

install-Sound_example :
    Over Sound
      (install updater 5000000000
        (λ d. answers)
        new_release
        old_version
        (record { disk = machine (some waiting); outcomes = done ∷ done ∷ refused ∷ [] })).1.disk
install-Sound_example =
    install-Sound updater 5000000000 (λ d. answers) new_release old_version
      (record { disk = machine (some waiting); outcomes = done ∷ done ∷ refused ∷ [] })
      (at_old-Sound waiting refl)

abbrev calm : World (Files ℕ)
calm = record { disk = machine none; outcomes = [] }

calm-Sound : Over Sound calm.disk
calm-Sound = record {
  live_whole = λ v h. refl;
  base_whole = λ r h. cc;
  waiting_whole = λ r h. cc;
  placed = λ r h. cc;
}

begins : (pre_flight updater answers new_release old_version calm).0 ≡ ok (ready old_version [])
unfolding pre_flight ask ◌>>=◌ lift pure look look_or quiet io effect on_error write_file_atomic
    set_scratch Timefloor.check recover last? open_journal clean_orphans pointer_target read_pointer
    validate_version valid_version same applicable check_client check_jump check_floor newer
    compare_versions blocked_reason read_probation write_probation store validate arm_probation arm
    count falls_back refuse_unfinished next_probation probation_for capped is_int exceeds
    sanitize_reason is_space Timefloor.known_good Timefloor.read
begins = refl

ready-IsReady_example :
    IsReady updater answers new_release old_version old_version
      (pre_flight updater answers new_release old_version calm).1.disk
ready-IsReady_example =
    ready-IsReady updater answers new_release old_version calm old_version [] calm-Sound begins
