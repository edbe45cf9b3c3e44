-- ===== src/Server/Tests.antt =====
-- The URL, the pages and the reloads at concrete inputs.
use blackbox_exporter_with_g.Common.{
  ℕ, ◌+◌, String, ◌≡◌, ◌↔◌, refl, true, false, Option, none, some, List, [], ◌∷◌, if◌then◌else◌,
  ◌==◌, string_eq, arith, ◌≤◌, ap, length,
}
use blackbox_exporter_with_g.Common.Results.{err}
use blackbox_exporter_with_g.Common.Text.{Bytes, codes}
use blackbox_exporter_with_g.Config.Reload.{
  Modules, SafeConfig, Disk, no_checksum, new_safe_config, hide_old_flags, reload_config,
}
use blackbox_exporter_with_g.History.{Result, ResultHistory, list}
use blackbox_exporter_with_g.History.Ids.{IsValid}
use blackbox_exporter_with_g.Server.{
  Url, starts_or_ends_with_quote, compute_external_url, route_prefix,
}
use blackbox_exporter_with_g.Server.Startup.{Flags, serving, startup, IsServed, startup-IsServed}
use blackbox_exporter_with_g.Server.Logs.{Query, output, refused, logs}
use blackbox_exporter_with_g.Server.Logs.Lookup.{Shows, logs_iff}
use blackbox_exporter_with_g.Server.Reloader.{
  idle, answering, System, on_take, on_reload, on_answer, take_, reload, answer, Steps, post, serve,
  done, then_,
}
use blackbox_exporter_with_g.Server.Reloader.Answers.{
  total, occurrences, Steps-total, serves, remaining, thrice, IsStuck, IsDrained, Steps-IsDrained,
}

-- All of the URL is its path.
abbrev parse : Bytes → Option (Url ℕ)
parse u = some (record { path = u; rest = 0 })

abbrev sub : Url ℕ
sub = record { path = codes "/sub/path"; rest = 0 }

sub_known : compute_external_url none parse (codes "sub/path//") (codes ":9115") ≡ some sub
unfolding compute_external_url starts_or_ends_with_quote
sub_known = refl

prefix_bounded : route_prefix (codes "//a/b") [] ≡ codes "/a/b/"
unfolding route_prefix
prefix_bounded = refl

abbrev parse_int : String → Option ℕ
parse_int text = if text == "3" then some 3 else none

abbrev shown : Result
shown = record { id = 3; module_name = "m"; target = "t"; debug_output = "log"; success = true }

abbrev history : ResultHistory
history = record {
  next_id = 4;
  results = shown ∷ [];
  preserved_failed_results = [];
  max_results = 9;
}

history-IsValid : IsValid history
unfolding list
history-IsValid = record {
  rising = omega arith;
  below = omega arith;
  failed = tt;
  results_fit = omega arith;
  preserved_fit = omega arith;
}

abbrev by_number : Query
by_number = record { id = "3"; target = ""; module_name = "" }

logs_iff_example :
    (logs parse_int history by_number ≡ output "log") ↔ Shows parse_int history by_number "log"
logs_iff_example = logs_iff parse_int history by_number "log" history-IsValid

-- An id that is not a number is none; without a target it is refused.
not_a_number : logs parse_int history (record by_number { id = "x" }) ≡ refused 400
unfolding logs
not_a_number = refl

abbrev digest : Bytes → String
digest content = "sum"

abbrev decode : Bytes → Option Modules
decode content = none

abbrev disk : Disk
disk = record { read_file = none; opened = none; now = 7 }

abbrev quiet : System
quiet = record { config = new_safe_config; hup = false; waiting = []; work = idle; answered = [] }

abbrev asked : System
asked = record quiet { waiting = 5 ∷ [] }

abbrev taken : System
taken = on_take digest decode asked [] 5 []

abbrev settled : System
settled = on_reload digest decode taken 5 disk

abbrev replied : System
replied = on_answer digest decode settled 5 (err no_checksum)

abbrev made : List ℕ
made = 5 ∷ []

failed : (reload_config digest decode new_safe_config disk).0 ≡ err no_checksum
unfolding reload_config
failed = refl

posted : Steps digest decode true made quiet replied
posted = then_ (post quiet 5) (
    then_ (serve (take_ asked [] 5 [] refl refl)) (
      then_ (serve (reload taken 5 disk refl))
        (then_ (serve (answer settled 5 (err no_checksum) (ap (answering 5) failed))) (done _))))

Steps-total_example : total 5 replied ≡ total 5 quiet + occurrences 5 made
Steps-total_example = Steps-total digest decode true 5 posted

Steps-IsDrained_example :
    (serves digest decode true posted ≤ remaining quiet + thrice (length made))
    × (IsStuck digest decode replied → IsDrained digest decode true quiet made replied)
Steps-IsDrained_example = Steps-IsDrained digest decode true posted

abbrev flags : Flags
flags = record {
  config_check = false;
  external_url = codes "sub/path//";
  web_systemd_socket = false;
  web_listen_addresses = codes ":9115" ∷ [];
  route_prefix = [];
}

-- A file with no modules.
abbrev no_modules : Bytes → Option Modules
no_modules content = some []

abbrev empty_file : Disk
empty_file = record { read_file = some []; opened = some []; now = 7 }

abbrev loaded : SafeConfig
loaded = record {
  c = [];
  config_checksum = "sum";
  config_reload_success = 1;
  config_reload_seconds = 7;
}

starts :
    startup none parse digest no_modules flags empty_file ≡ serving loaded sub (codes "/sub/path/")
unfolding startup reload_config hide_old_flags compute_external_url starts_or_ends_with_quote
    route_prefix
starts = refl

startup-IsServed_example :
    IsServed none parse flags
      (reload_config digest no_modules new_safe_config empty_file)
      loaded
      sub
      (codes "/sub/path/")
startup-IsServed_example =
    startup-IsServed none parse digest no_modules flags empty_file loaded sub (codes "/sub/path/")
      starts
