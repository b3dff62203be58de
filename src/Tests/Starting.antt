-- ===== src/Tests/Starting.antt =====
-- The start of the process with the settings and the lists of the other tests.
use resolvit.Prelude.{◌≡◌, ◌↔◌, refl, false, true, false, none, some, [], ◌∷◌, ◌++◌, Option}
use resolvit.Go.Text.{Text, codes, is_empty, text_eq}
use resolvit.Config.Load.{load_config}
use resolvit.Filtering.Loader.{Response}
use resolvit.Logger
use resolvit.Records
use resolvit.Logger.Destinations.{IsAskedFor, setup_iff}
use resolvit.Logger.{sanitize_log_path}
use resolvit.Go.Path.{clean}
use resolvit.Go.Text.{has_prefix}
use resolvit.Logger.{Logger, setup}
use resolvit.Process.{load_records}
use resolvit.Process.Start.{Machine, Running, serving, made_from, start_filter, start_up}
use resolvit.Process.Start.Ready.{IsReady, start_up-IsReady}
use resolvit.Process.Start.Blocking.{lists_decide, start_up_blocks}
use resolvit.Server.Wiring.{Surroundings, env_of}
use resolvit.Filtering.Filter.{should_block}
use resolvit.Dns.{Msg, rcode_name_error, sample-IsDocumented}
use resolvit.Go.Outcome.{done}
use resolvit.Handler.{World, handle_dns_request}
use resolvit.Tests.Requests.{ask, first_question, env, start}
use resolvit.Config.Load.{parse_list_configs, parse_entries, parse_duration, ignored}
use resolvit.Config.{validate_config, validate_log_level, validate_address, parse_upstream}
use resolvit.Logger.{get_log_level}
use resolvit.Go.Text.{to_lower, contains}
use resolvit.Go.Ip.{parse_ip}
use resolvit.Go.HostPort.{split_host_port}
use resolvit.Go.Dict.{insert}
use resolvit.Tests.Settings.{any_port, no_file, hours, section, viper, read_config}
use resolvit.Tests.Loading.{host, Disk}
use resolvit.Filtering.Sources.{ListConfig}
use resolvit.Go.Dict.{Dict}
use resolvit.Config.Load.{Value}

abbrev pub machine : Machine (Dict (Value ListConfig)) ListConfig Disk Text
machine = record {
  getenv = λ name. [];
  library = viper section;
  time_parse = hours;
  lookup_port = any_port;
  stat = no_file;
  opens_log = λ path. false;
  files = λ path. none;
  opens_blocked_log = λ path. false;
  host = host;
  disk = [];
}

abbrev around : Surroundings
around = record {
  lib = env.lib;
  net = env.net;
  records = [];
  network = env.network;
  remote_addr = env.remote_addr;
  now_get = 0;
  now_set = 0;
}

abbrev std_log : Logger
std_log = record { writer = Logger.stdout; level = Logger.level_info; drops_time = true }

abbrev file_log : Logger
file_log = record {
  writer = Logger.file (codes "dns.log");
  level = Logger.level_warn;
  drops_time = false;
}

abbrev pub process : Running Disk
process = made_from read_config std_log [] (start_filter machine read_config [])

pub started : start_up machine [] ≡ serving process
unfolding start_up load_config parse_list_configs parse_entries parse_duration ignored
    validate_config validate_log_level validate_address parse_upstream to_lower text_eq contains
    parse_ip split_host_port insert setup load_records get_log_level
started = refl

pub listed : should_block process.filter (codes "x.ads.example.com.") ≡ true
unfolding start_filter should_block resolvit.Filtering.Refresh.start
    resolvit.Filtering.Refresh.load_once resolvit.Filtering.DomainSet.matches
    resolvit.Filtering.DomainSet.normalize_lookup_name resolvit.Go.Text.trim_space
    resolvit.Go.Text.is_space resolvit.Go.Text.trim_dot_suffix to_lower resolvit.Go.Dict.lookup
    resolvit.Filtering.Loader.load_allowlist resolvit.Go.Text.split
    resolvit.Filtering.Loader.load_sources resolvit.Filtering.Sources.build_sources text_eq
    resolvit.Filtering.Loader.is_url resolvit.Go.Text.has_prefix resolvit.Filtering.Loader.download
    resolvit.Filtering.Parser.parse_list resolvit.Go.Scan.scan resolvit.Filtering.DomainSet.merge
    resolvit.Go.Text.trim_prefix resolvit.Go.Text.fields parse_ip
    resolvit.Filtering.Parser.normalize_domain resolvit.Filtering.DomainSet.add_exact insert
    resolvit.Go.Text.join
listed = refl

pub no_record : Records.get around.records (codes "x.ads.example.com.") ≡ none
unfolding Records.get resolvit.Records.normalize_name resolvit.Go.Text.trim_space
    resolvit.Go.Text.is_space resolvit.Go.Text.has_dot_suffix to_lower resolvit.Go.Dict.lookup
    resolvit.Go.Text.split
no_record = refl

start_up_blocks_example :
    (send : Text → Option Response) × (loaded_from : Disk) × (lists_decide machine [] process.cfg
        send loaded_from
        (codes "x.ads.example.com.")
      ≡ true)
    × (w' : World) × (handle_dns_request
          (env_of process.srv.handler process.filter around)
          0
          (some (ask (codes "x.ads.example.com.") 1))
          start
        ≡ done w')
    × (w'.cache ≡ start.cache)
    × (m : Msg) × (w'.written ≡ start.written ++ m ∷ [])
    × (m.rcode ≡ rcode_name_error)
start_up_blocks_example =
    start_up_blocks machine [] process around 0 (ask (codes "x.ads.example.com.") 1)
      (first_question (codes "x.ads.example.com.") 1) [] start started refl sample-IsDocumented refl
      no_record listed

start_up-IsReady_example : IsReady machine [] process
start_up-IsReady_example = start_up-IsReady machine [] process started

setup_iff_example :
    (setup (λ name. true) (codes "warn") (codes "logs/../dns.log") ≡ Logger.logger file_log)
    ↔ IsAskedFor (λ name. true) (codes "warn") (codes "logs/../dns.log") file_log
setup_iff_example = setup_iff (λ name. true) (codes "warn") (codes "logs/../dns.log") file_log

setup_runs :
    (setup (λ name. true) (codes "warn") (codes "logs/../dns.log") ≡ Logger.logger file_log)
    × (setup (λ name. true) (codes "warn") (codes "../dns.log") ≡ Logger.exited 1)
unfolding setup get_log_level to_lower text_eq sanitize_log_path clean has_prefix
setup_runs = (refl, refl)
