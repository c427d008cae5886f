-- ===== src/Tests/Assembly.antt =====
-- A configuration with every kind of section, and tests of the assembly of the system.
use greylist.System.Policies.{IsUsual}
use greylist.Base.{
  All, refl, ◌≡◌, ◌++◌, ℕ, Bool, true, false, List, [], ◌∷◌, Option, none, some, Bytes, codes,
  Result, ok, err,
}
use greylist.Base.OrdMap.{bytes_key, find, OrdMap}
use greylist.System.{Source, greylist_policy, all_matcher, System}
use greylist.System.Run.{Event, hangup, running, try_new, reload, rounds}
use greylist.System.Compile.{ServerArgs, build_server}
use greylist.System.Reload.{reload-previous, rounds-running}
use greylist.System.Outcome.{
  parse_configuration_sections-IsUsual, parse_configuration_sections-databases,
}
use greylist.Greylist.{reverse}
use greylist.ConfigFileReader.{Stream}
use greylist.System.Config.{config_reader_on}
use greylist.System.Sections.{parse_configuration_sections}

-- A database that is its parameters and the number of its spare connections.
abbrev Db : Type 0
Db = OrdMap Bytes Bytes × ℕ

abbrev open_db : OrdMap Bytes Bytes → ℕ → Result Db
open_db params spare = ok (params, spare)

abbrev fresh : System Db
fresh = record {
  databases = [];
  datasources = [];
  matchers = [];
  core = [];
  settings = [];
  messages = [];
}

abbrev database_lines : List Bytes
database_lines =
    codes "[database]"
    ∷ codes "name=main"
    ∷ codes "type=mysql"
    ∷ codes "host=localhost"
    ∷ codes "spareconnections=2"
    ∷ []

abbrev source_lines : List Bytes
source_lines =
    codes "[datasource]"
    ∷ codes "name=seen"
    ∷ codes "type=db"
    ∷ codes "table=t"
    ∷ codes "database=main"
    ∷ []

abbrev policy_lines : List Bytes
policy_lines =
    codes "[match]"
    ∷ codes "name=everyone"
    ∷ codes "type=all"
    ∷ codes "[policy]"
    ∷ codes "type=greylist"
    ∷ codes "datasource=seen"
    ∷ codes "match=everyone"
    ∷ codes "weakbytes=2"
    ∷ codes "timeout=60"
    ∷ []

abbrev host_params : OrdMap Bytes Bytes
host_params = (codes "host", codes "localhost") ∷ (codes "type", codes "mysql") ∷ []

abbrev seen : Source Db
seen = record { database = (host_params, 2); table = codes "t" }

-- The complete configuration, and one whose data source refers to another database.
abbrev all_lines : List Bytes
all_lines = database_lines ++ source_lines ++ policy_lines

abbrev bad_lines : List Bytes
bad_lines =
    database_lines
    ++ codes "[datasource]"
      ∷ codes "name=seen"
      ∷ codes "type=db"
      ∷ codes "table=t"
      ∷ codes "database=other"
      ∷ []

abbrev assembled : System Db
assembled = record fresh { core = (all_matcher, greylist_policy seen reverse true 60 2) ∷ [] }

abbrev half : System Db
half = record fresh { databases = (codes "main", (host_params, 2)) ∷ [] }

abbrev unknown_other : Bytes
unknown_other =
    codes
      "unknown reference to database 'other' in section [datasource] named 'seen', defined: 'main'"

assembly :
    parse_configuration_sections (codes "at") open_db (config_reader_on all_lines) fresh
    ≡ some (ok tt, assembled)
unfolding parse_configuration_sections greylist.Base.equal greylist.Base.less
    greylist.Tokens.database_tokens greylist.System.Config.add_value greylist.System.Config.add_var
    greylist.Tokens.datasource_tokens greylist.Tokens.match_tokens greylist.Tokens.policy_tokens
    greylist.TokenList.get_default
assembly = refl

-- After a configuration that failed, a correct one is refused.
refused :
    parse_configuration_sections (codes "at") open_db (config_reader_on all_lines) half
    ≡ some (err (codes "database named 'main' already defined"), half)
unfolding parse_configuration_sections greylist.Base.equal greylist.Base.less
    greylist.Tokens.database_tokens greylist.System.Config.add_value greylist.System.Config.add_var
refused = refl

parse_configuration_sections-IsUsual_example : All (λ e. IsUsual e.1) assembled.core
parse_configuration_sections-IsUsual_example =
    parse_configuration_sections-IsUsual (codes "at") open_db (config_reader_on all_lines) fresh
      assembled (ok tt) tt assembly

refused_bad :
    parse_configuration_sections (codes "at") open_db (config_reader_on bad_lines) fresh
    ≡ some (err unknown_other, half)
unfolding parse_configuration_sections greylist.Base.equal greylist.Base.less
    greylist.Tokens.database_tokens greylist.System.Config.add_value greylist.System.Config.add_var
    greylist.Tokens.datasource_tokens
refused_bad = refl

parse_configuration_sections-databases_example :
    find (codes "main") half.databases ≡ some (host_params, 2)
unfolding find greylist.Base.equal
parse_configuration_sections-databases_example =
    parse_configuration_sections-databases (codes "at") open_db (config_reader_on all_lines) half
      half (err (codes "database named 'main' already defined")) (codes "main") (host_params, 2)
      refl refused

abbrev opens : Bytes → Bytes → Result Bytes
opens listen port = ok (listen ++ codes ":" ++ port)

-- A reload with a file that has an unknown reference.
abbrev bad_file : Stream
bad_file = record {
  input =
      codes
        "[database]\nname=main\ntype=mysql\nhost=localhost\nspareconnections=2\n[datasource]\nname=seen\ntype=db\ntable=t\ndatabase=other\n";
  eof = false;
}

abbrev bad_event : Event Bytes
bad_event = record {
  signal = hangup;
  socket_error = [];
  reloaded = ok bad_file;
  open_new = opens;
  open_previous = opens;
}

bad_reload : try_new (codes "at") open_db bad_event assembled ≡ some (err unknown_other, half)
unfolding try_new greylist.Utils.to_lower greylist.Base.equal greylist.Base.less
    greylist.Tokens.database_tokens greylist.System.Config.add_value greylist.System.Config.add_var
    greylist.Tokens.datasource_tokens
bad_reload = refl

reload-previous_example :
    (srv : ServerArgs Db Bytes) × (t : System Db) × (reload (codes "at") open_db bad_event assembled
      ≡ some (running srv, t))
    × ((build_server opens assembled).0 ≡ ok srv)
    × (t.core ≡ assembled.core)
reload-previous_example =
    reload-previous (codes "at") open_db bad_event assembled half unknown_other bad_reload
      (λ listen port. refl)

abbrev served : ServerArgs Db Bytes
served = record {
  listener = [];
  core = assembled.core;
  spare = 2;
  maximum = 150;
  monitor_refresh = 5;
  cache_refresh = 600;
  max_requests = 0;
  defer_with_status = true;
  defer = [];
  dunno = [];
  on_error = [];
  log_level = 1;
  stats_every = 120;
}

rounds-running_example :
    (srv : ServerArgs Db Bytes) × (t : System Db) × (rounds
        (codes "at")
        open_db
        (bad_event ∷ bad_event ∷ [])
        served
        assembled
      ≡ some (running srv, t))
rounds-running_example =
    rounds-running (codes "at") open_db (bad_event ∷ bad_event ∷ []) served assembled
      ((refl, λ listen port. refl), ((refl, λ listen port. refl), tt))
