-- ===== src/System/Compile.antt =====
-- `System::compileConfig` of src/system.h: from the settings to the arguments of the server's
-- constructor. Opening the socket is the operating system's, a parameter that may throw.
use greylist.Base.{
  is_ok, refl, ◌≡◌, false, Option, none, some, not, suc, ◌==◌, [], ◌-◌, err, ◌^◌, true, ok, Bool,
  Result, ℕ, List, Bytes,
}
use greylist.Base.State.{asks, lift, pure, Run, ◌>>=◌}
use greylist.Base.OrdMap.{nat_key, insert, find, OrdMap}
use greylist.System.Config.{value_or_null, ConfigReader}
use greylist.System.{Policy, Matcher, System}
use greylist.Base.Int.{negsuc, pos, ℤ}
use greylist.System.Sections.{parse_configuration_sections}
use greylist.Tokens.{log_tokens, postfix_response_tokens}
use greylist.TokenList.{find_token}
use greylist.Utils.{convert_int}

-- The constructor's arguments without the signal; the numbers are passed as `unsigned`.
pub record ServerArgs (D L : Type 0) : Type 0 where
  pub listener : L
  pub core : List (Matcher D × Policy D)
  pub spare : ℕ
  pub maximum : ℕ
  pub monitor_refresh : ℕ
  pub cache_refresh : ℕ
  pub max_requests : ℕ
  pub defer_with_status : Bool
  pub defer : Bytes
  pub dunno : Bytes
  pub on_error : Bytes
  pub log_level : ℕ
  pub stats_every : ℕ

-- `int` to `unsigned`.
abbrev pub to_unsigned : ℤ → ℕ
to_unsigned (pos n) = n
to_unsigned (negsuc n) = 2 ^ 32 - suc n

-- `defer` is `PFT_dunno`, at position 0, or not.
abbrev defers : Option ℕ → Bool
defers none = true
defers (some i) = not (i == 0)

-- `LT_full`, at position 1, for a text that is no level.
abbrev level : Option ℕ → ℕ
level none = 1
level (some i) = i

module _ {D : Type 0} where
  -- `settings[i]`: a missing key is inserted with an empty string.
  unfoldable pub setting : ℕ → Run (System D) Bytes
  unfolding find insert
  setting i s =
      (ok (value_or_null (find i s.settings)), record s { settings = insert i [] s.settings })

  number_setting : ℕ → Run (System D) ℕ
  unfolding setting convert_int
  number_setting i = do str ← setting i; pure (to_unsigned (convert_int str))

  -- The settings that `build_server` reads as the address, behind those that it has read before.
  abbrev pub listen_of : System D → Bytes
  listen_of s = value_or_null (find 1 (insert 11 [] (insert 8 [] (insert 7 [] s.settings))))

  abbrev pub port_of : System D → Bytes
  port_of s =
      value_or_null (find 0 (insert 1 [] (insert 11 [] (insert 8 [] (insert 7 [] s.settings)))))

  -- The system with nothing but a core and settings.
  abbrev pub blank : List (Matcher D × Policy D) → OrdMap ℕ Bytes → System D
  blank core settings = record {
    databases = [];
    datasources = [];
    matchers = [];
    core = core;
    settings = settings;
    messages = [];
  }

  module _ {L : Type 0} where
    -- From the opening of the socket on.
    construct : Result L → Bytes → Bytes → Run (System D) (ServerArgs D L)
    unfolding setting number_setting find_token postfix_response_tokens log_tokens
    construct opened response log = do
      listener ← lift opened
      spare ← number_setting 2
      maximum ← number_setting 3
      monitor_refresh ← number_setting 6
      cache_refresh ← number_setting 5
      max_requests ← number_setting 4
      defer ← setting 8
      dunno ← setting 9
      on_error ← setting 10
      stats_every ← number_setting 12
      core ← asks (λ s. s.core)
      pure (record {
        listener = listener;
        core = core;
        spare = spare;
        maximum = maximum;
        monitor_refresh = monitor_refresh;
        cache_refresh = cache_refresh;
        max_requests = max_requests;
        defer_with_status = defers (find_token postfix_response_tokens response);
        defer = defer;
        dunno = dunno;
        on_error = on_error;
        log_level = level (find_token log_tokens log);
        stats_every = stats_every;
      })

    -- What follows the parsing. The value of `deferwithstatus` is overwritten.
    unfoldable pub build_server : (Bytes → Bytes → Result L) → Run (System D) (ServerArgs D L)
    unfolding setting construct
    build_server open_listener = do
      _ ← setting 7
      response ← setting 8
      log ← setting 11
      listen ← setting 1
      port ← setting 0
      construct (open_listener listen port) response log

    construct-blank :
        (opened : Result L) (response log : Bytes) (s : System D)
        → (construct opened response log s).0
          ≡ (construct opened response log (blank s.core s.settings)).0
    unfolding construct setting number_setting
    construct-blank (ok l) response log s = refl
    construct-blank (err e) response log s = refl

    pub build_server-blank :
        (open_listener : Bytes → Bytes → Result L) (s : System D)
        → (build_server open_listener s).0
          ≡ (build_server open_listener (blank s.core s.settings)).0
    unfolding build_server setting
    build_server-blank open_listener s = search construct-blank

    construct-is_ok :
        (opened : Result L) (response log : Bytes) (s : System D)
        → is_ok opened ≡ true
        → is_ok (construct opened response log s).0 ≡ true
    unfolding construct setting number_setting
    construct-is_ok (ok l) response log s h = refl
    construct-is_ok (err e) response log s h = h

    pub build_server-is_ok :
        (open_listener : Bytes → Bytes → Result L) (s : System D)
        → ((listen port : Bytes) → is_ok (open_listener listen port) ≡ true)
        → is_ok (build_server open_listener s).0 ≡ true
    unfolding build_server setting
    build_server-is_ok open_listener s h = search (construct-is_ok, h)

    -- The server has the listener that was opened.
    abbrev pub Carries : Result L → Result (ServerArgs D L) → Type 0
    Carries (ok l) (ok srv) = srv.listener ≡ l
    Carries (err e) (err e') = Unit
    Carries _ _ = ⊥

    construct-Carries :
        (opened : Result L) (response log : Bytes) (s : System D)
        → Carries opened (construct opened response log s).0
    unfolding construct setting number_setting
    construct-Carries (ok l) response log s = refl
    construct-Carries (err e) response log s = tt

    pub build_server-Carries :
        (open_listener : Bytes → Bytes → Result L) (s : System D)
        → Carries (open_listener (listen_of s) (port_of s)) (build_server open_listener s).0
    unfolding build_server setting
    build_server-Carries open_listener s = search construct-Carries

    construct-core :
        (opened : Result L) (response log : Bytes) (s : System D)
        → (construct opened response log s).1.core ≡ s.core
    unfolding construct setting number_setting
    construct-core (ok l) response log s = refl
    construct-core (err e) response log s = refl

    pub build_server-core :
        (open_listener : Bytes → Bytes → Result L) (s : System D)
        → (build_server open_listener s).1.core ≡ s.core
    unfolding build_server setting
    build_server-core open_listener s = search construct-core

    module _ (out_of_range : Bytes) (new_database : OrdMap Bytes Bytes → ℕ → Result D)
        (open_listener : Bytes → Bytes → Result L) where
      unfoldable pub after_parsing :
          Option (Result (Unit {0}) × System D) → Option (Result (ServerArgs D L) × System D)
      unfolding build_server
      after_parsing none = none
      after_parsing (some (ok u, s)) = some (build_server open_listener s)
      after_parsing (some (err e, s)) = some (err e, s)

      -- `compileConfig` with `skipConfig` set, and without.
      unfoldable pub compile_config :
          Bool → ConfigReader → System D → Option (Result (ServerArgs D L) × System D)
      unfolding parse_configuration_sections after_parsing build_server
      compile_config true r s = some (build_server open_listener s)
      compile_config false r s =
          after_parsing (parse_configuration_sections out_of_range new_database r s)
