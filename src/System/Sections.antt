-- ===== src/System/Sections.antt =====
-- `System::parseConfigurationSections` of src/system.h and the tables of creators that the
-- constructor of `System` fills. Parameters: the text of `std::out_of_range` that `at` throws, and
-- the constructor of the library's `Database`.
use greylist.System.{cached_pattern, cached_exact, pattern, exact, OrdMap, System}
use greylist.Base.{
  is_empty, codes, ok, ◌-◌, true, false, take, some, err, length, ◌+◌, none, drop, suc, zero,
  Result, ◌∷◌, ltb, ◌++◌, Option, if◌then◌else◌, [], get_elem?, List, Bytes, find_byte, ℕ,
}
use greylist.System.Create.{
  create_greylist, create_server, create_database, create_whitelist, create_all_match, create_match,
  create_db_data_source,
}
use greylist.System.Config.{
  config_reader, no_values, switch_section_mode, config_writer, ConfigWriter, config_line,
  ConfigReader, get_val,
}
use greylist.Base.State.{lift, Run, ◌>>=◌, throw}
use greylist.Tokens.Enums.{server, policy, match, datasource, database, SectionToken}
use greylist.Parser.{parse}
use greylist.Tokens.{config_sections_tokens, config_type_tokens, config_tokens}
use greylist.TokenList.{TokenList, get_token, find_token}
use greylist.System.Check.{section_name}

abbrev all_sections : List SectionToken
all_sections = database ∷ datasource ∷ match ∷ policy ∷ server ∷ []

-- The cast of a position to `Tokens::SectionsTokensType`; the list has these five.
abbrev pub section_at : ℕ → SectionToken
section_at i = elim (get_elem? all_sections i) [ none ↦ server | some tid ↦ tid ]

-- `line.substr(left + 1, right - left - 1)`: to the end of the line when `right` is before `left`,
-- since the count wraps around.
abbrev between : ℕ → ℕ → Bytes → Bytes
between left right line =
    if ltb right left then drop (left + 1) line else take (right - left - 1) (drop (left + 1) line)

-- The name in a line `[name]`.
unfoldable pub section_header : Bytes → Option Bytes
unfolding find_byte
section_header line = elim (find_byte b'[' line) [
  | none ↦ none
  | some left ↦ elim (find_byte b']' line) [
    | none ↦ none
    | some right ↦ some (between left right line)
  ]
]

-- The lines of a section, up to the next `[`.
unfoldable pub read_section :
    Bytes → SectionToken → ConfigReader → Option (ConfigReader × Result ConfigWriter)
unfolding config_tokens parse
read_section out_of_range tid r =
    elim (parse config_writer (config_tokens tid) true config_reader (switch_section_mode true r)
      no_values) [
        | none ↦ none
        | some (r', o) ↦ some (r', if r'.failed then err out_of_range else o)
      ]

module _ {D : Type 0} where
  -- The creators for the types of a section, in the order of the list of its types.
  unfoldable pub sub_section_factory :
      SectionToken → List (Bytes → ConfigWriter → Run (System D) Bytes)
  unfolding create_db_data_source create_match create_all_match create_whitelist create_greylist
  sub_section_factory datasource = (λ type. create_db_data_source) ∷ []
  sub_section_factory match =
      (λ type. create_match exact)
      ∷ (λ type. create_match pattern)
      ∷ (λ type. create_match cached_exact)
      ∷ (λ type. create_match cached_pattern)
      ∷ (λ type. create_all_match)
      ∷ []
  sub_section_factory policy = create_whitelist ∷ create_greylist ∷ []
  sub_section_factory database = []
  sub_section_factory server = []

  unfoldable pub no_handler : SectionToken → Bytes → Run (System D) Bytes
  unfolding section_name
  no_handler tid type_str = do
    section ← lift (section_name tid)
    throw (
        codes "No sub section handler defined in section '"
        ++ section
        ++ codes "' for type '"
        ++ type_str
        ++ codes "'")

  unfoldable pub bad_type : SectionToken → Bytes → Run (System D) Bytes
  unfolding section_name
  bad_type tid type_str = do
    section ← lift (section_name tid)
    throw (codes "Unknown type in section '" ++ section ++ codes "' '" ++ type_str ++ codes "'")

  unfoldable pub missing_type : SectionToken → Run (System D) Bytes
  unfolding section_name
  missing_type tid = do
    section ← lift (section_name tid)
    throw (codes "Missing type in section [" ++ section ++ codes "]")

  unfoldable pub create_typed :
      SectionToken → Bytes → TokenList → ConfigWriter → Run (System D) Bytes
  unfolding find_token get_token sub_section_factory no_handler bad_type
  create_typed tid type_str types cfg = elim (find_token types type_str) [
    | none ↦ bad_type tid type_str
    | some type_id ↦ elim (get_elem? (sub_section_factory tid) type_id) [
      | none ↦ no_handler tid type_str
      | some create ↦ lift (get_token types type_id) >>= λ type. create type cfg
    ]
  ]

  abbrev pub message : Bytes → System D → System D
  message text s = record s { messages = s.messages ++ text ∷ [] }

  abbrev pub clear : System D → System D
  clear s = record s { matchers = []; datasources = []; databases = [] }

  module _ (out_of_range : Bytes) where
    unfoldable pub create_sub_section : SectionToken → ConfigWriter → Run (System D) Bytes
    unfolding get_val config_type_tokens create_typed missing_type
    create_sub_section tid cfg =
        let type_str = get_val 1 cfg in
        if is_empty type_str then missing_type tid else elim (config_type_tokens tid) [
          | none ↦ throw out_of_range
          | some types ↦ create_typed tid type_str types cfg
        ]

    module _ (new_database : OrdMap Bytes Bytes → ℕ → Result D) where
      -- The section factory, then the factory by type.
      unfoldable pub create_section : SectionToken → ConfigWriter → Run (System D) Bytes
      unfolding create_database create_server create_sub_section
      create_section database = create_database new_database
      create_section server = create_server
      create_section datasource = create_sub_section datasource
      create_section match = create_sub_section match
      create_section policy = create_sub_section policy

      unfoldable pub read_and_create :
          SectionToken → ConfigReader → System D → Option (Result Bytes × (ConfigReader × System D))
      unfolding read_section create_section
      read_and_create tid r s = elim (read_section out_of_range tid r) [
        | none ↦ none
        | some (r', err e) ↦ some (err e, (r', s))
        | some (r', ok cfg) ↦ let o = create_section tid cfg s in some (o.0, (r', o.1))
      ]

      -- The loop's body, for one line.
      unfoldable pub section_step :
          Bytes → ConfigReader → System D → Option (Result Bytes × (ConfigReader × System D))
      unfolding section_header find_token config_sections_tokens read_and_create
      section_step line r s = elim (section_header line) [
        | none ↦ some (ok [], (r, message (codes "ignored: " ++ line) s))
        | some section ↦ elim (find_token config_sections_tokens section) [
          | none ↦ some (ok [], (r, message (codes "unknown section: " ++ section) s))
          | some i ↦ read_and_create (section_at i) r s
        ]
      ]

      -- The loop, on fuel: `none` means that the fuel ran out.
      unfoldable pub sections_loop :
          ℕ → ConfigReader → System D → Option (Result (Unit {0}) × System D)
      unfolding config_line section_step
      sections_loop zero r s = none
      sections_loop (suc fuel) r s = elim (config_line (switch_section_mode false r)).0 [
        | none ↦ some (ok tt, clear s)
        | some line ↦ elim (section_step line (config_line (switch_section_mode false r)).1 s) [
          | none ↦ none
          | some (err e, (r', s')) ↦ some (err e, s')
          | some (ok name, (r', s')) ↦ sections_loop fuel r' s'
        ]
      ]

      unfoldable pub parse_configuration_sections :
          ConfigReader → System D → Option (Result (Unit {0}) × System D)
      unfolding sections_loop
      parse_configuration_sections r s = sections_loop (suc (length r.lines)) r s
