-- ===== src/System/Check.antt =====
-- `checkForToken` and `checkForRef` of src/system.h: the values that a section must have, and the
-- names that it refers to.
use greylist.Base.{
  ℕ, [], ◌∷◌, ◌++◌, none, some, is_empty, if◌then◌else◌, Bytes, codes, Result, ok, err, ◌>>=◌,
}
use greylist.Base.OrdMap.{OrdMap, bytes_key, find}
use greylist.System.Config.{ConfigWriter, get_val}
use greylist.TokenList.{get_token}
use greylist.Tokens.{config_tokens, config_sections_tokens}
use greylist.Tokens.Enums.{SectionToken, section_index}

abbrev pub named : Bytes → Bytes
named [] = []
named (c ∷ sn) = codes " named '" ++ (c ∷ sn) ++ codes "'"

unfoldable pub section_name : SectionToken → Result Bytes
unfolding get_token config_sections_tokens
section_name tid = get_token config_sections_tokens (section_index tid)

missing_value : SectionToken → ℕ → Bytes → Result (Unit {0})
unfolding get_token config_tokens section_name
missing_value tid s sn = do
  token ← get_token (config_tokens tid) s
  section ← section_name tid
  err (
      codes "missing value for '"
      ++ token
      ++ codes "' in section ["
      ++ section
      ++ codes "]"
      ++ named sn)

unfoldable pub check_for_token : ConfigWriter → SectionToken → ℕ → Bytes → Result (Unit {0})
unfolding missing_value get_val
check_for_token cfg tid s sn = if is_empty (get_val s cfg) then missing_value tid s sn else ok tt

module _ {V : Type 0} where
  -- The names of a container, quoted and with commas between them.
  known_names : OrdMap Bytes V → Bytes
  known_names [] = []
  known_names ((name, v) ∷ []) = codes "'" ++ name ++ codes "'"
  known_names ((name, v) ∷ w ∷ rest) = codes "'" ++ name ++ codes "', " ++ known_names (w ∷ rest)

  unknown_reference :
      ConfigWriter → OrdMap Bytes V → SectionToken → SectionToken → ℕ → Bytes → Result (Bytes × V)
  unfolding known_names section_name get_val
  unknown_reference cfg container sid tid s sn = do
    target ← section_name sid
    section ← section_name tid
    err (
        codes "unknown reference to "
        ++ target
        ++ codes " '"
        ++ get_val s cfg
        ++ codes "' in section ["
        ++ section
        ++ codes "]"
        ++ named sn
        ++ codes ", defined: "
        ++ (if is_empty (known_names container) then codes "(none)" else known_names container))

  -- The entry that the value refers to.
  unfoldable pub check_for_ref :
      ConfigWriter → OrdMap Bytes V → SectionToken → SectionToken → ℕ → Bytes → Result (Bytes × V)
  unfolding check_for_token unknown_reference find
  check_for_ref cfg container sid tid s sn = check_for_token cfg tid s sn >>= λ u.
      elim (find (get_val s cfg) container) [
        | some v ↦ ok (get_val s cfg, v)
        | none ↦ unknown_reference cfg container sid tid s sn
      ]
