-- ===== src/System/Policies.antt =====
-- What the creators may do to the system, whatever the configuration.
use greylist.System.{
  all_matcher, Source, Matcher, greylist_policy, OrdMap, MatchKind, whitelist_policy, Policy,
  System,
}
use greylist.System.Create.{
  create_all_match, at_most, mode_of, add_matcher, push_back, create_db_data_source,
  create_whitelist, create_greylist, create_server, create_database, create_match,
}
use greylist.Base.{arith, Bool, ◌++◌, ◌≤◌, ◌≢◌, Bytes, ℕ, Result, ok, List, [], ◌∷◌, ◌≡◌}
use greylist.Base.State.{
  ◌>>◌, pure-IsKept, Run, IsKept, lift-IsKept, asks-IsKept, modify-IsKept, >>=-IsKept,
}
use greylist.IpAddress.{default_length}
use greylist.Base.OrdMap.{bytes_key, find, insert}
use greylist.Greylist.{ModeType, init}
use greylist.Tokens.{config_mode_tokens}
use greylist.TokenList.{find_token}
use greylist.System.Config.{get_val, ConfigWriter}

-- A policy as `GreylistCreator` allows it: one of the three modes that have a name, and at most
-- `default_length` bytes.
abbrev pub IsUsual : {D : Type 0} → Policy D → Type 0
IsUsual (whitelist_policy name) = Unit {0}
IsUsual (greylist_policy ds mode verbose timeout weakbytes) =
    (mode ≢ init) × (weakbytes ≤ default_length)

-- Every step that a creator takes keeps the property.
pub record IsStable {D : Type 0} (I : System D → Type 0) : Type 0 where
  pub on_databases :
      (s : System D) (name : Bytes) (db : D)
      → I s
      → I (record s { databases = insert name db s.databases })
  pub on_datasources :
      (s : System D) (dss : OrdMap Bytes (Source D)) → I s → I (record s { datasources = dss })
  pub on_matchers :
      (s : System D) (mts : OrdMap Bytes (Matcher D)) → I s → I (record s { matchers = mts })
  pub on_core :
      (s : System D) (m : Matcher D) (p : Policy D)
      → IsUsual p
      → I s
      → I (record s { core = s.core ++ (m, p) ∷ [] })
  pub on_settings :
      (s : System D) (settings : OrdMap ℕ Bytes) → I s → I (record s { settings = settings })
  pub on_messages : (s : System D) (ms : List Bytes) → I s → I (record s { messages = ms })

at_most-bound : (message : Bytes) (bound n w : ℕ) → at_most message bound n ≡ ok w → w ≤ bound
unfolding at_most
at_most-bound message bound n w e = ground arith

mode_of-named : (str : Bytes) (mode : ModeType) → mode_of str ≡ ok mode → mode ≢ init
unfolding mode_of find_token config_mode_tokens find
mode_of-named [] mode e = λ h. absurd (cc e)
mode_of-named (c ∷ str) mode e = λ h. ground arith

module _ {D : Type 0} {I : System D → Type 0} (stable : IsStable I) where
  pub create_database-IsKept :
      (new_database : OrdMap Bytes Bytes → ℕ → Result D) (cfg : ConfigWriter)
      → IsKept I (create_database new_database cfg)
  unfolding create_database
  create_database-IsKept new_database cfg =
      search (lift-IsKept, asks-IsKept, modify-IsKept, pure-IsKept, stable.on_databases) depth 12

  pub create_db_data_source-IsKept : (cfg : ConfigWriter) → IsKept I (create_db_data_source cfg)
  unfolding create_db_data_source
  create_db_data_source-IsKept cfg =
      search (lift-IsKept, asks-IsKept, modify-IsKept, pure-IsKept, stable.on_datasources) depth 12

  pub add_matcher-IsKept : (name : Bytes) (m : Matcher D) → IsKept I (add_matcher name m)
  unfolding add_matcher
  add_matcher-IsKept name m =
      search (lift-IsKept, asks-IsKept, modify-IsKept, pure-IsKept, stable.on_matchers) depth 12

  pub create_match-IsKept :
      (kind : MatchKind) (cfg : ConfigWriter) → IsKept I (create_match kind cfg)
  unfolding create_match
  create_match-IsKept kind cfg =
      search (lift-IsKept, asks-IsKept, modify-IsKept, pure-IsKept, add_matcher-IsKept) depth 20

  push_back-IsKept : (m : Matcher D) (p : Policy D) → IsUsual p → IsKept I (push_back m p)
  unfolding push_back
  push_back-IsKept m p u = record { at = λ s i. stable.on_core s m p u i }

  push_greylist-IsKept :
      {B : Type 0} {k : Run (System D) B} (m : Matcher D) (ds : Source D) (mode : ModeType)
      (verbose : Bool) (timeout w n : ℕ) (text str : Bytes)
      → at_most text default_length n ≡ ok w
      → mode_of str ≡ ok mode
      → IsKept I k
      → IsKept I (push_back m (greylist_policy ds mode verbose timeout w) >> k)
  push_greylist-IsKept m ds mode verbose timeout w n text str e e' h =
      >>=-IsKept
        (push_back-IsKept m (greylist_policy ds mode verbose timeout w)
          (mode_of-named str mode e', at_most-bound text default_length n w e))
        (λ u. h)

  pub create_all_match-IsKept : (cfg : ConfigWriter) → IsKept I (create_all_match cfg)
  unfolding create_all_match
  create_all_match-IsKept cfg = add_matcher-IsKept (get_val 0 cfg) all_matcher

  pub create_whitelist-IsKept :
      (type : Bytes) (cfg : ConfigWriter) → IsKept I (create_whitelist type cfg)
  unfolding create_whitelist
  create_whitelist-IsKept type cfg =
      search (lift-IsKept, asks-IsKept, modify-IsKept, pure-IsKept, >>=-IsKept, push_back-IsKept)
        depth 20

  pub create_greylist-IsKept :
      (type : Bytes) (cfg : ConfigWriter) → IsKept I (create_greylist type cfg)
  unfolding create_greylist
  create_greylist-IsKept type cfg =
      search (lift-IsKept, asks-IsKept, pure-IsKept, push_greylist-IsKept) depth 20

  pub create_server-IsKept : (cfg : ConfigWriter) → IsKept I (create_server cfg)
  unfolding create_server
  create_server-IsKept cfg =
      search (lift-IsKept, asks-IsKept, modify-IsKept, pure-IsKept, stable.on_settings) depth 20
