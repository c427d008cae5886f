-- ===== src/System/Create.antt =====
-- The creators: src/databasecreator.h, src/dbdatasourcecreator.h, src/matchcreator.h,
-- src/whitelistcreator.h, src/greylistcreator.h and src/servercreator.h. The constructor of a
-- `Database` is the library's: it gets the parameters and the number of spare connections, and may
-- throw.
use greylist.Base.{
  get_elem?, ◌-◌, ◌^◌, ℕ, true, List, [], ◌∷◌, ◌++◌, Option, none, some, is_empty, is_some, ltb,
  if◌then◌else◌, Bytes, codes, Result, ok, err,
}
use greylist.Base.Int.{ℤ, pos, negsuc}
use greylist.Base.OrdMap.{OrdMap, bytes_key, find, insert}
use greylist.Base.State.{lift, asks, Run, ◌>>=◌, ◌>>◌, pure, modify}
use greylist.Greylist.{ModeType, reverse, weak, normal, init}
use greylist.IpAddress.{default_length}
use greylist.System.{
  MatchKind, Matcher, column_matcher, all_matcher, Policy, whitelist_policy, greylist_policy,
  System,
}
use greylist.System.Check.{check_for_token, check_for_ref}
use greylist.System.Config.{ConfigWriter, get_val, copy_vals}
use greylist.TokenList.{find_token, get_token}
use greylist.Tokens.{config_tokens, config_columns_tokens, config_mode_tokens}
use greylist.Tokens.Enums.{database, datasource, match, policy}
use greylist.Triplet.{AnyMember, known, unknown, MemberType}
use greylist.Utils.{convert_int}
use greylist.Triplet

abbrev pub quote_unless_empty : Bytes → Bytes
quote_unless_empty [] = []
quote_unless_empty (c ∷ s) = codes "'" ++ (c ∷ s) ++ codes "'"

abbrev pub name_or : Bytes → Bytes → Bytes
name_or other [] = other
name_or other (c ∷ s) = c ∷ s

-- A number below 0 is a bad value.
abbrev pub natural : Bytes → ℤ → Result ℕ
natural message (pos n) = ok n
natural message (negsuc n) = err message

abbrev all_members : List MemberType
all_members =
    Triplet.client_address_member ∷ Triplet.sender_member ∷ Triplet.recipient_member
    ∷ Triplet.reverse_client_name_member ∷ Triplet.client_name_member
    ∷ Triplet.short_reverse_client_name_member ∷ Triplet.short_client_name_member
    ∷ Triplet.triplet_string_member ∷ Triplet.network_member ∷ []

-- The cast of a position to `Triplet::MemberType`; -1 becomes the largest `unsigned`.
abbrev pub member_at : Option ℕ → AnyMember
member_at none = unknown (2 ^ 32 - 1)
member_at (some i) = elim (get_elem? all_members i) [ none ↦ unknown i | some m ↦ known m ]

-- The cast to `Greylist::ModeType`; the tokens stop before `init`.
abbrev pub mode_at : ℕ → ModeType
mode_at i = elim (get_elem? (reverse ∷ weak ∷ normal ∷ []) i) [ none ↦ init | some m ↦ m ]

-- A name that is in its container already.
abbrev pub unless_defined : {V : Type 0} → Bytes → Bytes → OrdMap Bytes V → Result (Unit {0})
unless_defined what name container =
    if is_some (find name container)
    then err (what ++ codes " named '" ++ name ++ codes "' already defined")
    else ok tt

bad_weakbytes : Bytes → Bytes → Bytes
bad_weakbytes str_timeout str_weakbytes =
    codes "bad value for 'weakbytes' "
    ++ (if is_empty str_timeout then [] else codes "'" ++ str_weakbytes ++ codes "'")

unfoldable pub at_most : Bytes → ℕ → ℕ → Result ℕ
at_most message bound n = if ltb bound n then err message else ok n

abbrev weakbytes_of : Bytes → ℤ
weakbytes_of str = if is_empty str then pos 3 else convert_int str

unfoldable pub mode_of : Bytes → Result ModeType
unfolding find_token config_mode_tokens
mode_of [] = ok reverse
mode_of (c ∷ str) = elim (find_token config_mode_tokens (c ∷ str)) [
  | none ↦ err (codes "unknown greylist mode '" ++ (c ∷ str) ++ codes "'")
  | some i ↦ ok (mode_at i)
]

module _ {D : Type 0} where
  -- `DatabaseCreator::create`.
  unfoldable pub create_database :
      (OrdMap Bytes Bytes → ℕ → Result D) → ConfigWriter → Run (System D) Bytes
  unfolding get_token config_tokens get_val convert_int find insert
  create_database new_database cfg = do
    token ← lift (get_token (config_tokens database) 1)
    let str_spare = get_val 2 cfg
    spare ← lift (
        natural (codes "bad value for 'spare' " ++ quote_unless_empty str_spare)
          (convert_int str_spare))
    db ← lift (new_database (insert token (get_val 1 cfg) cfg.vars) spare)
    let name = get_val 0 cfg
    dbs ← asks (λ s. s.databases)
    lift (unless_defined (codes "database") name dbs)
    modify (λ s. record s { databases = insert name db s.databases })
    pure name

  -- `DBDataSourceCreator::create`.
  unfoldable pub create_db_data_source : ConfigWriter → Run (System D) Bytes
  unfolding check_for_ref check_for_token get_val find insert
  create_db_data_source cfg = do
    let name = get_val 0 cfg
    dbs ← asks (λ s. s.databases)
    ref ← lift (check_for_ref cfg dbs database datasource 3 name)
    lift (check_for_token cfg datasource 2 name)
    dss ← asks (λ s. s.datasources)
    lift (unless_defined (codes "datasource") name dss)
    modify (λ s. record s {
      datasources = insert name (record { database = ref.1; table = get_val 2 cfg }) s.datasources;
    })
    pure name

  unfoldable pub add_matcher : Bytes → Matcher D → Run (System D) Bytes
  unfolding find insert
  add_matcher name matcher = do
    mts ← asks (λ s. s.matchers)
    lift (unless_defined (codes "match") name mts)
    modify (λ s. record s { matchers = insert name matcher s.matchers })
    pure name

  -- `MatchCreator::create`, for a matcher with a column.
  unfoldable pub create_match : MatchKind → ConfigWriter → Run (System D) Bytes
  unfolding check_for_ref check_for_token get_val find_token config_columns_tokens add_matcher
  create_match kind cfg = do
    let name = get_val 0 cfg
    dss ← asks (λ s. s.datasources)
    ref ← lift (check_for_ref cfg dss datasource match 2 name)
    lift (check_for_token cfg match 3 name)
    lift (check_for_token cfg match 4 name)
    add_matcher name (
        column_matcher kind ref.1 (get_val 3 cfg)
          (member_at (find_token config_columns_tokens (get_val 4 cfg))) (get_val 5 cfg))

  -- Its specialisation for `AllMatchMatcher`.
  unfoldable pub create_all_match : ConfigWriter → Run (System D) Bytes
  unfolding get_val add_matcher
  create_all_match cfg = add_matcher (get_val 0 cfg) all_matcher

  unfoldable pub push_back : Matcher D → Policy D → Run (System D) (Unit {0})
  push_back matcher decider = modify (λ s. record s { core = s.core ++ (matcher, decider) ∷ [] })

  -- `WhitelistCreator::create`; `type` is the name of the section's type.
  unfoldable pub create_whitelist : Bytes → ConfigWriter → Run (System D) Bytes
  unfolding check_for_ref get_val push_back
  create_whitelist type cfg = do
    mts ← asks (λ s. s.matchers)
    ref ← lift (check_for_ref cfg mts match policy 2 type)
    push_back ref.1 (whitelist_policy ref.0)
    pure (name_or (codes "(whitelist)") (get_val 0 cfg))

  -- `GreylistCreator::create`.
  unfoldable pub create_greylist : Bytes → ConfigWriter → Run (System D) Bytes
  unfolding check_for_ref get_val convert_int push_back bad_weakbytes at_most mode_of
  create_greylist type cfg = do
    dss ← asks (λ s. s.datasources)
    ds ← lift (check_for_ref cfg dss policy policy 3 type)
    let str_timeout = get_val 6 cfg
    timeout ← lift (
        natural (codes "bad value for 'timeout' " ++ quote_unless_empty str_timeout)
          (convert_int str_timeout))
    let str_weakbytes = get_val 5 cfg
    some_bytes ←
        lift (natural (bad_weakbytes str_timeout str_weakbytes) (weakbytes_of str_weakbytes))
    weakbytes ← lift (at_most (bad_weakbytes str_timeout str_weakbytes) default_length some_bytes)
    mode ← lift (mode_of (get_val 4 cfg))
    mts ← asks (λ s. s.matchers)
    ref ← lift (check_for_ref cfg mts match policy 2 type)
    push_back ref.1 (greylist_policy ds.1 mode true timeout weakbytes)
    pure (name_or (codes "(greylist)") (get_val 0 cfg))

  -- `ServerCreator::create`.
  unfoldable pub create_server : ConfigWriter → Run (System D) Bytes
  unfolding copy_vals
  create_server cfg = do
    modify (λ s. record s { settings = copy_vals cfg.values s.settings })
    pure (codes "(server)")
