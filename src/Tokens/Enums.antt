-- ===== src/Tokens/Enums.antt =====
-- The enumerations of src/tokens.h: each names the positions of one of the token lists.
use greylist.Base.{ℕ}

pub data PostfixToken : Type 0 where
  client_address sender recipient reverse_client_name client_name : PostfixToken

abbrev pub postfix_index : PostfixToken → ℕ
postfix_index client_address = 0
postfix_index sender = 1
postfix_index recipient = 2
postfix_index reverse_client_name = 3
postfix_index client_name = 4

pub data SectionToken : Type 0 where
  database datasource match policy server : SectionToken

abbrev pub section_index : SectionToken → ℕ
section_index database = 0
section_index datasource = 1
section_index match = 2
section_index policy = 3
section_index server = 4

pub data DatabaseToken : Type 0 where
  name type spareconnections : DatabaseToken

abbrev pub database_index : DatabaseToken → ℕ
database_index name = 0
database_index type = 1
database_index spareconnections = 2

pub data DataSourceToken : Type 0 where
  name type table database : DataSourceToken

abbrev pub datasource_index : DataSourceToken → ℕ
datasource_index name = 0
datasource_index type = 1
datasource_index table = 2
datasource_index database = 3

pub data MatchToken : Type 0 where
  name type datasource lookup match returned : MatchToken

abbrev pub match_index : MatchToken → ℕ
match_index name = 0
match_index type = 1
match_index datasource = 2
match_index lookup = 3
match_index match = 4
match_index returned = 5

pub data PolicyToken : Type 0 where
  name type match datasource mode weakbytes timeout : PolicyToken

abbrev pub policy_index : PolicyToken → ℕ
policy_index name = 0
policy_index type = 1
policy_index match = 2
policy_index datasource = 3
policy_index mode = 4
policy_index weakbytes = 5
policy_index timeout = 6

pub data GreylistToken : Type 0 where
  reverse weak normal : GreylistToken

abbrev pub greylist_index : GreylistToken → ℕ
greylist_index reverse = 0
greylist_index weak = 1
greylist_index normal = 2

pub data MatchTypeToken : Type 0 where
  exact_match pattern_match cached_exact_match cached_pattern_match all : MatchTypeToken

abbrev pub match_type_index : MatchTypeToken → ℕ
match_type_index exact_match = 0
match_type_index pattern_match = 1
match_type_index cached_exact_match = 2
match_type_index cached_pattern_match = 3
match_type_index all = 4

pub data DataSourceTypeToken : Type 0 where
  db : DataSourceTypeToken

abbrev pub datasource_type_index : DataSourceTypeToken → ℕ
datasource_type_index db = 0

pub data PolicyTypeToken : Type 0 where
  whitelist_type greylist_type : PolicyTypeToken

abbrev pub policy_type_index : PolicyTypeToken → ℕ
policy_type_index whitelist_type = 0
policy_type_index greylist_type = 1

pub data ServerToken : Type 0 where
  port listen sparethreads maxthreads maxrequests cacherefresh poolrefresh deferwithstatus defer
        dunno onerror log statsevery :
      ServerToken

abbrev pub server_index : ServerToken → ℕ
server_index port = 0
server_index listen = 1
server_index sparethreads = 2
server_index maxthreads = 3
server_index maxrequests = 4
server_index cacherefresh = 5
server_index poolrefresh = 6
server_index deferwithstatus = 7
server_index defer = 8
server_index dunno = 9
server_index onerror = 10
server_index log = 11
server_index statsevery = 12

pub data BooleanToken : Type 0 where
  falsity truth : BooleanToken

abbrev pub boolean_index : BooleanToken → ℕ
boolean_index falsity = 0
boolean_index truth = 1

pub data PostfixResponseToken : Type 0 where
  dunno defer : PostfixResponseToken

abbrev pub response_index : PostfixResponseToken → ℕ
response_index dunno = 0
response_index defer = 1

pub data LogToken : Type 0 where
  minimal full : LogToken

abbrev pub log_index : LogToken → ℕ
log_index minimal = 0
log_index full = 1
