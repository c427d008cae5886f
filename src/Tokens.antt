-- ===== src/Tokens.antt =====
-- The token lists that the constructor of `Tokens` builds (src/tokens.h).
pub mod Enums
use greylist.Base.{
  none, some, Option, ℕ, Bool, true, false, List, [], ◌∷◌, Bytes, codes, Result, ok, err,
}
use greylist.TokenList.{TokenList, empty, add_token, add_token_default}
use Enums.{SectionToken, database, datasource, match, policy, server}

unfoldable pub postfix_tokens : TokenList
unfolding empty add_token add_token_default
postfix_tokens =
    let l0 = add_token empty (codes "client_address") true in
    let l1 = add_token l0 (codes "sender") true in
    let l2 = add_token l1 (codes "recipient") true in
    let l3 = add_token l2 (codes "reverse_client_name") false in
    add_token l3 (codes "client_name") false

unfoldable pub config_columns_tokens : TokenList
unfolding empty add_token add_token_default
config_columns_tokens =
    let l0 = add_token empty (codes "client_address") false in
    let l1 = add_token l0 (codes "sender") false in
    let l2 = add_token l1 (codes "recipient") false in
    let l3 = add_token l2 (codes "reverse_client_name") false in
    let l4 = add_token l3 (codes "client_name") false in
    let l5 = add_token l4 (codes "short_reverse_client_name") false in
    let l6 = add_token l5 (codes "short_client_name") false in
    let l7 = add_token l6 (codes "triplet_string") false in add_token l7 (codes "network") false

unfoldable pub config_sections_tokens : TokenList
unfolding empty add_token add_token_default
config_sections_tokens =
    let l0 = add_token empty (codes "database") false in
    let l1 = add_token l0 (codes "datasource") false in
    let l2 = add_token l1 (codes "match") false in
    let l3 = add_token l2 (codes "policy") false in add_token l3 (codes "server") false

unfoldable pub config_mode_tokens : TokenList
unfolding empty add_token add_token_default
config_mode_tokens =
    let l0 = add_token empty (codes "reverse") false in
    let l1 = add_token l0 (codes "weak") false in add_token l1 (codes "normal") false

unfoldable pub database_tokens : TokenList
unfolding empty add_token add_token_default
database_tokens =
    let l0 = add_token empty (codes "name") true in
    let l1 = add_token l0 (codes "type") true in
    add_token_default l1 (codes "spareconnections") true (codes "10")

unfoldable pub datasource_tokens : TokenList
unfolding empty add_token add_token_default
datasource_tokens =
    let l0 = add_token empty (codes "name") true in
    let l1 = add_token l0 (codes "type") true in
    let l2 = add_token l1 (codes "table") false in add_token l2 (codes "database") false

unfoldable pub datasource_types : TokenList
unfolding empty add_token add_token_default
datasource_types = add_token empty (codes "db") false

unfoldable pub match_tokens : TokenList
unfolding empty add_token add_token_default
match_tokens =
    let l0 = add_token empty (codes "name") true in
    let l1 = add_token l0 (codes "type") true in
    let l2 = add_token l1 (codes "datasource") false in
    let l3 = add_token l2 (codes "lookup") false in
    let l4 = add_token l3 (codes "match") false in add_token l4 (codes "return") false

unfoldable pub match_types : TokenList
unfolding empty add_token add_token_default
match_types =
    let l0 = add_token empty (codes "exact match") false in
    let l1 = add_token l0 (codes "pattern match") false in
    let l2 = add_token l1 (codes "cached exact match") false in
    let l3 = add_token l2 (codes "cached pattern match") false in add_token l3 (codes "all") false

unfoldable pub policy_tokens : TokenList
unfolding empty add_token add_token_default
policy_tokens =
    let l0 = add_token empty (codes "name") false in
    let l1 = add_token l0 (codes "type") true in
    let l2 = add_token l1 (codes "match") true in
    let l3 = add_token l2 (codes "datasource") false in
    let l4 = add_token_default l3 (codes "mode") true (codes "reverse") in
    let l5 = add_token_default l4 (codes "weakbytes") true (codes "4") in
    add_token l5 (codes "timeout") false

unfoldable pub policy_types : TokenList
unfolding empty add_token add_token_default
policy_types =
    let l0 = add_token empty (codes "whitelist") false in add_token l0 (codes "greylist") false

unfoldable pub server_tokens : TokenList
unfolding empty add_token add_token_default
server_tokens =
    let l0 = add_token_default empty (codes "port") true (codes "4096") in
    let l1 = add_token_default l0 (codes "listen") true (codes "0.0.0.0") in
    let l2 = add_token_default l1 (codes "sparethreads") true (codes "2") in
    let l3 = add_token_default l2 (codes "maxthreads") true (codes "150") in
    let l4 = add_token_default l3 (codes "maxrequests") true (codes "0") in
    let l5 = add_token_default l4 (codes "cacherefresh") true (codes "600") in
    let l6 = add_token_default l5 (codes "poolrefresh") true (codes "5") in
    let l7 = add_token_default l6 (codes "deferwithstatus") true (codes "true") in
    let l8 =
      add_token_default l7 (codes "defer") true (codes "defer_if_permit Service is unavailable") in
    let l9 = add_token_default l8 (codes "dunno") true (codes "dunno") in
    let l10 = add_token_default l9 (codes "onerror") true (codes "dunno") in
    let l11 = add_token_default l10 (codes "log") true (codes "minimal") in
    add_token_default l11 (codes "stats") true (codes "120")

unfoldable pub config_boolean_tokens : TokenList
unfolding empty add_token add_token_default
config_boolean_tokens =
    let l0 = add_token empty (codes "false") false in add_token l0 (codes "true") false

unfoldable pub postfix_response_tokens : TokenList
unfolding empty add_token add_token_default
postfix_response_tokens =
    let l0 = add_token empty (codes "dunno") false in add_token l0 (codes "defer_if_permit") false

unfoldable pub log_tokens : TokenList
unfolding empty add_token add_token_default
log_tokens = let l0 = add_token empty (codes "minimal") false in add_token l0 (codes "full") false

-- `_configTokens` and then `_configTypeTokens`, by the section.
unfoldable pub config_tokens : SectionToken → TokenList
config_tokens database = database_tokens
config_tokens datasource = datasource_tokens
config_tokens match = match_tokens
config_tokens policy = policy_tokens
config_tokens server = server_tokens

-- The server has no list of types: `at` throws.
unfoldable pub config_type_tokens : SectionToken → Option TokenList
unfolding empty datasource_types match_types policy_types
config_type_tokens database = some empty
config_type_tokens datasource = some datasource_types
config_type_tokens match = some match_types
config_type_tokens policy = some policy_types
config_type_tokens server = none
