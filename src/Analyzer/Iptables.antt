-- ===== src/Analyzer/Iptables.antt =====
-- internal/analyzer/network.go: the rules of an iptables-save dump by table and chain, and what is
-- read from one rule.
pub mod Parsed
pub mod Trace
pub mod Steps
pub mod Chains
pub mod Summary
pub mod Correlate
pub mod Decimal
pub mod Listed
use smtx_lab.Prelude.{
  ℕ, zero, suc, ◌+◌, ◌-◌, ◌*◌, ◌/◌, ◌%◌, ◌<◌, ◌≡◌, refl, Bool, false, not, ◌&&◌, ◌||◌, Option, none,
  some, List, [], ◌∷◌, ◌++◌, map, eqb, if◌then◌else◌, ◌==◌, nat_eq, text_eq, any, Text, lit,
  is_empty, Dict, lookup, insert, value_or,
}
use smtx_lab.Prelude.Int.{ℤ, pos, negsuc}
use smtx_lab.Strings.{
  fields, trim_space, trim_prefix, trim_suffix, has_prefix, contains_sub, to_lower,
}

pub record TrafficObservation : Type 0 where
  pub protocol : Text
  pub source_ip : Text
  pub target_ip : Text
  pub service_ip : Text
  pub port : ℤ

-- `map[string]map[string][]string`
abbrev pub IptablesRules : Type 0
IptablesRules = Dict Text (Dict Text (List Text))

unfoldable pub chain_of_words : List Text → Text
unfolding has_prefix trim_prefix
chain_of_words [] = []
chain_of_words (word ∷ []) = []
chain_of_words (word ∷ name ∷ rest) =
    if word == lit "-A" || word == lit "-N"
    then name
    else if has_prefix word (lit ":")
    then trim_prefix word (lit ":")
    else []

unfoldable pub extract_rule_chain : Text → Text
unfolding chain_of_words fields
extract_rule_chain line = chain_of_words (fields line)

-- `rules[table][chain]`, and whether the chain is there.
unfoldable pub chain_rules : IptablesRules → Text → Text → Option (List Text)
unfolding lookup
chain_rules rules table chain = lookup chain (value_or [] (lookup table rules))

-- `rules[table][chain]` as a value: no rules where the chain is missing.
abbrev pub rules_of : IptablesRules → Text → Text → List Text
rules_of rules table chain = value_or [] (chain_rules rules table chain)

-- `out[table][chain] = rules`
unfoldable pub set_rules : Text → Text → List Text → IptablesRules → IptablesRules
unfolding lookup insert
set_rules table chain rules out =
    insert table (insert chain rules (value_or [] (lookup table out))) out

-- `if out[table] == nil { out[table] = map[string][]string{} }`
unfoldable pub open_table : Text → IptablesRules → IptablesRules
unfolding lookup insert
open_table table out = insert table (value_or [] (lookup table out)) out

-- The lines of the chain with this line added where it is a rule.
unfoldable pub note_rule : Text → Text → Text → IptablesRules → IptablesRules
note_rule table chain trimmed out =
    let old = rules_of out table chain in
    set_rules table chain (if has_prefix trimmed (lit "-A ") then old ++ trimmed ∷ [] else old) out

-- The table that the next line is in, and the rules, after a line.
unfoldable pub parse_line : Text → Text × IptablesRules → Text × IptablesRules
parse_line trimmed (table, out) =
    let name = trim_prefix trimmed (lit "*") in
    let chain = extract_rule_chain trimmed in
    if has_prefix trimmed (lit "*")
    then (name, open_table name out)
    else if trimmed == lit "COMMIT"
    then ([], out)
    else if is_empty table || is_empty chain
    then (table, out)
    else (table, note_rule table chain trimmed out)

unfoldable pub parse_from : List Text → Text × IptablesRules → IptablesRules
parse_from [] (table, out) = out
parse_from (line ∷ lines) state = parse_from lines (parse_line (trim_space line) state)

unfoldable pub parse_iptables : List Text → IptablesRules
unfolding parse_from
parse_iptables lines = parse_from lines ([], [])

-- `for idx := 0; idx+1 < len(fields); idx++ { if test(fields[idx]) { return fields[idx+1] } }`
unfoldable pub word_after : (Text → Bool) → List Text → Option Text
word_after test [] = none
word_after test (word ∷ []) = none
word_after test (word ∷ next ∷ rest) =
    let later = word_after test (next ∷ rest) in if test word then some next else later

unfoldable pub jump_target : Text → Text
unfolding word_after fields
jump_target line =
    value_or [] (word_after (λ word. word == lit "-j" || word == lit "-g") (fields line))

unfoldable pub dnat_action : List Text → Text
unfolding word_after fields
dnat_action [] = lit "DNAT endpoint"
dnat_action (line ∷ lines) =
    let later = dnat_action lines in
    elim (word_after (λ word. word == lit "--to-destination") (fields line)) [
      | none ↦ later
      | some target ↦ lit "DNAT " ++ target
    ]

-- The search for the words `direction` and `iface`, side by side.
unfoldable pub has_pair : Text → Text → List Text → Bool
has_pair direction iface [] = false
has_pair direction iface (word ∷ []) = false
has_pair direction iface (word ∷ next ∷ rest) =
    (word == direction && next == iface) || has_pair direction iface (next ∷ rest)

unfoldable pub dispatch_in : List Text → Text → Text → Text
unfolding has_pair fields jump_target
dispatch_in [] direction iface = []
dispatch_in (line ∷ lines) direction iface =
    let later = dispatch_in lines direction iface in
    if has_pair direction iface (fields line) then jump_target line else later

unfoldable pub dispatch_target : IptablesRules → Text → Text → Text → Text → Text
unfolding dispatch_in chain_rules
dispatch_target rules table chain direction iface =
    dispatch_in (rules_of rules table chain) direction iface

-- The device of one route: none where the route is too short, of another address, or names none.
unfoldable pub route_device : Text → List Text → Option Text
unfolding word_after trim_suffix
route_device ip (dest ∷ a ∷ b ∷ rest) =
    if trim_suffix dest (lit "/32") == ip
    then word_after (λ word. word == lit "dev") (a ∷ b ∷ rest)
    else none
route_device ip short = none

unfoldable pub device_in : Text → List Text → Text
unfolding route_device fields
device_in ip [] = []
device_in ip (line ∷ routes) =
    let later = device_in ip routes in
    elim (route_device ip (fields line)) [ none ↦ later | some device ↦ device ]

unfoldable pub workload_interface : List Text → Text → Text
unfolding device_in is_empty
workload_interface routes ip = if is_empty ip then [] else device_in ip routes

unfoldable pub endpoint_dnat_matches : List Text → Text → Bool
unfolding any contains_sub is_empty
endpoint_dnat_matches lines target_ip =
    not (is_empty target_ip)
    && any
        (λ line.
          contains_sub line (lit "--to-destination " ++ (target_ip ++ lit ":"))
          || contains_sub line (lit "--to-destination " ++ (target_ip ++ lit " ")))
        lines

unfoldable pub find_matching_rule : List Text → (Text → Bool) → Text
find_matching_rule [] matches = []
find_matching_rule (line ∷ lines) matches =
    let later = find_matching_rule lines matches in if matches line then line else later

-- The digits that the loop writes, on fuel: the 11 bytes of `digits` are more than a number of 32
-- bits has.
unfoldable pub digits_on : ℕ → ℕ → Text → Text
digits_on zero value digits = digits
digits_on (suc fuel) value digits =
    let rest = digits_on fuel (value / 10) ((b'0' + value % 10) ∷ digits) in
    if eqb value 0 then digits else rest

unfoldable pub int32_string : ℤ → Text
unfolding digits_on
int32_string (pos zero) = lit "0"
int32_string (pos (suc n)) = digits_on 11 (suc n) []
int32_string (negsuc n) = []

unfoldable pub iptables_protocol : Text → Text
unfolding to_lower
iptables_protocol protocol =
    let lower = to_lower protocol in
    if lower == lit "http" || lower == lit "https" then lit "tcp" else lower

int32_string_test : int32_string (pos 8080) ≡ lit "8080"
unfolding int32_string digits_on lit
int32_string_test = refl
