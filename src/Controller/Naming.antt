-- ===== src/Controller/Naming.antt =====
-- internal/controller/networkprobelab_controller.go: the names of jobs and ConfigMaps.
pub mod Label
use smtx_lab.Prelude.{
  ℕ, ◌+◌, ◌-◌, ◌/◌, ◌≡◌, refl, Bool, true, false, not, ◌&&◌, ◌||◌, [], ◌∷◌, ◌++◌, ltb, leb, eqb,
  if◌then◌else◌, nat_eq, text_eq, length, take, Text, lit, is_empty,
}
use smtx_lab.Strings.{to_lower, trim_left, trim_right}
use smtx_lab.Crypto.{sha1, hex}

unfoldable pub is_alnum : ℕ → Bool
is_alnum r = (leb b'a' r && leb r b'z') || (leb b'0' r && leb r b'9')

-- the loop over the runes; `last_dash` is `lastDash`
unfoldable pub replace_runs : Text → Bool → Text
unfolding is_alnum
replace_runs [] last_dash = []
replace_runs (r ∷ value) last_dash =
    let after_alnum = replace_runs value false in
    let after_other = replace_runs value true in
    if is_alnum r
    then r ∷ after_alnum
    else if not last_dash
    then b'-' ∷ after_other
    else after_other

abbrev pub is_dash : ℕ → Bool
is_dash c = eqb c b'-'

unfoldable pub sanitize_name : Text → Text
unfolding replace_runs is_empty
sanitize_name value =
    let out = trim_right is_dash (trim_left is_dash (replace_runs (to_lower value) false)) in
    if is_empty out then lit "lab" else out

unfoldable pub short_hash : Text → Text
short_hash value = take 10 (hex (sha1 value))

-- `base[:maxBase]` with the trailing dashes off, where the base is too long
unfoldable pub bounded_base : Text → ℕ → Text
bounded_base base max_base =
    if ltb max_base (length base) then trim_right is_dash (take max_base base) else base

unfoldable pub probe_job_name : Text → Text → Text
unfolding bounded_base
probe_job_name lab_name source_node =
    let base = lit "npl-" ++ sanitize_name lab_name in
    let hash = short_hash source_node in
    bounded_base base (63 - length hash - 1) ++ (lit "-" ++ hash)

unfoldable pub snapshot_config_map_name : Text → Text → Text
unfolding bounded_base
snapshot_config_map_name lab_name node_name =
    let base = lit "npl-snapshot-" ++ sanitize_name lab_name in
    let hash = short_hash node_name in bounded_base base (63 - length hash - 1) ++ (lit "-" ++ hash)

-- `excelName` and `htmlName`, at the format strings of the two
unfoldable pub excel_name : Text → Text → Text → Text
unfolding is_empty
excel_name configured lab_name suffix =
    if not (is_empty configured)
    then configured
    else lab_name ++ (lit "-" ++ (suffix ++ lit "-report"))

unfoldable pub html_name : Text → Text → Text → Text
unfolding is_empty
html_name configured lab_name suffix =
    if not (is_empty configured)
    then configured
    else lab_name ++ (lit "-" ++ (suffix ++ lit "-html-report"))

sanitize_test : sanitize_name (lit "--My Lab_01!") ≡ lit "my-lab-01"
unfolding sanitize_name lit to_lower trim_left trim_right
sanitize_test = refl

sanitize_empty : sanitize_name (lit "___") ≡ lit "lab"
unfolding sanitize_name lit to_lower trim_left trim_right
sanitize_empty = refl
