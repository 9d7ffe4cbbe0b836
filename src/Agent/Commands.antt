-- ===== src/Agent/Commands.antt =====
-- internal/agent/commands.go: the outputs of commands, cut to a size, split into lines and filtered.
-- `exec` is an argument: the result of `run` for the command line.
pub mod Bounds
pub mod Filters
use smtx_lab.Prelude.Int.{ℤ, pos, is_pos, pos_part}
use smtx_lab.Strings.{fields, has_prefix, trim_prefix, trim_space, to_lower}
use smtx_lab.Agent.Types.{CommandSnapshot, IpvsSnapshot, ConntrackFilter, no_command, no_ipvs}
use smtx_lab.Agent.Glob.{path_match}
use smtx_lab.Agent.Cni.{FileRead, contents, failed, join_path}
use smtx_lab.Prelude.{
  ℕ, zero, ◌+◌, ◌-◌, ◌*◌, ◌/◌, ◌≡◌, refl, Bool, true, false, not, ◌&&◌, ◌||◌, Option, none, some,
  List, [], ◌∷◌, ◌++◌, map, ltb, leb, eqb, if◌then◌else◌, ◌==◌, nat_eq, text_eq, length, take,
  filter, any, Text, lit, text_beq, is_empty, contains,
}

-- The byte slice of `boundedLines`: the data that is kept, and whether it was cut.
unfoldable pub bounded_data : Text → ℤ → Text × Bool
bounded_data bytes max_bytes =
    if is_pos max_bytes && ltb (pos_part max_bytes) (length bytes)
    then (take (pos_part max_bytes) bytes, true)
    else (bytes, false)

-- `dropCR` of package `bufio`
unfoldable pub drop_cr : Text → Text
drop_cr [] = []
drop_cr (c ∷ []) = if eqb c 13 then [] else c ∷ []
drop_cr (c ∷ d ∷ s) = c ∷ drop_cr (d ∷ s)

-- A `bufio.Scanner` over lines: `line` is what has been read of the current one. A line that does not
-- fit the buffer ends the scan.
unfoldable pub scan_lines : ℕ → Text → Text → List Text
unfolding drop_cr is_empty
scan_lines cap [] line =
    if is_empty line then [] else if leb cap (length line) then [] else drop_cr line ∷ []
scan_lines cap (c ∷ s) line =
    let next = scan_lines cap s [] in
    let longer = scan_lines cap s (line ++ c ∷ []) in
    if leb cap (length line) then [] else if eqb c 10 then drop_cr line ∷ next else longer

abbrev pub max_token : ℕ
max_token = 1024 * 1024

unfoldable pub bounded_lines : Text → ℤ → List Text × Bool
unfolding bounded_data scan_lines
bounded_lines bytes max_bytes =
    let (kept, truncated) = bounded_data bytes max_bytes in
    (scan_lines max_token kept [], truncated)

-- the chain of the words of a rule
unfoldable pub chain_of_fields : List Text → Text
unfolding trim_prefix has_prefix
chain_of_fields [] = []
chain_of_fields (f ∷ []) = []
chain_of_fields (f ∷ g ∷ rest) =
    if f == lit ":"
    then g
    else if f == lit "-A" || f == lit "-N"
    then g
    else if has_prefix f (lit ":")
    then trim_prefix f (lit ":")
    else []

unfoldable pub iptables_chain : Text → Text
unfolding chain_of_fields fields
iptables_chain line = chain_of_fields (fields line)

unfoldable pub chain_allowed : Text → List Text → Bool
unfolding any
chain_allowed chain allowlist =
    any (λ pattern_. path_match pattern_ chain || pattern_ == chain) allowlist

-- the test of the loop of `filterIptablesLines`
abbrev pub keeps_line : List Text → Text → Bool
keeps_line allowlist line =
    iptables_chain line == [] || chain_allowed (iptables_chain line) allowlist

unfoldable pub filter_iptables_lines : List Text → List Text → List Text
unfolding is_empty filter chain_allowed iptables_chain
filter_iptables_lines lines allowlist =
    if is_empty allowlist then lines else filter (keeps_line allowlist) lines

abbrev pub max_entries_of : ConntrackFilter → ℕ
max_entries_of f = if is_pos f.max_entries then pos_part f.max_entries else 2000

-- the tests of the loop of `filterConntrackLines`, on the words of the line
unfoldable pub protocol_matches : List Text → List Text → Bool
unfolding contains is_empty to_lower
protocol_matches protocols [] = false
protocol_matches protocols (word ∷ rest) = is_empty protocols || contains protocols (to_lower word)

-- the loop, with the lines that `out` still takes
unfoldable pub conntrack_loop : List Text → ℕ → List Text → List Text → List Text
unfolding protocol_matches fields
conntrack_loop protocols max_entries [] out = out
conntrack_loop protocols max_entries (line ∷ rest) out =
    let longer = out ++ line ∷ [] in
    let skip = conntrack_loop protocols max_entries rest out in
    let next = conntrack_loop protocols max_entries rest longer in
    if not (protocol_matches protocols (fields line))
    then skip
    else if leb max_entries (length longer)
    then longer
    else next

unfoldable pub filter_conntrack_lines : List Text → ConntrackFilter → List Text
unfolding conntrack_loop
filter_conntrack_lines lines f =
    conntrack_loop (map to_lower f.protocols) (max_entries_of f) lines []

-- What an `exec.Cmd` leaves: its output, its error, what it wrote to stderr, and the error of the
-- context with the timeout.
pub record Outcome : Type 0 where
  pub output : Text
  pub err : Option Text
  pub stderr : Text
  pub ctx_err : Option Text

pub data Result {ℓ} (A : Type ℓ) : Type ℓ where
  ok : A → Result A
  err : Text → Result A

-- A command line, and what running it gives; the timeout is inside.
abbrev pub Exec : Type 0
Exec = List Text → Outcome

unfoldable pub run : Exec → List Text → Result Text
unfolding is_empty
run exec command =
    let o = exec command in
    elim o.ctx_err [
      | some e ↦ err e
      | none ↦ elim o.err [
        | some e ↦ if is_empty o.stderr then err e else err (trim_space o.stderr)
        | none ↦ ok o.output
      ]
    ]

-- `CollectIptables`, `CollectConntrack` and `CollectRoutes` are this, with their command and filter.
unfoldable pub collect_command :
    (List Text → List Text) → ℤ → Result Text → CommandSnapshot × Option Text
unfolding bounded_lines
collect_command keep max_output_bytes (err e) = (no_command, some e)
collect_command keep max_output_bytes (ok out) =
    let (lines, truncated) = bounded_lines out max_output_bytes in
    let filtered = keep lines in
    (
      record {
        available = true;
        captured = true;
        truncated = truncated;
        lines = filtered;
        line_count = length filtered;
      },
      none,
    )

unfoldable pub collect_iptables : Exec → ℤ → List Text → CommandSnapshot × Option Text
unfolding collect_command run
collect_iptables exec max_output_bytes allowlist =
    collect_command (λ lines. filter_iptables_lines lines allowlist) max_output_bytes
      (run exec (lit "iptables-save" ∷ []))

unfoldable pub collect_conntrack : Exec → ℤ → ConntrackFilter → CommandSnapshot × Option Text
unfolding collect_command run
collect_conntrack exec max_output_bytes f =
    collect_command (λ lines. filter_conntrack_lines lines f) max_output_bytes
      (run exec (lit "conntrack" ∷ lit "-L" ∷ []))

unfoldable pub collect_routes : Exec → ℤ → CommandSnapshot × Option Text
unfolding collect_command run
collect_routes exec max_output_bytes =
    collect_command (λ lines. lines) max_output_bytes
      (run exec (lit "ip" ∷ lit "-o" ∷ lit "route" ∷ lit "show" ∷ []))

abbrev is_service : Text → Bool
is_service line =
    has_prefix (trim_space line) (lit "TCP") || has_prefix (trim_space line) (lit "UDP")

abbrev is_real_server : Text → Bool
is_real_server line = has_prefix (trim_space line) (lit "->")

-- the loop that counts, from the zero counters
unfoldable pub count_ipvs : List Text → ℕ → ℕ → ℕ × ℕ
count_ipvs [] services servers = (services, servers)
count_ipvs (line ∷ rest) services servers =
    count_ipvs rest (if is_service line then services + 1 else services)
      (if is_real_server line then servers + 1 else servers)

unfoldable pub ipvs_of_lines : List Text → IpvsSnapshot
unfolding count_ipvs
ipvs_of_lines lines =
    let (services, servers) = count_ipvs lines 0 0 in
    record {
      available = true;
      enabled = ltb 0 (length lines);
      service_count = services;
      real_server_count = servers;
      lines = lines;
    }

-- `read` is `os.ReadFile`.
unfoldable pub ipvs_of_read : ℤ → FileRead → IpvsSnapshot × Option Text
unfolding ipvs_of_lines bounded_lines
ipvs_of_read max_output_bytes (failed e missing) = (no_ipvs, if missing then none else some e)
ipvs_of_read max_output_bytes (contents b) =
    (ipvs_of_lines (bounded_lines b max_output_bytes).0, none)

unfoldable pub collect_ipvs : (Text → FileRead) → Text → ℤ → IpvsSnapshot × Option Text
unfolding ipvs_of_read is_empty
collect_ipvs read_file proc_root max_output_bytes =
    let root = if is_empty proc_root then lit "/proc" else proc_root in
    ipvs_of_read max_output_bytes (read_file (join_path root (join_path (lit "net") (lit "ip_vs"))))

lines_test : bounded_lines (97 ∷ 13 ∷ 10 ∷ 10 ∷ 98 ∷ []) (pos 4) ≡ (lit "a" ∷ [] ∷ [], true)
unfolding bounded_lines lit
lines_test = refl

conntrack_test :
    filter_conntrack_lines
      (lit "tcp 6 a" ∷ [] ∷ lit "UDP 17" ∷ lit "tcp 6 b" ∷ [])
      (record { protocols = lit "TCP" ∷ []; max_entries = pos 1 })
    ≡ lit "tcp 6 a" ∷ []
unfolding filter_conntrack_lines lit text_beq
conntrack_test = refl
