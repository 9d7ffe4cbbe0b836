-- ===== src/Analyzer/Iptables/Parsed.antt =====
-- `parseIptables` of internal/analyzer/network.go, against a reading section by section.
use smtx_lab.Prelude.{
  ◌≡◌, refl, sym, ap, ◌∙◌, inl, inr, Bool, true, false, ◌&&◌, ◌||◌, some, List, [], ◌∷◌, ◌++◌,
  append-nil, append_assoc, arith, if◌then◌else◌, ◌==◌, eq_iff, nat_eq, text_eq, Bool-cases,
  if_both, Text, lit, text_beq, is_empty, lookup, insert, lookup-insert, value_or,
}
use smtx_lab.Strings.{trim_space, trim_prefix, has_prefix}
use smtx_lab.Analyzer.Iptables.{
  parse_iptables, parse_from, parse_line, rules_of, note_rule, IptablesRules, extract_rule_chain,
  chain_rules, set_rules, open_table,
}

-- The section that the lines after `trimmed` are in.
unfoldable pub section_after : Text → Text → Text
section_after trimmed table =
    if has_prefix trimmed (lit "*")
    then trim_prefix trimmed (lit "*")
    else if trimmed == lit "COMMIT"
    then []
    else table

-- A line of the section `table` that is a rule of `chain`.
abbrev pub is_rule_of : Text → Text → Text → Text → Bool
is_rule_of table chain section trimmed =
    section == table && (extract_rule_chain trimmed == chain && has_prefix trimmed (lit "-A "))

-- The rules of a chain, read from the dump section by section.
unfoldable pub rules_in : Text → Text → List Text → Text → List Text
rules_in table chain [] section = []
rules_in table chain (line ∷ lines) section =
    let rest = rules_in table chain lines (section_after (trim_space line) section) in
    if is_rule_of table chain section (trim_space line) then trim_space line ∷ rest else rest

chain_rules-open_table :
    (name t c : Text) (out : IptablesRules)
    → chain_rules (open_table name out) t c ≡ chain_rules out t c
unfolding open_table chain_rules
chain_rules-open_table name t c out = elim (Bool-cases (name == t)) [
  | inl e ↦
      rw (lookup-insert name t (value_or [] (lookup name out)) out, e, (eq_iff name t).0 e) refl
  | inr e ↦ rw (lookup-insert name t (value_or [] (lookup name out)) out, e) refl
]

chain_rules-set_rules :
    (table chain t c : Text) (rules : List Text) (out : IptablesRules)
    → chain_rules (set_rules table chain rules out) t c
      ≡ (if table == t && chain == c then some rules else chain_rules out t c)
unfolding set_rules chain_rules
chain_rules-set_rules table chain t c rules out =
    let inner = insert chain rules (value_or [] (lookup table out)) in
    elim (Bool-cases (table == t)) [
      | inl e ↦
          rw
            (
              lookup-insert table t inner out,
              e,
              lookup-insert chain c rules (value_or [] (lookup table out)),
              (eq_iff table t).0 e,
            )
            refl
      | inr e ↦ rw (lookup-insert table t inner out, e) refl
    ]

-- A rule's line starts no section and ends none.
rule_stays :
    (s : Text)
    → has_prefix s (lit "-A ") ≡ true
    → (has_prefix s (lit "*") ≡ false) × ((s == lit "COMMIT") ≡ false)
unfolding has_prefix lit text_beq
rule_stays [] h = cc
rule_stays (c ∷ s) h = ground arith

abbrev new_rules : Text → Text → Text → Text → List Text
new_rules t c section trimmed = if is_rule_of t c section trimmed then trimmed ∷ [] else []

rules_of-note_rule :
    (t c section trimmed : Text) (out : IptablesRules)
    → rules_of (note_rule section (extract_rule_chain trimmed) trimmed out) t c
      ≡ rules_of out t c ++ new_rules t c section trimmed
unfolding note_rule
rules_of-note_rule t c section trimmed out =
    let chain = extract_rule_chain trimmed in
    let old = rules_of out section chain in
    let rules = if has_prefix trimmed (lit "-A ") then old ++ trimmed ∷ [] else old in
    elim (Bool-cases (section == t)) [
      | inr e ↦
          rw (chain_rules-set_rules section chain t c rules out, e, append-nil (rules_of out t c))
            refl
      | inl e ↦ elim (Bool-cases (chain == c)) [
        | inr d ↦
            rw
              (
                chain_rules-set_rules section chain t c rules out,
                e,
                d,
                append-nil (rules_of out t c),
              )
              refl
        | inl d ↦
            rw
              (
                chain_rules-set_rules section chain t c rules out,
                e,
                d,
                ← (eq_iff section t).0 e,
                ← (eq_iff chain c).0 d,
              )
              (if_both
                (λ r. r ≡ old ++ (if has_prefix trimmed (lit "-A ") then trimmed ∷ [] else []))
                (has_prefix trimmed (lit "-A ")) (λ p. rw p refl)
                (λ p. rw p (sym (append-nil old))))
      ]
    ]

-- Nothing is new where the line is no rule.
no_rule :
    (t c section trimmed : Text)
    → has_prefix trimmed (lit "-A ") ≡ false
    → new_rules t c section trimmed ≡ []
no_rule t c section trimmed h = ground (arith, h)

not_rule : (b p : Bool) → (p ≡ true → b ≡ false) → b ≡ true → p ≡ false
not_rule b p h e = ground (arith, h)

pub empty_differs : (s t : Text) → is_empty s ≡ true → is_empty t ≡ false → (s == t) ≡ false
unfolding is_empty text_beq
empty_differs [] [] h k = cc
empty_differs [] (d ∷ t) h k = refl
empty_differs (c ∷ s) t h k = cc

cons_if :
    (b : Bool) (x : Text) (rest : List Text)
    → (if b then x ∷ [] else []) ++ rest ≡ (if b then x ∷ rest else rest)
cons_if true x rest = refl
cons_if false x rest = refl

module _ (t c : Text) (named : is_empty t ≡ false) (chained : is_empty c ≡ false) where
  nothing_named :
      (section trimmed : Text)
      → (is_empty section || is_empty (extract_rule_chain trimmed)) ≡ true
      → new_rules t c section trimmed ≡ []
  nothing_named section trimmed h = elim (Bool-cases (is_empty section)) [
    | inl e ↦ rw (empty_differs section t e named) refl
    | inr e ↦
        let chain = extract_rule_chain trimmed in
        let d : (chain == c) ≡ false = empty_differs chain c (rw e at h) chained in
        no_chain (section == t) d
  ]
    where
      no_chain :
          (b : Bool)
          → (extract_rule_chain trimmed == c) ≡ false
          → (if b && (extract_rule_chain trimmed == c && has_prefix trimmed (lit "-A "))
              then trimmed ∷ []
              else [])
            ≡ []
      no_chain true d = rw d refl
      no_chain false d = refl

  -- One line of the loop: the section moves on, and the chain gets the line where it is its rule.
  parse_line_step :
      (section trimmed : Text) (out : IptablesRules)
      → ((parse_line trimmed (section, out)).0 ≡ section_after trimmed section)
        × (rules_of (parse_line trimmed (section, out)).1 t c
            ≡ rules_of out t c ++ new_rules t c section trimmed)
  unfolding parse_line section_after
  parse_line_step section trimmed out = elim (Bool-cases (has_prefix trimmed (lit "*"))) [
    | inl e ↦
        let no = no_rule t c section trimmed (not_rule _ _ (λ h. (rule_stays trimmed h).0) e) in
        rw (e, no, append-nil (rules_of out t c))
          (refl, ap (λ r. value_or [] r) (chain_rules-open_table _ t c out))
    | inr e ↦ elim (Bool-cases (trimmed == lit "COMMIT")) [
      | inl d ↦
          let no = no_rule t c section trimmed (not_rule _ _ (λ h. (rule_stays trimmed h).1) d) in
          rw (e, d, no, append-nil (rules_of out t c)) (refl, refl)
      | inr d ↦ elim (Bool-cases (is_empty section || is_empty (extract_rule_chain trimmed))) [
        | inl b ↦
            rw (e, d, b, nothing_named section trimmed b, append-nil (rules_of out t c))
              (refl, refl)
        | inr b ↦ rw (e, d, b) (refl, rules_of-note_rule t c section trimmed out)
      ]
    ]
  ]

  rules_of-parse_from :
      (lines : List Text) (section : Text) (out : IptablesRules)
      → rules_of (parse_from lines (section, out)) t c
        ≡ rules_of out t c ++ rules_in t c lines section
  unfolding parse_from rules_in
  rules_of-parse_from [] section out = sym (append-nil (rules_of out t c))
  rules_of-parse_from (line ∷ lines) section out =
      let trimmed = trim_space line in
      let next = parse_line trimmed (section, out) in
      let (moves, gains) = parse_line_step section trimmed out in
      let below = rules_of-parse_from lines next.0 next.1 in
      let new = new_rules t c section trimmed in
      let split =
        cons_if (is_rule_of t c section trimmed) trimmed
          (rules_in t c lines (section_after trimmed section)) in
      below
      ∙ ap (λ v. v ++ rules_in t c lines next.0) gains
      ∙ append_assoc (rules_of out t c) new (rules_in t c lines next.0)
      ∙ ap (λ w. rules_of out t c ++ w)
          (ap (λ at_section. new ++ rules_in t c lines at_section) moves ∙ split)

-- The rules that `parseIptables` holds for a chain of a table, both with a name, are the trimmed lines
-- `-A <chain> …` of that table's sections of the dump, in order: a section starts at a line `*<table>`
-- and ends at the next one or at `COMMIT`.
pub parse_iptables-eq-rules_in :
    (lines : List Text) (table chain : Text)
    → is_empty table ≡ false
    → is_empty chain ≡ false
    → rules_of (parse_iptables lines) table chain ≡ rules_in table chain lines []
unfolding parse_iptables chain_rules lookup
parse_iptables-eq-rules_in lines table chain named chained =
    rules_of-parse_from table chain named chained lines [] []
