-- ===== src/Config/Reader.antt =====
-- Whatever a configuration file holds, reading it ends without a failed assertion.
use coherent.Common.{
  ℕ, ◌+◌, ◌≤◌, ◌<◌, ◌≡◌, refl, subst, arith, false, List, [], ◌∷◌, length, All, Bool-cases,
  Option-cases, none, some, inl, inr,
}
use coherent.Common.{Exception, Complaint, Ends, Ends-mono, Ends->>=}
use coherent.Config.{
  Text, is_empty, line_is_white, strip_comments, reg_attr, reg_sect, before_key, Key, Values,
  insert, lower_bound, is_at, State, RegexMatch, entered, read_attr, read_sect, read_line,
  read_lines, lines_of, ini_config,
}
use coherent.Config.Lines.{
  Matches, IsSound, IsAttrLine, attr_line, get_attr_lem, get_val_lem, sect_line,
}

-- An entry has a section and an attribute, and its value is not blank.
abbrev pub IsEntry : Key × Text → Type 0
IsEntry e = (is_empty e.0.0 ≡ false) × (is_empty e.0.1 ≡ false) × (line_is_white e.1 ≡ false)

-- The complaint is about the line `n`.
abbrev pub IsAbout : ℕ → Exception → Type 0
IsAbout n e = (c : Complaint) × (e ≡ Exception.config_exception (some n) c)

insert-All :
    (P : Key × Text → Type 0) (e : Key × Text) (m m' : Values)
    → P e
    → All P m
    → insert e m ≡ some m'
    → All P m'
unfolding insert
insert-All P e [] m' p h same = let added : e ∷ [] ≡ m' = cc in subst (All P) added (p, tt)
insert-All P e (x ∷ m) m' p h same = elim (Bool-cases (before_key e.0 x.0)) [
  | inl first ↦
      let inserted : some (e ∷ x ∷ m) ≡ some m' = rw first at same in
      let added : e ∷ x ∷ m ≡ m' = cc in subst (All P) added (p, h)
  | inr later ↦ elim (Bool-cases (before_key x.0 e.0)) [
    | inr there ↦ let refused : none ≡ some m' = rw (later, there) at same in cc
    | inl behind ↦ elim (Option-cases (insert e m)) [
      | inl refused ↦ let none_left : none ≡ some m' = rw (refused, later, behind) at same in cc
      | inr (rest, inserted) ↦
          let whole : some (x ∷ rest) ≡ some m' = rw (inserted, later, behind) at same in
          let added : x ∷ rest ≡ m' = cc in
          subst (All P) added (h.0, insert-All P e m rest p h.1 inserted)
    ]
  ]
]

-- What the reading has come to.
abbrev pub HasEntries : State → Type 0
HasEntries st = All IsEntry st.values

read_attr-Ends :
    (n : ℕ) (st : State) (line name value : Text)
    → IsAttrLine line name value
    → HasEntries st
    → Ends HasEntries (IsAbout n) (read_attr n st line)
unfolding read_attr entered
read_attr-Ends n st line name value shape h = elim (Bool-cases (is_empty st.cur_sect)) [
  | inl nowhere ↦ rw nowhere (Complaint.no_section, refl)
  | inr inside ↦
      let e : Key × Text = ((st.cur_sect, name), value) in
      elim (Option-cases (insert e st.values)) [
        | inl refused ↦
            rw
              (
                inside,
                get_val_lem line name value shape,
                get_attr_lem line name value shape,
                refused,
              )
              (Complaint.duplicate_entry, refl)
        | inr (m, inserted) ↦
            rw
              (
                inside,
                get_val_lem line name value shape,
                get_attr_lem line name value shape,
                inserted,
              )
              (insert-All IsEntry e st.values m (inside, shape.named, shape.shown) h inserted)
      ]
]

read_sect-Ends :
    (n : ℕ) (st : State) (line : Text)
    → Matches reg_sect line
    → HasEntries st
    → Ends HasEntries (IsAbout n) (read_sect n st line)
unfolding read_sect
read_sect-Ends n st line match h =
    let (name, named, _) = sect_line line match in
    elim (Bool-cases (is_at name (lower_bound (name, []) st.values))) [
      | inl again ↦ rw (named, again) (Complaint.section_redefinition, refl)
      | inr new ↦ rw (named, new) h
    ]

module _ (regex_match : RegexMatch) (sound : IsSound regex_match) where
  read_line-Ends :
      (n : ℕ) (st : State) (text : Text)
      → HasEntries st
      → Ends HasEntries (IsAbout n) (read_line regex_match n st text)
  unfolding read_line
  read_line-Ends n st text h =
      let line = strip_comments text in
      elim (Bool-cases (is_empty line)) [
        | inl blank ↦ rw blank h
        | inr shown ↦ elim (Bool-cases (regex_match reg_attr line)) [
          | inl attr ↦
              let (name, value, shape) = attr_line line (sound reg_attr line attr) in
              rw (shown, attr) (read_attr-Ends n st line name value shape h)
          | inr other ↦ elim (Bool-cases (regex_match reg_sect line)) [
            | inl sect ↦
                rw (shown, other, sect) (read_sect-Ends n st line (sound reg_sect line sect) h)
            | inr wrong ↦ rw (shown, other, wrong) (Complaint.invalid_line, refl)
          ]
        ]
      ]

  -- The complaint is about one of `count` lines from `n` on.
  abbrev pub IsAmong : ℕ → ℕ → Exception → Type 0
  IsAmong n count e = (i : ℕ) × (n ≤ i) × (i < n + count) × IsAbout i e

  read_lines-Ends :
      (n : ℕ) (st : State) (ls : List Text)
      → HasEntries st
      → Ends HasEntries (IsAmong n (length ls)) (read_lines regex_match n st ls)
  unfolding read_lines
  read_lines-Ends n st [] h = h
  read_lines-Ends n st (l ∷ ls) h =
      Ends->>= HasEntries HasEntries (IsAmong n (length (l ∷ ls))) _ _
        (Ends-mono HasEntries HasEntries (IsAbout n) (IsAmong n (length (l ∷ ls))) _ (λ st' p. p)
          (λ e about. (n, omega arith, omega arith, about)) (read_line-Ends n st l h))
        λ st' h'.
          Ends-mono HasEntries HasEntries (IsAmong (n + 1) (length ls))
            (IsAmong n (length (l ∷ ls))) _ (λ st'' p. p)
            (λ e among. (among.0, omega (arith, among.1), omega (arith, among.2), among.3))
            (read_lines-Ends (n + 1) st' ls h')

  -- Whatever the file holds, if the regular expressions match no lines but theirs: reading it returns entries with
  -- a section, an attribute and a value that is not blank, or throws a `config_exception` with the number of one
  -- of its lines. No assertion about a line fails.
  pub ini_config-Ends :
      (contents : Text)
      → Ends
          (All IsEntry)
          (IsAmong 1 (length (lines_of contents)))
          (ini_config regex_match (some contents))
  unfolding ini_config
  ini_config-Ends contents =
      Ends->>= HasEntries (All IsEntry) (IsAmong 1 (length (lines_of contents))) _ _
        (read_lines-Ends 1 (record { cur_sect = []; values = [] }) (lines_of contents) tt) λ st h. h
