-- ===== src/Config.antt =====
-- The reader of the configuration file: src/config/config.cpp, src/include/config/config.h.
-- A string is the list of its characters' codes.
pub mod Lines
pub mod Reader
pub mod Sections
mod Tests
use coherent.Common.{
  ℕ, zero, suc, ◌+◌, ◌-◌, Bool, true, false, ◌&&◌, ◌||◌, not, List, [], ◌∷◌, ◌++◌, length, take,
  drop, ltb, leb, ◌==◌, if◌then◌else◌, Option, none, some,
}
use coherent.Common.{Exception, Complaint, Outcome, ok, throws, aborts, ◌>>=◌, ◌>>◌, assert}

abbrev pub Text : Type 0
Text = List ℕ

abbrev pub is_empty : Text → Bool
is_empty [] = true
is_empty (c ∷ s) = false

-- `isblank` and `isspace` in the C locale.
unfoldable pub is_blank : ℕ → Bool
is_blank c = c == 32 || c == 9

unfoldable pub is_space : ℕ → Bool
is_space c = c == 32 || leb 9 c && leb c 13

-- `s.find(c)`
unfoldable pub find : ℕ → Text → Option ℕ
find c [] = none
find c (x ∷ s) = if x == c then some 0 else elim (find c s) [ none ↦ none | some i ↦ some (i + 1) ]

unfoldable pub line_is_white : Text → Bool
unfolding is_blank
line_is_white [] = true
line_is_white (c ∷ s) = is_blank c && line_is_white s

unfoldable pub strip_comments : Text → Text
unfolding find line_is_white
strip_comments s =
    let res : Text = elim (find b';' s) [ none ↦ s | some hash ↦ take hash s ] in
    if line_is_white res then [] else res

-- `ss >> res` from the start of a stream.
unfoldable pub until_space : Text → Text
unfolding is_space
until_space [] = []
until_space (c ∷ s) = if is_space c then [] else c ∷ until_space s

unfoldable pub first_word : Text → Text
unfolding is_space until_space
first_word [] = []
first_word (c ∷ s) = if is_space c then first_word s else c ∷ until_space s

abbrev pub found : Option ℕ → Outcome ℕ
found none = aborts
found (some pos) = ok pos

unfoldable pub get_attr : Text → Outcome Text
unfolding find first_word
get_attr attr_line = do pos ← found (find b'=' attr_line); ok (first_word (take pos attr_line))

unfoldable pub get_val : Text → Outcome Text
unfolding find line_is_white
get_val attr_line = do
  pos ← found (find b'=' attr_line)
  assert (ltb (pos + 1) (length attr_line))
  let res = drop (pos + 1) attr_line
  assert (not (line_is_white res))
  ok res

unfoldable pub get_sect_name : Text → Outcome Text
unfolding find line_is_white first_word
get_sect_name s = do
  begin ← found (find b'[' s)
  end ← found (find b']' s)
  assert (ltb begin end)
  let res_with_white = take (end - begin - 1) (drop (begin + 1) s)
  assert (not (line_is_white res_with_white))
  let res = first_word res_with_white
  assert (not (is_empty res))
  ok res

-- Regular expressions that are rows of classes of characters, `p` or `p*`.
pub data Item : Type 0 where
  one : (ℕ → Bool) → Item
  many : (ℕ → Bool) → Item

unfoldable pub is_alpha : ℕ → Bool
is_alpha c = leb b'a' c && leb c b'z' || leb b'A' c && leb c b'Z'

unfoldable pub is_word : ℕ → Bool
unfolding is_alpha
is_word c = is_alpha c || leb b'0' c && leb c b'9' || c == b'_'

-- `[^ \t=\[\[]` and `[^=\[\]]`
unfoldable pub begins_value : ℕ → Bool
begins_value c = not (c == 32 || c == 9 || c == b'=' || c == b'[' || c == b'[')

unfoldable pub in_value : ℕ → Bool
in_value c = not (c == b'=' || c == b'[' || c == b']')

abbrev pub reg_attr : List Item
reg_attr =
    many is_blank
    ∷ one is_alpha
    ∷ many is_word
    ∷ many is_blank
    ∷ one (λ c. c == b'=')
    ∷ many is_blank
    ∷ one begins_value
    ∷ many in_value
    ∷ []

abbrev pub reg_sect : List Item
reg_sect =
    many is_blank
    ∷ one (λ c. c == b'[')
    ∷ many is_blank
    ∷ one is_alpha
    ∷ many is_word
    ∷ many is_blank
    ∷ one (λ c. c == b']')
    ∷ many is_blank
    ∷ []

-- `std::string`'s order, and that of the pairs of a section and an attribute.
unfoldable pub before_text : Text → Text → Bool
before_text s [] = false
before_text [] (y ∷ t) = true
before_text (x ∷ s) (y ∷ t) = let rest = before_text s t in if ltb x y then true else x == y && rest

unfoldable pub same_text : Text → Text → Bool
same_text [] [] = true
same_text [] (y ∷ t) = false
same_text (x ∷ s) [] = false
same_text (x ∷ s) (y ∷ t) = x == y && same_text s t

abbrev pub Key : Type 0
Key = Text × Text

unfoldable pub before_key : Key → Key → Bool
unfolding before_text
before_key a b = before_text a.0 b.0 || not (before_text b.0 a.0) && before_text a.1 b.1

-- `value_map`, in the order of its keys.
abbrev pub Values : Type 0
Values = List (Key × Text)

-- `insert`, with `none` where the key is there already.
unfoldable pub insert : Key × Text → Values → Option Values
unfolding before_key
insert e [] = some (e ∷ [])
insert e (x ∷ m) =
    let rest : Option Values = elim (insert e m) [ none ↦ none | some m' ↦ some (x ∷ m') ] in
    if before_key e.0 x.0 then some (e ∷ x ∷ m) else if before_key x.0 e.0 then rest else none

unfoldable pub lower_bound : Key → Values → Values
unfolding before_key
lower_bound k [] = []
lower_bound k (x ∷ m) = let rest = lower_bound k m in if before_key x.0 k then rest else x ∷ m

-- `it != end() && it->first.first == sect`
unfoldable pub is_at : Text → Values → Bool
unfolding same_text
is_at sect [] = false
is_at sect (x ∷ m) = same_text x.0.0 sect

-- The section that is being read, and the entries so far.
pub record State : Type 0 where
  pub cur_sect : Text
  pub values : Values

-- `boost::regex_match`
abbrev pub RegexMatch : Type 0
RegexMatch = List Item → Text → Bool

abbrev line_error {ℓ} : {A : Type ℓ} → ℕ → Complaint → Outcome A
line_error n c = throws (Exception.config_exception (some n) c)

-- `if (!insert(...).second) throw ...`
unfoldable pub entered : ℕ → State → Option Values → Outcome State
entered line_no st none = line_error line_no Complaint.duplicate_entry
entered line_no st (some values) = ok (record st { values = values })

unfoldable pub read_attr : ℕ → State → Text → Outcome State
unfolding get_val get_attr insert entered
read_attr line_no st line =
    if is_empty st.cur_sect then line_error line_no Complaint.no_section else (do
      val ← get_val line
      attr ← get_attr line
      entered line_no st (insert ((st.cur_sect, attr), val) st.values))

unfoldable pub read_sect : ℕ → State → Text → Outcome State
unfolding get_sect_name lower_bound is_at
read_sect line_no st line = do
  cur_sect ← get_sect_name line
  (if is_at cur_sect (lower_bound (cur_sect, []) st.values)
      then line_error line_no Complaint.section_redefinition
      else ok (record st { cur_sect = cur_sect }))

-- The body of the loop, for a line with the number `line_no`.
unfoldable pub read_line : RegexMatch → ℕ → State → Text → Outcome State
unfolding strip_comments read_attr read_sect
read_line regex_match line_no st text =
    let line = strip_comments text in
    if is_empty line
    then ok st
    else if regex_match reg_attr line
    then read_attr line_no st line
    else if regex_match reg_sect line
    then read_sect line_no st line
    else line_error line_no Complaint.invalid_line

unfoldable pub read_lines : RegexMatch → ℕ → State → List Text → Outcome State
unfolding read_line
read_lines regex_match line_no st [] = ok st
read_lines regex_match line_no st (l ∷ ls) =
    read_line regex_match line_no st l >>= λ st'. read_lines regex_match (line_no + 1) st' ls

-- What the calls of `getline` find, until one fails: a file's end is met by a call that finds nothing.
unfoldable pub lines_of : Text → List Text
lines_of [] = [] ∷ []
lines_of (c ∷ []) = (if c == 10 then [] else c ∷ []) ∷ [] ∷ []
lines_of (c ∷ d ∷ s) =
    let rest = lines_of (d ∷ s) in
    if c == 10 then [] ∷ rest else elim rest [ [] ↦ (c ∷ []) ∷ [] | l ∷ ls ↦ (c ∷ l) ∷ ls ]

-- The constructor of `ini_config`, for a file with `contents` or one that does not open.
unfoldable pub ini_config : RegexMatch → Option Text → Outcome Values
unfolding lines_of read_lines
ini_config regex_match none = throws (Exception.config_exception none Complaint.cannot_open)
ini_config regex_match (some contents) = do
  st ← read_lines regex_match 1 (record { cur_sect = []; values = [] }) (lines_of contents)
  ok st.values

-- `values.find(k)`
unfoldable pub find_value : Key → Values → Option Text
unfolding before_key
find_value k [] = none
find_value k (x ∷ m) =
    if not (before_key x.0 k) && not (before_key k x.0) then some x.1 else find_value k m

-- `ini_config::get_value`
unfoldable pub get_config_value : Values → Text → Text → Outcome Text
unfolding find_value
get_config_value m sect attr = elim (find_value (sect, attr) m) [ none ↦ aborts | some v ↦ ok v ]

-- The loop of `get_attribute_names` from an iterator on.
unfoldable pub names_from : Text → Values → List Text
unfolding same_text
names_from sect [] = []
names_from sect (x ∷ m) =
    let rest = names_from sect m in if same_text x.0.0 sect then x.0.1 ∷ rest else []

unfoldable pub get_attribute_names : Values → Text → List Text
unfolding lower_bound names_from
get_attribute_names m sect = names_from sect (lower_bound (sect, []) m)
