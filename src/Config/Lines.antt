-- ===== src/Config/Lines.antt =====
-- What the regular expressions say of a line is what the assertions on it want.
use coherent.Common.{ℕ, suc, ◌+◌, ◌-◌, ◌<◌, ◌≡◌, refl, sym, ap, ◌∙◌, ◌⊎◌, arith, true, false}
use coherent.Common.{
  List, [], ◌∷◌, ◌++◌, append_assoc, length, length-append, take, drop, All, All-append,
  take-append_exact, drop-append_exact, ltb, ◌==◌, ==_iff, Bool-cases, some, inl, inr,
}
use coherent.Common.{ok}
use coherent.Config.{
  Text, Item, one, many, is_empty, is_blank, is_space, is_alpha, is_word, begins_value, find,
  line_is_white, first_word, until_space, get_attr, get_val, get_sect_name, reg_attr, reg_sect,
  RegexMatch,
}

-- The texts that an expression stands for.
unfoldable pub Matches : List Item → Text → Type 0
Matches [] s = s ≡ []
Matches (one p ∷ r) s = (c : ℕ) × (t : Text) × (s ≡ c ∷ t) × (p c ≡ true) × Matches r t
Matches (many p ∷ r) s =
    (front : Text) × (back : Text) × (s ≡ front ++ back)
    × All (λ c. p c ≡ true) front
    × Matches r back

-- The library finds no match but those that there are.
abbrev pub IsSound : RegexMatch → Type 0
IsSound regex_match = (r : List Item) (s : Text) → regex_match r s ≡ true → Matches r s

-- The first occurrence, behind characters that differ.
find-append :
    (c : ℕ) (front back : Text)
    → All (λ x. (x == c) ≡ false) front
    → find c (front ++ c ∷ back) ≡ some (length front)
unfolding find
find-append c [] back h = let here : (c == c) ≡ true = ground arith in rw here
find-append c (x ∷ front) back h =
    let one_on : length front + 1 ≡ suc (length front) = omega arith in
    rw (h.0, find-append c front back h.1) (ap some one_on)

All-map : (P Q : ℕ → Type 0) (l : Text) → ((c : ℕ) → P c → Q c) → All P l → All Q l
All-map P Q [] f h = tt
All-map P Q (c ∷ l) f h = (f c h.0, All-map P Q l f h.1)

abbrev Differs : ℕ → ℕ → Type 0
Differs d c = (c == d) ≡ false

-- The characters of the classes apart.
abbrev IsMark : ℕ → Type 0
IsMark d = (d ≡ b'=') ⊎ ((d ≡ b'[') ⊎ (d ≡ b']'))

blank-Differs : (d c : ℕ) → IsMark d → is_blank c ≡ true → Differs d c
unfolding is_blank
blank-Differs d c m h = ground arith

blank_spaces : (c : ℕ) → is_blank c ≡ true → is_space c ≡ true
unfolding is_blank is_space
blank_spaces c h = ground arith

word-Differs : (d c : ℕ) → IsMark d → is_word c ≡ true → Differs d c
unfolding is_word
word-Differs d c m h = ground arith

word_prints : (c : ℕ) → is_word c ≡ true → (is_space c ≡ false) × (is_blank c ≡ false)
unfolding is_word is_space is_blank
word_prints c h = ground arith

alpha_words : (c : ℕ) → is_alpha c ≡ true → is_word c ≡ true
unfolding is_word
alpha_words c h = ground arith

line_is_white-append :
    (b : Text) (c : ℕ) (rest : Text) → is_blank c ≡ false → line_is_white (b ++ c ∷ rest) ≡ false
unfolding line_is_white
line_is_white-append [] c rest h = rw h
line_is_white-append (x ∷ b) c rest h = elim (Bool-cases (is_blank x)) [
  | inl blank ↦ rw (blank, line_is_white-append b c rest h)
  | inr other ↦ rw other
]

until_space-append :
    (w b : Text)
    → All (λ c. is_word c ≡ true) w
    → All (λ c. is_blank c ≡ true) b
    → until_space (w ++ b) ≡ w
unfolding until_space
until_space-append [] [] hw hb = refl
until_space-append [] (x ∷ b) hw hb = rw (blank_spaces x hb.0)
until_space-append (c ∷ w) b hw hb = rw ((word_prints c hw.0).0, until_space-append w b hw.1 hb)

-- A name between blanks.
first_word-append :
    (b : Text) (a : ℕ) (w b' : Text)
    → All (λ c. is_blank c ≡ true) b
    → is_word a ≡ true
    → All (λ c. is_word c ≡ true) w
    → All (λ c. is_blank c ≡ true) b'
    → first_word (b ++ a ∷ (w ++ b')) ≡ a ∷ w
unfolding first_word
first_word-append [] a w b' hb ha hw hb' = rw ((word_prints a ha).0, until_space-append w b' hw hb')
first_word-append (x ∷ b) a w b' hb ha hw hb' =
    rw (blank_spaces x hb.0, first_word-append b a w b' hb.1 ha hw hb')

name-Differs :
    (d : ℕ) (b : Text) (a : ℕ) (w b' : Text)
    → IsMark d
    → All (λ c. is_blank c ≡ true) b
    → is_word a ≡ true
    → All (λ c. is_word c ≡ true) w
    → All (λ c. is_blank c ≡ true) b'
    → All (Differs d) (b ++ a ∷ (w ++ b'))
name-Differs d b a w b' m hb ha hw hb' =
    All-append (Differs d) b (a ∷ (w ++ b')) (All-map _ _ b (λ c. blank-Differs d c m) hb) (
      word-Differs d a m ha,
      All-append (Differs d) w b' (All-map _ _ w (λ c. word-Differs d c m) hw)
          (All-map _ _ b' (λ c. blank-Differs d c m) hb'),
    )

-- A line `name = value`.
pub record IsAttrLine (s name value : Text) : Type 0 where
  pub front : Text
  pub splits : s ≡ front ++ b'=' ∷ value
  pub no_mark : All (Differs b'=') front
  pub worded : first_word front ≡ name
  pub named : is_empty name ≡ false
  pub shown : line_is_white value ≡ false

starts-Differs : (c : ℕ) → begins_value c ≡ true → is_blank c ≡ false
unfolding begins_value is_blank
starts-Differs c h = ground arith

regroup :
    (b : Text) (a : ℕ) (w b' rest : Text)
    → b ++ a ∷ (w ++ (b' ++ rest)) ≡ (b ++ a ∷ (w ++ b')) ++ rest
regroup b a w b' rest =
    sym (append_assoc b (a ∷ (w ++ b')) rest ∙ ap (λ t. b ++ a ∷ t) (append_assoc w b' rest))

pub attr_line :
    (s : Text) → Matches reg_attr s → (name : Text) × (value : Text) × IsAttrLine s name value
unfolding Matches
attr_line s
      (
        b,
        s1,
        e1,
        hb,
        (
          a,
          s2,
          e2,
          ha,
          (
            w,
            s3,
            e3,
            hw,
            (b', s4, e4, hb', (q, s5, e5, hq, (b'', s6, e6, h'', (v, s7, e7, hv, m)))),
          ),
        ),
      ) =
    let word_a = alpha_words a ha in
    let mark : q ≡ b'=' = (==_iff q b'=').0 hq in
    let front : Text = b ++ a ∷ (w ++ b') in
    (
      a ∷ w,
      b'' ++ v ∷ s7,
      record {
        front = front;
        splits = rw (e1, e2, e3, e4, e5, e6, e7, mark) (regroup b a w b' (b'=' ∷ (b'' ++ v ∷ s7)));
        no_mark = name-Differs b'=' b a w b' (inl refl) hb word_a hw hb';
        worded = first_word-append b a w b' hb word_a hw hb';
        named = refl;
        shown = line_is_white-append b'' v s7 (starts-Differs v hv);
      },
    )

drop_past :
    (front : Text) (c : ℕ) (back : Text) → drop (length front + 1) (front ++ c ∷ back) ≡ back
drop_past front c back =
    ap (drop (length front + 1)) (sym (append_assoc front (c ∷ []) back))
    ∙ drop-append_exact (length front + 1) (front ++ c ∷ []) back
        (omega (arith, length-append front (c ∷ [])))

pos_of_shown : (s : Text) → line_is_white s ≡ false → 0 < length s
unfolding line_is_white
pos_of_shown [] h = cc
pos_of_shown (c ∷ s) h = omega arith

module _ (s name value : Text) (line : IsAttrLine s name value) where
  found_mark : find b'=' s ≡ some (length line.front)
  found_mark = rw line.splits (find-append b'=' line.front value line.no_mark)

  pub get_attr_lem : get_attr s ≡ ok name
  unfolding get_attr
  get_attr_lem =
      let front = line.front in
      let cut : take (length front) s ≡ front =
        ap (take (length front)) line.splits
        ∙ take-append_exact (length front) front (b'=' ∷ value) refl in
      rw (found_mark, cut, line.worded)

  pub get_val_lem : get_val s ≡ ok value
  unfolding get_val
  get_val_lem =
      let front = line.front in
      let behind : drop (length front + 1) s ≡ value =
        ap (drop (length front + 1)) line.splits ∙ drop_past front b'=' value in
      let inside : ltb (length front + 1) (length s) ≡ true = ground (
        arith,
        ap length line.splits,
        length-append front (b'=' ∷ value),
        pos_of_shown value line.shown,
      ) in
      rw (found_mark, inside, behind, line.shown)

-- A line `[name]`.
pub sect_line :
    (s : Text)
    → Matches reg_sect s
    → (name : Text) × (get_sect_name s ≡ ok name) × (is_empty name ≡ false)
unfolding Matches get_sect_name
sect_line s
      (
        b,
        s1,
        e1,
        hb,
        (
          q,
          s2,
          e2,
          hq,
          (
            b',
            s3,
            e3,
            hb',
            (a, s4, e4, ha, (w, s5, e5, hw, (b'', s6, e6, h'', (z, s7, e7, hz, m)))),
          ),
        ),
      ) =
    let word_a = alpha_words a ha in
    let opens : q ≡ b'[' = (==_iff q b'[').0 hq in
    let closes : z ≡ b']' = (==_iff z b']').0 hz in
    let inner : Text = b' ++ a ∷ (w ++ b'') in
    let splits : s ≡ b ++ b'[' ∷ (inner ++ b']' ∷ s7) =
      rw (e1, e2, e3, e4, e5, e6, e7, opens, closes)
        (ap (λ t. b ++ b'[' ∷ t) (regroup b' a w b'' (b']' ∷ s7))) in
    let begin : find b'[' s ≡ some (length b) = rw splits (
      find-append b'[' b (inner ++ b']' ∷ s7)
        (All-map _ _ b (λ c. blank-Differs b'[' c (inr (inl refl))) hb)) in
    let before : Text = b ++ b'[' ∷ inner in
    let end : find b']' s ≡ some (length before) =
      rw (splits, sym (append_assoc b (b'[' ∷ inner) (b']' ∷ s7)))
        (find-append b']' before s7 (
          All-append (Differs b']') b (b'[' ∷ inner)
            (All-map _ _ b (λ c. blank-Differs b']' c (inr (inr refl))) hb)
            (refl, name-Differs b']' b' a w b'' (inr (inr refl)) hb' word_a hw h''))) in
    let ordered : ltb (length b) (length before) ≡ true =
      ground (arith, length-append b (b'[' ∷ inner)) in
    let size : length before - length b - 1 ≡ length inner =
      omega (arith, length-append b (b'[' ∷ inner)) in
    let cut : take (length inner) (drop (length b + 1) s) ≡ inner =
      ap (λ t. take (length inner) (drop (length b + 1) t)) splits
      ∙ ap (take (length inner)) (drop_past b b'[' (inner ++ b']' ∷ s7))
      ∙ take-append_exact (length inner) inner (b']' ∷ s7) refl in
    let shown = line_is_white-append b' a (w ++ b'') (word_prints a word_a).1 in
    let worded = first_word-append b' a w b'' hb' word_a hw h'' in
    (a ∷ w, rw (begin, end, ordered, size, cut, shown, worded), refl)
