-- ===== src/Config/Sections/Present.antt =====
-- What asking a section for an attribute comes to.
use coherent.Common.{
  ℕ, ◌≡◌, refl, ap₂, arith, true, false, ◌&&◌, not, List, [], ◌∷◌, All, ◌==◌, ==_iff, ltb,
  Bool-cases, Option-cases, none, some, inl, inr,
}
use coherent.Common.{
  Exception, Complaint, Outcome, ok, throws, aborts, faults, ◌>>=◌, ◌⊎◌, Ends, Ends-mono,
}
use coherent.Config.{
  Text, Key, Values, before_text, before_key, same_text, find_value, get_config_value, lower_bound,
  names_from, get_attribute_names,
}
use coherent.Config.Sections.{
  is_in, Section, LexicalCast, cast_or_throw, ask, present_value, get_value, get_value_or,
  no_others,
}

same_text-eq : (s t : Text) → same_text s t ≡ true → s ≡ t
unfolding same_text
same_text-eq [] [] h = refl
same_text-eq [] (y ∷ t) h = cc
same_text-eq (x ∷ s) [] h = cc
same_text-eq (x ∷ s) (y ∷ t) h = elim (Bool-cases (x == y)) [
  | inr other ↦ let never : false ≡ true = rw other at h in cc
  | inl same ↦
      let rest : same_text s t ≡ true = rw same at h in
      ap₂ (λ c l. c ∷ l) ((==_iff x y).0 same) (same_text-eq s t rest)
]

not-before_text_self : (s : Text) → before_text s s ≡ false
unfolding before_text
not-before_text_self [] = refl
not-before_text_self (x ∷ s) =
    let apart : ltb x x ≡ false = ground arith in
    let same : (x == x) ≡ true = ground arith in rw (apart, same) (not-before_text_self s)

not-before_key_self : (k : Key) → before_key k k ≡ false
unfolding before_key
not-before_key_self k = rw (not-before_text_self k.0, not-before_text_self k.1)

abbrev IsFound : Key → Values → Type 0
IsFound k m = (v : Text) × (find_value k m ≡ some v)

find_value-here : (k : Key) (x : Key × Text) (m : Values) → x.0 ≡ k → IsFound k (x ∷ m)
unfolding find_value
find_value-here k x m same = (x.1, rw (same, not-before_key_self k))

find_value-later : (k : Key) (x : Key × Text) (m : Values) → IsFound k m → IsFound k (x ∷ m)
unfolding find_value
find_value-later k x m (v, h) =
    elim (Bool-cases (not (before_key x.0 k) && not (before_key k x.0))) [
      | inl here ↦ (x.1, rw here)
      | inr other ↦ (v, rw other h)
    ]

names_from-IsFound :
    (sect name : Text) (m : Values) → is_in name (names_from sect m) ≡ true → IsFound (sect, name) m
unfolding names_from is_in
names_from-IsFound sect name [] h = cc
names_from-IsFound sect name (x ∷ m) h = elim (Bool-cases (same_text x.0.0 sect)) [
  | inr other ↦ let never : false ≡ true = rw other at h in cc
  | inl inside ↦ elim (Bool-cases (same_text x.0.1 name)) [
    | inl here ↦
        find_value-here (sect, name) x m
          (ap₂ (λ (a b : Text). (a, b)) (same_text-eq _ _ inside) (same_text-eq _ _ here))
    | inr later ↦
        let rest : is_in name (names_from sect m) ≡ true = rw (inside, later) at h in
        find_value-later (sect, name) x m (names_from-IsFound sect name m rest)
  ]
]

lower_bound-IsFound : (k low : Key) (m : Values) → IsFound k (lower_bound low m) → IsFound k m
unfolding lower_bound
lower_bound-IsFound k low [] h = h
lower_bound-IsFound k low (x ∷ m) h = elim (Bool-cases (before_key x.0 low)) [
  | inl before ↦
      let rest : IsFound k (lower_bound low m) = rw before at h in
      find_value-later k x m (lower_bound-IsFound k low m rest)
  | inr here ↦ rw here at h
]

-- Each attribute of a section has a value.
present-IsFound :
    (m : Values) (sect name : Text)
    → is_in name (get_attribute_names m sect) ≡ true
    → IsFound (sect, name) m
unfolding get_attribute_names
present-IsFound m sect name h =
    lower_bound-IsFound (sect, name) (sect, []) m
      (names_from-IsFound sect name (lower_bound (sect, []) m) h)

-- The complaint names no line.
abbrev pub IsConfigError : Exception → Type 0
IsConfigError e = (c : Complaint) × (e ≡ Exception.config_exception none c)

module _ (lexical_cast : LexicalCast) (conf : Values) (sect : Text) where
  -- The number is what the attribute's value in the file stands for.
  abbrev pub IsValueOf : ℕ → Text → ℕ → Type 0
  IsValueOf bits name v =
      (text : Text) × (find_value (sect, name) conf ≡ some text) × (lexical_cast bits text ≡ some v)

  -- The section, once it has asked for the names.
  abbrev pub asked : List Text → Section
  asked valid = record {
    conf = conf;
    name = sect;
    valid_names = valid;
    present_names = get_attribute_names conf sect;
  }

  present_value-Ends :
      (bits : ℕ) (name : Text) (valid : List Text)
      → is_in name (get_attribute_names conf sect) ≡ true
      → Ends
          (IsValueOf bits name)
          IsConfigError
          (present_value lexical_cast bits name (asked valid))
  unfolding present_value get_config_value cast_or_throw
  present_value-Ends bits name valid h =
      let (text, found) = present-IsFound conf sect name h in
      elim (Option-cases (lexical_cast bits text)) [
        | inl bad ↦ rw (found, get_config_value, bad, cast_or_throw) (Complaint.invalid_value, refl)
        | inr (v, cast) ↦ rw (found, get_config_value, cast, cast_or_throw) (text, found, cast)
      ]

  module _ {B : Type 0} (P : B → Type 0) (bits : ℕ) (name : Text) (valid : List Text)
      (rest : ℕ × Section → Outcome B) (new : is_in name valid ≡ false) where
    Ends-then :
        (Q : ℕ → Type 0) (m : Outcome ℕ)
        → Ends Q IsConfigError m
        → ((v : ℕ) → Q v → Ends P IsConfigError (rest (v, asked (name ∷ valid))))
        → Ends P IsConfigError ((m >>= λ v. ok (v, asked (name ∷ valid))) >>= rest)
    Ends-then Q (ok v) h next = next v h
    Ends-then Q (throws e) h next = h
    Ends-then Q aborts h next = elim h [ ]
    Ends-then Q faults h next = elim h [ ]

    pub get_value_then :
        ((v : ℕ) → IsValueOf bits name v → Ends P IsConfigError (rest (v, asked (name ∷ valid))))
        → Ends P IsConfigError (get_value lexical_cast bits name (asked valid) >>= rest)
    unfolding get_value ask
    get_value_then next = elim (Bool-cases (is_in name (get_attribute_names conf sect))) [
      | inl present ↦
          rw (new, present)
            (Ends-then (IsValueOf bits name) _ (present_value-Ends bits name (name ∷ valid) present)
              next)
      | inr absent ↦ rw (new, absent) (Complaint.not_present, refl)
    ]

    -- The value, or the default where the attribute is absent.
    pub get_value_or_then :
        (def : ℕ)
        → ((v : ℕ)
            → IsValueOf bits name v
              ⊎ ((v ≡ def) × (is_in name (get_attribute_names conf sect) ≡ false))
            → Ends P IsConfigError (rest (v, asked (name ∷ valid))))
        → Ends P IsConfigError (get_value_or lexical_cast bits name def (asked valid) >>= rest)
    unfolding get_value_or ask
    get_value_or_then def next = elim (Bool-cases (is_in name (get_attribute_names conf sect))) [
      | inl present ↦
          rw (new, present)
            (Ends-then (IsValueOf bits name) _ (present_value-Ends bits name (name ∷ valid) present)
              (λ v h. next v (inl h)))
      | inr absent ↦ rw (new, absent) (next def (inr (refl, absent)))
    ]

abbrev pub AllIn : List Text → List Text → Type 0
AllIn valid names = All (λ n. is_in n valid ≡ true) names

pub no_others-Ends :
    (valid names : List Text) → Ends (λ u. AllIn valid names) IsConfigError (no_others valid names)
unfolding no_others
no_others-Ends valid [] = tt
no_others-Ends valid (n ∷ names) = elim (Bool-cases (is_in n valid)) [
  | inr other ↦ rw other (Complaint.unknown_attribute, refl)
  | inl known ↦ rw known (
      Ends-mono (λ u. AllIn valid names) _ IsConfigError IsConfigError _ (λ u rest. (refl, rest))
        (λ x e. e) (no_others-Ends valid names))
]
