-- ===== src/Config/Tests.antt =====
-- Small configurations that are read: src/config/config.cpp.
use coherent.Common.{
  ℕ, ◌+◌, ◌*◌, ◌-◌, ◌^◌, ◌≡◌, ◌⊎◌, refl, ap, Bool, true, false, ◌&&◌, ◌||◌, [], ◌∷◌, ◌++◌, All, ltb,
  leb, length, if◌then◌else◌, Bool-cases, Option, some, none, inl, inr,
}
use coherent.Common.{Exception, Complaint, ok, throws, Ends}
use coherent.Config.{
  Text, one, many, RegexMatch, is_empty, is_blank, is_alpha, is_word, begins_value, in_value,
  reg_attr, lines_of, ini_config,
}
use coherent.Config.Lines.{Matches, IsSound}
use coherent.Config.Reader.{IsEntry, IsAmong, ini_config-Ends}
use coherent.Config.Sections.{codes, LexicalCast, global_config}
use coherent.Config.Sections.Complete.{IsAccepted, IsConfigException, global_config-Ends}

-- A matcher that tries all ways.
unfoldable match : RegexMatch
match [] s = is_empty s
match (one p ∷ r) [] = false
match (one p ∷ r) (c ∷ s) = p c && match r s
match (many p ∷ r) [] = match r []
match (many p ∷ r) (c ∷ s) = p c && match (many p ∷ r) s || match r (c ∷ s)

either_way : (a b c : Bool) → (a && b || c) ≡ true → ((a ≡ true) × (b ≡ true)) ⊎ (c ≡ true)
either_way true true c h = inl (refl, refl)
either_way true false c h = inr h
either_way false b c h = inr h

match-IsSound : IsSound match
unfolding match Matches
match-IsSound [] [] h = refl
match-IsSound [] (c ∷ s) h = cc
match-IsSound (one p ∷ r) [] h = cc
match-IsSound (one p ∷ r) (c ∷ s) h = elim (Bool-cases (p c)) [
  | inl this ↦
      let rest : match r s ≡ true = rw this at h in (c, s, refl, this, match-IsSound r s rest)
  | inr other ↦ let never : false ≡ true = rw other at h in cc
]
match-IsSound (many p ∷ r) [] h = ([], [], refl, tt, match-IsSound r [] h)
match-IsSound (many p ∷ r) (c ∷ s) h =
    elim (either_way (p c) (match (many p ∷ r) s) (match r (c ∷ s)) h) [
      | inl (this, rest) ↦
          let (front, back, splits, all, m) = match-IsSound (many p ∷ r) s rest in
          (c ∷ front, back, ap (λ t. c ∷ t) splits, (this, all), m)
      | inr now ↦ ([], c ∷ s, refl, tt, match-IsSound r (c ∷ s) now)
    ]

-- Digits and nothing else, without overflow.
unfoldable digits : ℕ → Text → Option ℕ
digits n [] = some n
digits n (c ∷ s) = if leb b'0' c && leb c b'9' then digits (10 * n + (c - b'0')) s else none

unfoldable below : ℕ → Option ℕ → Option ℕ
below limit none = none
below limit (some n) = if ltb n limit then some n else none

unfoldable decimal : LexicalCast
unfolding below digits
decimal bits [] = none
decimal bits (c ∷ s) = below (2 ^ bits) (digits 0 (c ∷ s))

abbrev two_lines : Text
two_lines = codes "[a]\nb=1 ;x\n"

reads_values : ini_config match (some two_lines) ≡ ok (((codes "a", codes "b"), codes "1 ") ∷ [])
unfolding ini_config match is_alpha is_word begins_value in_value
reads_values = refl

-- A value that begins with a bracket is taken, in spite of `[^ \t=\[\[]`.
takes_bracket : match reg_attr (codes "b=]") ≡ true
unfolding match is_blank is_alpha is_word begins_value
takes_bracket = refl

no_section_yet :
    ini_config match (some (codes "\nb=1"))
    ≡ throws (Exception.config_exception (some 2) Complaint.no_section)
unfolding ini_config match is_alpha is_word begins_value in_value
no_section_yet = refl

ini_config-Ends_example :
    Ends
      (All IsEntry)
      (IsAmong match match-IsSound 1 (length (lines_of two_lines)))
      (ini_config match (some two_lines))
ini_config-Ends_example = ini_config-Ends match match-IsSound two_lines

abbrev whole_file : Text
whole_file =
    codes "[buffer_cache]\nsize=64\n[memory_manager]\nram_limit_bytes=100\ntotal_limit_bytes=200\n"
    ++ codes "default_session_ram_limit_bytes=10\ndefault_session_total_limit_bytes=20\n"
    ++ codes "max_small_alloc_pages_1024=3\nsingle_small_alloc_pages=4"

global_config-Ends_example :
    Ends
      (IsAccepted match decimal (some whole_file))
      IsConfigException
      (global_config decimal match (some whole_file))
global_config-Ends_example = global_config-Ends match match-IsSound decimal (some whole_file)

whole_config :
    global_config decimal match (some whole_file)
    ≡ ok (
      record { size = 64; syncer_sleep_time = 30 },
      record {
        ram_limit_bytes = 100;
        total_limit_bytes = 200;
        default_session_ram_limit_bytes = 10;
        default_session_total_limit_bytes = 20;
        max_small_alloc_pages_1024 = 3;
        single_small_alloc_pages = 4;
      },
    )
unfolding global_config match is_alpha is_word begins_value in_value decimal below digits
whole_config = refl
