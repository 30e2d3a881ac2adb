-- ===== src/Config/Sections.antt =====
-- The sections of the configuration, which ask for their attributes: `config_section_base` and
-- `global_config` of src/config/config.cpp.
pub mod Present
pub mod Complete
use Prim.Native.Char.{code}
use Prim.Native.String.{String}
use coherent.Common.{
  ℕ, Bool, true, false, not, List, [], ◌∷◌, if◌then◌else◌, ◌||◌, Option, none, some,
}
use coherent.Common.{Exception, Complaint, Outcome, ok, throws, ◌>>=◌, ◌>>◌, assert}
use coherent.Config.{
  Text, Values, same_text, get_config_value, get_attribute_names, RegexMatch, ini_config,
}

abbrev pub codes : String → Text
codes String.[] = []
codes (String.◌∷◌ c s) = code c ∷ codes s

-- Whether a `std::set<std::string>` has the name.
unfoldable pub is_in : Text → List Text → Bool
unfolding same_text
is_in name [] = false
is_in name (n ∷ ns) = same_text n name || is_in name ns

-- `config_section_base`
pub record Section : Type 0 where
  pub conf : Values
  pub name : Text
  pub valid_names : List Text
  pub present_names : List Text

unfoldable pub section : Text → Values → Section
unfolding get_attribute_names
section name conf = record {
  conf = conf;
  name = name;
  valid_names = [];
  present_names = get_attribute_names conf name;
}

abbrev section_error {ℓ} : {A : Type ℓ} → Complaint → Outcome A
section_error c = throws (Exception.config_exception none c)

-- `boost::lexical_cast` to an unsigned type of so many bits, with `none` for `bad_lexical_cast`.
abbrev pub LexicalCast : Type 0
LexicalCast = ℕ → Text → Option ℕ

unfoldable pub cast_or_throw : Option ℕ → Outcome ℕ
cast_or_throw none = section_error Complaint.invalid_value
cast_or_throw (some v) = ok v

-- `valid_names.insert(name)`, which must be new, and the section afterwards.
unfoldable pub ask : Text → Section → Outcome Section
unfolding is_in
ask name s = do
  assert (not (is_in name s.valid_names))
  ok (record s { valid_names = name ∷ s.valid_names })

module _ (lexical_cast : LexicalCast) where
  -- The value of an attribute that is present.
  unfoldable pub present_value : ℕ → Text → Section → Outcome ℕ
  unfolding get_config_value cast_or_throw
  present_value bits name s = do
    v ← get_config_value s.conf s.name name
    cast_or_throw (lexical_cast bits v)

  -- `get_value<T>(name, def)`
  unfoldable pub get_value_or : ℕ → Text → ℕ → Section → Outcome (ℕ × Section)
  unfolding ask present_value
  get_value_or bits name def s = do
    s' ← ask name s
    v ← (if is_in name s.present_names then present_value bits name s' else ok def)
    ok (v, s')

  -- `get_value<T>(name)`
  unfoldable pub get_value : ℕ → Text → Section → Outcome (ℕ × Section)
  unfolding ask present_value
  get_value bits name s = do
    s' ← ask name s
    v ←
        (if is_in name s.present_names
          then present_value bits name s'
          else section_error Complaint.not_present)
    ok (v, s')

-- `check_no_others`, from an iterator on.
unfoldable pub no_others : List Text → List Text → Outcome (Unit {0})
unfolding is_in
no_others valid [] = ok tt
no_others valid (n ∷ ns) =
    let rest = no_others valid ns in
    if is_in n valid then rest else section_error Complaint.unknown_attribute

unfoldable pub check_no_others : Section → Outcome (Unit {0})
unfolding no_others
check_no_others s = no_others s.valid_names s.present_names

pub record BufferCacheSect : Type 0 where
  pub size : ℕ
  pub syncer_sleep_time : ℕ

pub record MemoryManagerSect : Type 0 where
  pub ram_limit_bytes : ℕ
  pub total_limit_bytes : ℕ
  pub default_session_ram_limit_bytes : ℕ
  pub default_session_total_limit_bytes : ℕ
  pub max_small_alloc_pages_1024 : ℕ
  pub single_small_alloc_pages : ℕ

module _ (lexical_cast : LexicalCast) where
  unfoldable pub buffer_cache_sect : Values → Outcome BufferCacheSect
  unfolding section get_value get_value_or check_no_others
  buffer_cache_sect conf = do
    (size, s1) ← get_value lexical_cast 64 (codes "size") (section (codes "buffer_cache") conf)
    (time, s2) ← get_value_or lexical_cast 16 (codes "syncer_sleep_time") 30 s1
    check_no_others s2
    ok (record { size = size; syncer_sleep_time = time })

  unfoldable pub memory_manager_sect : Values → Outcome MemoryManagerSect
  unfolding section get_value check_no_others
  memory_manager_sect conf = do
    let s = section (codes "memory_manager") conf
    (ram, s1) ← get_value lexical_cast 64 (codes "ram_limit_bytes") s
    (total, s2) ← get_value lexical_cast 64 (codes "total_limit_bytes") s1
    (session_ram, s3) ← get_value lexical_cast 64 (codes "default_session_ram_limit_bytes") s2
    (session_total, s4) ← get_value lexical_cast 64 (codes "default_session_total_limit_bytes") s3
    (max_small, s5) ← get_value lexical_cast 16 (codes "max_small_alloc_pages_1024") s4
    (single_small, s6) ← get_value lexical_cast 16 (codes "single_small_alloc_pages") s5
    check_no_others s6
    ok (record {
      ram_limit_bytes = ram;
      total_limit_bytes = total;
      default_session_ram_limit_bytes = session_ram;
      default_session_total_limit_bytes = session_total;
      max_small_alloc_pages_1024 = max_small;
      single_small_alloc_pages = single_small;
    })

  -- The constructor of `global_config`.
  unfoldable pub global_config :
      RegexMatch → Option Text → Outcome (BufferCacheSect × MemoryManagerSect)
  unfolding ini_config buffer_cache_sect memory_manager_sect
  global_config regex_match file = do
    conf ← ini_config regex_match file
    buffer_cache ← buffer_cache_sect conf
    memory_manager ← memory_manager_sect conf
    ok (buffer_cache, memory_manager)
