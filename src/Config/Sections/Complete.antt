-- ===== src/Config/Sections/Complete.antt =====
-- What a section that is accepted has: all its attributes, each with a value, and no others.
use coherent.Common.{ℕ, ◌≡◌, refl, false, List, [], ◌∷◌, All, drop, length, Option, none, some}
use coherent.Common.{
  Exception, Complaint, ok, ◌⊎◌, Ends, Ends-mono, Ends->>=, Ends-cases, ok, throws, inl, inr, subst,
  sym,
}
use coherent.Config.{Text, Values, get_attribute_names, RegexMatch, ini_config, lines_of}
use coherent.Config.Lines.{IsSound}
use coherent.Config.Reader.{IsEntry, IsAmong, ini_config-Ends}
use coherent.Config.Sections.{
  codes, is_in, section, LexicalCast, check_no_others, BufferCacheSect, MemoryManagerSect,
  buffer_cache_sect, memory_manager_sect, global_config,
}
use coherent.Config.Sections.Present.{
  IsConfigError, IsValueOf, AllIn, get_value_then, get_value_or_then, no_others-Ends,
}

-- The names that the sections ask for, the last one first.
abbrev buffer_cache_names : List Text
buffer_cache_names = codes "syncer_sleep_time" ∷ codes "size" ∷ []

abbrev memory_manager_names : List Text
memory_manager_names =
    codes "single_small_alloc_pages"
    ∷ codes "max_small_alloc_pages_1024"
    ∷ codes "default_session_total_limit_bytes"
    ∷ codes "default_session_ram_limit_bytes"
    ∷ codes "total_limit_bytes"
    ∷ codes "ram_limit_bytes"
    ∷ []

-- A `buffer_cache` section: a size, at most one other attribute, and what they stand for.
pub record IsBufferCache (lexical_cast : LexicalCast) (conf : Values) (r : BufferCacheSect)
    : Type 0 where
  pub names : AllIn buffer_cache_names (get_attribute_names conf (codes "buffer_cache"))
  pub size : IsValueOf lexical_cast conf (codes "buffer_cache") 64 (codes "size") r.size
  pub time :
      IsValueOf lexical_cast conf
        (codes "buffer_cache")
        16
        (codes "syncer_sleep_time")
        r.syncer_sleep_time
      ⊎ ((r.syncer_sleep_time ≡ 30)
          × (is_in (codes "syncer_sleep_time") (get_attribute_names conf (codes "buffer_cache"))
              ≡ false))

-- A `memory_manager` section: its six attributes, what they stand for, and no others.
pub record IsMemoryManager (lexical_cast : LexicalCast) (conf : Values) (r : MemoryManagerSect)
    : Type 0 where
  pub names : AllIn memory_manager_names (get_attribute_names conf (codes "memory_manager"))
  pub ram :
      IsValueOf lexical_cast conf
        (codes "memory_manager")
        64
        (codes "ram_limit_bytes")
        r.ram_limit_bytes
  pub total :
      IsValueOf lexical_cast conf
        (codes "memory_manager")
        64
        (codes "total_limit_bytes")
        r.total_limit_bytes
  pub session_ram :
      IsValueOf lexical_cast conf
        (codes "memory_manager")
        64
        (codes "default_session_ram_limit_bytes")
        r.default_session_ram_limit_bytes
  pub session_total :
      IsValueOf lexical_cast conf
        (codes "memory_manager")
        64
        (codes "default_session_total_limit_bytes")
        r.default_session_total_limit_bytes
  pub max_small :
      IsValueOf lexical_cast conf
        (codes "memory_manager")
        16
        (codes "max_small_alloc_pages_1024")
        r.max_small_alloc_pages_1024
  pub single_small :
      IsValueOf lexical_cast conf
        (codes "memory_manager")
        16
        (codes "single_small_alloc_pages")
        r.single_small_alloc_pages

module _ (lexical_cast : LexicalCast) (conf : Values) where
  -- A section `buffer_cache` is accepted, with its values and no attributes but its own, or a
  -- `config_exception` is thrown; no assertion fails.
  pub buffer_cache_sect-Ends :
      Ends (IsBufferCache lexical_cast conf) IsConfigError (buffer_cache_sect lexical_cast conf)
  unfolding buffer_cache_sect section check_no_others
  buffer_cache_sect-Ends =
      let ask_then =
        get_value_then lexical_cast conf (codes "buffer_cache") (IsBufferCache lexical_cast conf) in
      let or_then =
        get_value_or_then lexical_cast conf (codes "buffer_cache")
          (IsBufferCache lexical_cast conf) in
      ask_then 64 (codes "size") [] _ (unfold is_in in refl) λ size is_size.
        or_then 16 (codes "syncer_sleep_time") (drop 1 buffer_cache_names) _ (unfold is_in in refl)
          30
          λ time is_time.
            let r : BufferCacheSect = record { size = size; syncer_sleep_time = time } in
            Ends->>= _ (IsBufferCache lexical_cast conf) IsConfigError _ (λ u. ok r)
              (no_others-Ends buffer_cache_names (get_attribute_names conf (codes "buffer_cache")))
              λ u names. record { names = names; size = is_size; time = is_time }

  -- The same of a section `memory_manager`.
  pub memory_manager_sect-Ends :
      Ends (IsMemoryManager lexical_cast conf) IsConfigError (memory_manager_sect lexical_cast conf)
  unfolding memory_manager_sect section check_no_others
  memory_manager_sect-Ends =
      let ask_then =
        get_value_then lexical_cast conf (codes "memory_manager")
          (IsMemoryManager lexical_cast conf) in
      ask_then 64 (codes "ram_limit_bytes") [] _ (unfold is_in in refl) λ ram is_ram.
        ask_then 64 (codes "total_limit_bytes") (drop 5 memory_manager_names) _
          (unfold is_in in refl)
          λ total is_total.
            ask_then 64 (codes "default_session_ram_limit_bytes") (drop 4 memory_manager_names) _
              (unfold is_in in refl)
              λ s_ram is_s_ram.
                ask_then 64 (codes "default_session_total_limit_bytes")
                  (drop 3 memory_manager_names) _ (unfold is_in in refl)
                  λ s_total is_s_total.
                    ask_then 16 (codes "max_small_alloc_pages_1024") (drop 2 memory_manager_names) _
                      (unfold is_in in refl)
                      λ m is_m.
                        ask_then 16 (codes "single_small_alloc_pages") (drop 1 memory_manager_names)
                          _ (unfold is_in in refl)
                          λ n is_n.
                            let r : MemoryManagerSect = record {
                              ram_limit_bytes = ram;
                              total_limit_bytes = total;
                              default_session_ram_limit_bytes = s_ram;
                              default_session_total_limit_bytes = s_total;
                              max_small_alloc_pages_1024 = m;
                              single_small_alloc_pages = n;
                            } in
                            Ends->>= _ (IsMemoryManager lexical_cast conf) IsConfigError _
                              (λ u. ok r)
                              (no_others-Ends memory_manager_names
                                (get_attribute_names conf (codes "memory_manager")))
                              λ u names. record {
                                names = names;
                                ram = is_ram;
                                total = is_total;
                                session_ram = is_s_ram;
                                session_total = is_s_total;
                                max_small = is_m;
                                single_small = is_n;
                              }

-- What the file comes to: two accepted sections of the entries that the file is read to.
abbrev pub IsAccepted :
    RegexMatch → LexicalCast → Option Text → BufferCacheSect × MemoryManagerSect → Type 0
IsAccepted regex_match lexical_cast file r =
    (conf : Values) × (ini_config regex_match file ≡ ok conf)
    × All IsEntry conf
    × IsBufferCache lexical_cast conf r.0
    × IsMemoryManager lexical_cast conf r.1

-- A `config_exception`, with or without the number of a line.
abbrev pub IsConfigException : Exception → Type 0
IsConfigException e = (n : Option ℕ) × (c : Complaint) × (e ≡ Exception.config_exception n c)

-- The sections of entries that were read.
sections_lem :
    (regex_match : RegexMatch) (lexical_cast : LexicalCast) (file : Option Text) (conf : Values)
    → ini_config regex_match file ≡ ok conf
    → All IsEntry conf
    → Ends
        (IsAccepted regex_match lexical_cast file)
        IsConfigException
        (global_config lexical_cast regex_match file)
unfolding global_config
sections_lem regex_match lexical_cast file conf read entries = rw read (
    Ends->>= (IsBufferCache lexical_cast conf) (IsAccepted regex_match lexical_cast file)
      IsConfigException _ _
      (Ends-mono (IsBufferCache lexical_cast conf) _ IsConfigError IsConfigException _ (λ r h. h)
        (λ e h. (none, h.0, h.1)) (buffer_cache_sect-Ends lexical_cast conf))
      λ b is_b.
        Ends->>= (IsMemoryManager lexical_cast conf) (IsAccepted regex_match lexical_cast file)
          IsConfigException _ _
          (Ends-mono (IsMemoryManager lexical_cast conf) _ IsConfigError IsConfigException _
            (λ r h. h) (λ e h. (none, h.0, h.1)) (memory_manager_sect-Ends lexical_cast conf))
          λ m is_m. (conf, read, entries, is_b, is_m))

-- Whatever the file holds or if it does not open, when the regular expressions match no lines but theirs: reading
-- the configuration gives both sections of the entries that the file is read to, each with the values of its
-- attributes, or the default of `syncer_sleep_time`, and with no attributes but its own, or it throws a
-- `config_exception`. No assertion fails.
pub global_config-Ends :
    (regex_match : RegexMatch) (sound : IsSound regex_match) (lexical_cast : LexicalCast)
    (file : Option Text)
    → Ends
        (IsAccepted regex_match lexical_cast file)
        IsConfigException
        (global_config lexical_cast regex_match file)
unfolding global_config ini_config
global_config-Ends regex_match sound lexical_cast none = (none, Complaint.cannot_open, refl)
global_config-Ends regex_match sound lexical_cast (some contents) =
    elim (Ends-cases (All IsEntry) (IsAmong regex_match sound 1 (length (lines_of contents)))
      (ini_config regex_match (some contents)) (ini_config-Ends regex_match sound contents)) [
        | inl (conf, read, entries) ↦
            sections_lem regex_match lexical_cast (some contents) conf read entries
        | inr (e, read, among) ↦
            let failed : global_config lexical_cast regex_match (some contents) ≡ throws e =
              rw (global_config, read) refl in
            subst (Ends (IsAccepted regex_match lexical_cast (some contents)) IsConfigException)
              (sym failed) (some among.0, among.3.0, among.3.1)
      ]
