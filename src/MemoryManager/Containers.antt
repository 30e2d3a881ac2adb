-- ===== src/MemoryManager/Containers.antt =====
-- `std::map<byte*, size_t>` and `std::set` of pairs as ordered lists, with what the memory manager
-- calls of them. A map does not replace the value of a key that it has.
use coherent.Common.{
  ℕ, Bool, ◌&&◌, ◌||◌, Option, none, some, List, [], ◌∷◌, ltb, ◌==◌, if◌then◌else◌,
}

abbrev pub Chunks : Type 0
Chunks = List (ℕ × ℕ)

unfoldable pub map_insert : ℕ → ℕ → Chunks → Chunks
map_insert p n [] = (p, n) ∷ []
map_insert p n ((q, k) ∷ m) =
    let rest = map_insert p n m in
    if ltb p q then (p, n) ∷ (q, k) ∷ m else if p == q then (q, k) ∷ m else (q, k) ∷ rest

unfoldable pub map_erase : ℕ → Chunks → Chunks
map_erase p [] = []
map_erase p ((q, k) ∷ m) = let rest = map_erase p m in if p == q then m else (q, k) ∷ rest

unfoldable pub map_find : ℕ → Chunks → Option ℕ
map_find p [] = none
map_find p ((q, k) ∷ m) = let rest = map_find p m in if p == q then some k else rest

-- The first entry with a key above `p`: `*upper_bound(p)`, or `none` for `end()`.
unfoldable pub map_above : ℕ → Chunks → Option (ℕ × ℕ)
map_above p [] = none
map_above p ((q, k) ∷ m) = let rest = map_above p m in if ltb p q then some (q, k) else rest

abbrev pub or_this : Option (ℕ × ℕ) → ℕ × ℕ → Option (ℕ × ℕ)
or_this none e = some e
or_this (some f) e = some f

-- The entry before that one: `*--upper_bound(p)`, or `none` if `upper_bound(p)` is `begin()`.
unfoldable pub map_upto : ℕ → Chunks → Option (ℕ × ℕ)
map_upto p [] = none
map_upto p ((q, k) ∷ m) = let rest = map_upto p m in if ltb p q then none else or_this rest (q, k)

-- `operator<` and `operator==` of pairs.
abbrev pub pair_lt : ℕ × ℕ → ℕ × ℕ → Bool
pair_lt (a, b) (c, d) = ltb a c || (a == c && ltb b d)

abbrev pub pair_eq : ℕ × ℕ → ℕ × ℕ → Bool
pair_eq (a, b) (c, d) = a == c && b == d

unfoldable pub set_insert : ℕ × ℕ → Chunks → Chunks
set_insert e [] = e ∷ []
set_insert e (f ∷ s) =
    let rest = set_insert e s in
    if pair_lt e f then e ∷ f ∷ s else if pair_eq e f then f ∷ s else f ∷ rest

unfoldable pub set_erase : ℕ × ℕ → Chunks → Chunks
set_erase e [] = []
set_erase e (f ∷ s) = let rest = set_erase e s in if pair_eq e f then s else f ∷ rest

-- `*upper_bound(e)`
unfoldable pub set_above : ℕ × ℕ → Chunks → Option (ℕ × ℕ)
set_above e [] = none
set_above e (f ∷ s) = let rest = set_above e s in if pair_lt e f then some f else rest
