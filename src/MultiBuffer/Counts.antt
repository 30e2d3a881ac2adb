-- ===== src/MultiBuffer/Counts.antt =====
-- The bytes that a list of buffers holds, and when a heap counts its `buffer_ptr`s.
use coherent.Common.{
  ℕ, ◌+◌, ◌<◌, ◌≡◌, refl, ap, ap₂, ◌∙◌, List, [], ◌∷◌, ◌++◌, Option, none, some, arith, length,
  get_elem?, ◌==◌, if◌then◌else◌, ok, drop, take, All, length-append,
}
use coherent.MultiBuffer.{Buffer, Heap, MultiBuffer, load}

abbrev pub bytes_of : Option Buffer → List ℕ
bytes_of none = []
bytes_of (some b) = b.bytes

abbrev pub uses_of : Option Buffer → ℕ
uses_of none = 0
uses_of (some b) = b.uses

abbrev pub bytes_at : Heap → ℕ → List ℕ
bytes_at h p = bytes_of (get_elem? h p)

abbrev pub uses_at : Heap → ℕ → ℕ
uses_at h p = uses_of (get_elem? h p)

-- The bytes of the buffers, one after another.
abbrev pub flat : Heap → List ℕ → List ℕ
flat h [] = []
flat h (p ∷ ps) = bytes_at h p ++ flat h ps

-- How often `p` is among the `buffer_ptr`s.
abbrev pub count : ℕ → List ℕ → ℕ
count p [] = 0
count p (q ∷ qs) = (if p == q then 1 else 0) + count p qs

-- What the program sees of a multi_buffer.
abbrev pub contents : Heap → MultiBuffer → List ℕ
contents h m = take m.size (drop m.left_off (flat h m.buffers))

-- A live buffer holds bytes.
abbrev pub IsFull : Heap → List ℕ → Type 0
IsFull h = All (λ p. 0 < length (bytes_at h p))

-- Equal buffers at each of the pointers.
abbrev pub SameBytes : Heap → Heap → List ℕ → Type 0
SameBytes h h' = All (λ p. bytes_at h' p ≡ bytes_at h p)

pub flat_congr : (h h' : Heap) (ps : List ℕ) → SameBytes h h' ps → flat h' ps ≡ flat h ps
flat_congr h h' [] s = refl
flat_congr h h' (p ∷ ps) s =
    ap (λ t. t ++ flat h' ps) s.0 ∙ ap (λ t. bytes_at h p ++ t) (flat_congr h h' ps s.1)

pub load_full :
    (h : Heap) (p : ℕ)
    → 0 < length (bytes_at h p)
    → (b : Buffer) × (load h p ≡ ok b)
      × (b.bytes ≡ bytes_at h p)
      × (b.uses ≡ uses_at h p)
      × (get_elem? h p ≡ some b)
load_full h p full = go (get_elem? h p) refl full
  where
    go :
        (o : Option Buffer)
        → get_elem? h p ≡ o
        → 0 < length (bytes_of o)
        → (b : Buffer) × (load h p ≡ ok b)
          × (b.bytes ≡ bytes_at h p)
          × (b.uses ≡ uses_at h p)
          × (get_elem? h p ≡ some b)
    go none e f = absurd (omega arith)
    go (some b) e f = (b, rw (e, load), rw e, rw e, e)

pub count-append : (q : ℕ) (xs ys : List ℕ) → count q (xs ++ ys) ≡ count q xs + count q ys
count-append q [] ys = omega arith
count-append q (x ∷ xs) ys = omega (arith, count-append q xs ys)

abbrev pub sizes : Heap → List ℕ → List ℕ
sizes h [] = []
sizes h (p ∷ ps) = length (bytes_at h p) ∷ sizes h ps

-- What holds of the pointers that are counted holds of each one in the list.
pub SameBytes-of_count :
    (h h' : Heap) (ps : List ℕ)
    → ((q : ℕ) → 0 < count q ps → bytes_at h' q ≡ bytes_at h q)
    → SameBytes h h' ps
SameBytes-of_count h h' [] k = tt
SameBytes-of_count h h' (p ∷ ps) k =
    (k p (ground arith), SameBytes-of_count h h' ps (λ q e. k q (omega arith)))

pub IsFull-congr : (h h' : Heap) (ps : List ℕ) → SameBytes h h' ps → IsFull h ps → IsFull h' ps
IsFull-congr h h' [] s f = tt
IsFull-congr h h' (p ∷ ps) s f = (rw s.0 f.0, IsFull-congr h h' ps s.1 f.1)

pub sizes_congr : (h h' : Heap) (ps : List ℕ) → SameBytes h h' ps → sizes h' ps ≡ sizes h ps
sizes_congr h h' [] s = refl
sizes_congr h h' (p ∷ ps) s = ap₂ ◌∷◌ (ap length s.0) (sizes_congr h h' ps s.1)

-- What the sizes of the buffers decide.
pub IsFull-of_sizes :
    (h h' : Heap) (ps ps' : List ℕ) → sizes h' ps' ≡ sizes h ps → IsFull h ps → IsFull h' ps'
IsFull-of_sizes h h' [] [] e f = tt
IsFull-of_sizes h h' [] (q ∷ qs) e f = cc
IsFull-of_sizes h h' (p ∷ ps) [] e f = cc
IsFull-of_sizes h h' (p ∷ ps) (q ∷ qs) e f =
    let heads : length (bytes_at h' q) ≡ length (bytes_at h p) = cc in
    let tails : sizes h' qs ≡ sizes h ps = cc in
    (rw heads f.0, IsFull-of_sizes h h' ps qs tails f.1)

pub length-flat_of_sizes :
    (h h' : Heap) (ps ps' : List ℕ)
    → sizes h' ps' ≡ sizes h ps
    → length (flat h' ps') ≡ length (flat h ps)
length-flat_of_sizes h h' [] [] e = refl
length-flat_of_sizes h h' [] (q ∷ qs) e = cc
length-flat_of_sizes h h' (p ∷ ps) [] e = cc
length-flat_of_sizes h h' (p ∷ ps) (q ∷ qs) e =
    let heads : length (bytes_at h' q) ≡ length (bytes_at h p) = cc in
    let tails : sizes h' qs ≡ sizes h ps = cc in
    omega (
      arith,
      length-flat_of_sizes h h' ps qs tails,
      length-append (bytes_at h' q) (flat h' qs),
      length-append (bytes_at h p) (flat h ps),
    )
