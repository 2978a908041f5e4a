-- ===== src/Writer/LayoutLaws.antt =====
-- Every section can be read back from the file at its offset, and the file ends with the last.
use scry.Prelude.{
  ℕ, suc, ◌+◌, ◌-◌, ◌≤◌, ◌≡◌, refl, sym, arith, List, [], ◌∷◌, ◌++◌, length, take, replicate, All,
  ap, ◌∙◌, length-append, take_all, take-append, length-take, drop_past, length-replicate,
  replicate-add, Bool-cases, inl, inr, leb, ◌&&◌,
}
use mathlib.Core.List.{append-nil, append_assoc}
use scry.Bytes.{slice, u64_mod}
use scry.Run.{done, panic}
use scry.Format.{pad_up, page}
use scry.Format.Pad.{pad_up_bounds}
use scry.Format.Rows.{slice_at}
use scry.Writer.Layout.{Section, pad_to, write_at, set_len, total, write_sections, file_of}

-- The declared length of each section is the length of its bytes.
abbrev pub IsMeasured : List Section → Type 0
IsMeasured = All (λ s. s.len ≡ length s.content)

-- The bytes of all sections, and one page for each.
abbrev pub size : List Section → ℕ
size [] = 0
size (s ∷ ss) = s.len + page + size ss

-- What the file holds: zeros up to the next page, then the section.
abbrev pub image : ℕ → List Section → List ℕ
image end [] = []
image end (s ∷ ss) = replicate (pad_up end - end) 0 ++ (s.content ++ image (pad_up end + s.len) ss)

length-pad_to : (n : ℕ) (file : List ℕ) → length file ≤ n → length (pad_to n file) ≡ n
length-pad_to n file h = omega (
  arith,
  length-append file (replicate (n - length file) 0),
  length-replicate {A = ℕ} (n - length file) 0,
)

pad_to_full : (n : ℕ) (file : List ℕ) → length file ≡ n → pad_to n file ≡ file
pad_to_full n file h = let e : n - length file ≡ 0 = omega arith in rw (e, append-nil)

-- A file extended twice.
pad_to-pad_to :
    (m n : ℕ) (file : List ℕ)
    → length file ≤ m
    → m ≤ n
    → pad_to n file ≡ pad_to m file ++ replicate (n - m) 0
pad_to-pad_to m n file h k =
    let e : m - length file + (n - m) ≡ n - length file = omega arith in
    rw (append_assoc, replicate-add, e)

write_at_end :
    (file : List ℕ) (off x : ℕ) (xs : List ℕ)
    → length file ≤ off
    → write_at file off (x ∷ xs) ≡ pad_to off file ++ (x ∷ xs)
unfolding write_at
write_at_end file off x xs h = rw (
  take_all (pad_to off file) off (sym (length-pad_to off file h)),
  drop_past file (off + suc (length xs)) (omega arith),
  append-nil,
)

write_at-append :
    (file : List ℕ) (off : ℕ) (s : List ℕ)
    → length file ≤ off
    → pad_to (off + length s) (write_at file off s) ≡ pad_to off file ++ s
write_at-append file off [] h =
    let e : off + 0 ≡ off = omega arith in unfold write_at in rw (e, append-nil)
write_at-append file off (x ∷ xs) h = rw (
  write_at_end file off x xs h,
  pad_to_full (off + suc (length xs)) (pad_to off file ++ (x ∷ xs))
      (omega (arith, length-append (pad_to off file) (x ∷ xs), length-pad_to off file h)),
)

length-write_at :
    (file : List ℕ) (off : ℕ) (s : List ℕ)
    → length file ≤ off
    → length (write_at file off s) ≤ off + length s
length-write_at file off [] h = unfold write_at in omega arith
length-write_at file off (x ∷ xs) h =
    rw (write_at_end file off x xs h)
      (omega (arith, length-append (pad_to off file) (x ∷ xs), length-pad_to off file h))

write_sections-image :
    (ss : List Section) (file : List ℕ) (end : ℕ)
    → IsMeasured ss
    → length file ≤ end
    → end + size ss ≤ u64_mod
    → (pad_to (total end ss) (write_sections file end ss) ≡ pad_to end file ++ image end ss)
      × (length (write_sections file end ss) ≤ total end ss)
unfolding write_sections total
write_sections-image [] file end m h r = (sym (append-nil _), h)
write_sections-image (s ∷ ss) file end m h r =
    let (_, lo, hi) = pad_up_bounds end (omega arith) in
    let len : s.len ≡ length s.content = m.0 in
    let file' : List ℕ = write_at file (pad_up end) s.content in
    let (same, fits) =
      write_sections-image ss file' (pad_up end + s.len) m.1
        (omega (arith, length-write_at file (pad_up end) s.content (omega arith))) (omega arith) in
    (
      same
          ∙ rw (
            len,
            write_at-append file (pad_up end) s.content (omega arith),
            pad_to-pad_to end (pad_up end) file h lo,
            append_assoc,
            append_assoc,
          ),
      fits,
    )

-- Every section of the list can be read from the file at its offset.
abbrev pub Readable : List ℕ → ℕ → List Section → Type 0
Readable file end [] = Unit {0}
Readable file end (s ∷ ss) =
    (slice file (pad_up end) (pad_up end + s.len) ≡ done s.content)
    × Readable file (pad_up end + s.len) ss

image-Readable :
    (ss : List Section) (front : List ℕ) (end : ℕ)
    → IsMeasured ss
    → length front ≡ end
    → end + size ss ≤ u64_mod
    → Readable (front ++ image end ss) end ss
image-Readable [] front end m h r = tt
image-Readable (s ∷ ss) front end m h r =
    let (_, lo, hi) = pad_up_bounds end (omega arith) in
    let gap : List ℕ = replicate (pad_up end - end) 0 in
    let rest : List ℕ = image (pad_up end + s.len) ss in
    let len : s.len ≡ length s.content = m.0 in
    let behind : length (front ++ gap) ≡ pad_up end =
      omega (arith, length-append front gap, length-replicate {A = ℕ} (pad_up end - end) 0) in
    let here : slice ((front ++ gap) ++ (s.content ++ rest)) (pad_up end) (pad_up end + s.len)
        ≡ done s.content =
      slice_at (front ++ gap) s.content rest (pad_up end) s.len behind len in
    let later : Readable (((front ++ gap) ++ s.content) ++ rest) (pad_up end + s.len) ss =
      image-Readable ss ((front ++ gap) ++ s.content) (pad_up end + s.len) m.1
        (omega (arith, length-append (front ++ gap) s.content)) (omega arith) in
    (rw append_assoc at here, rw (append_assoc, append_assoc) at later)

pub file_of-image :
    (header : List ℕ) (ss : List Section)
    → IsMeasured ss
    → length header + size ss ≤ u64_mod
    → file_of header ss ≡ header ++ image (length header) ss
unfolding file_of set_len
file_of-image header ss m r =
    let (same, fits) = write_sections-image ss header (length header) m (omega arith) r in
    take_all (pad_to (total (length header) ss) (write_sections header (length header) ss)) _
      (sym (length-pad_to _ _ fits))
    ∙ same
    ∙ ap (λ t. t ++ image (length header) ss) (pad_to_full (length header) header refl)

-- The file starts with the header, and each section lies in it at the offset that the chain of
-- `pad_up` gives, whatever sections are empty.
pub file_of-Readable :
    (header : List ℕ) (ss : List Section)
    → IsMeasured ss
    → length header + size ss ≤ u64_mod
    → (take (length header) (file_of header ss) ≡ header)
      × Readable (file_of header ss) (length header) ss
file_of-Readable header ss m r = rw (file_of-image header ss m r) (
  take-append header (image (length header) ss) (length header) refl,
  image-Readable ss header (length header) m refl r,
)

-- The file is as long as the end of the last section.
pub length-file_of :
    (header : List ℕ) (ss : List Section)
    → IsMeasured ss
    → length header + size ss ≤ u64_mod
    → length (file_of header ss) ≡ total (length header) ss
unfolding file_of set_len
length-file_of header ss m r =
    let (_, fits) = write_sections-image ss header (length header) m (omega arith) r in
    omega (
      arith,
      length-take (total (length header) ss)
          (pad_to (total (length header) ss) (write_sections header (length header) ss)),
      length-pad_to (total (length header) ss) (write_sections header (length header) ss) fits,
    )

-- A page for each section is enough.
pub total-size :
    (ss : List Section) (end : ℕ) → end + size ss ≤ u64_mod → total end ss ≤ end + size ss
unfolding total
total-size [] end h = omega arith
total-size (s ∷ ss) end h =
    let (_, lo, hi) = pad_up_bounds end (omega arith) in
    omega (arith, total-size ss (pad_up end + s.len) (omega arith))

panic≢done : {s : List ℕ} → panic ≡ done s → ⊥
panic≢done h = cc

slice_end : (bs : List ℕ) (a b : ℕ) {s : List ℕ} → slice bs a b ≡ done s → b ≤ length bs
unfolding slice
slice_end bs a b h = elim (Bool-cases (leb a b && leb b (length bs))) [
  | inl e ↦ ground arith
  | inr e ↦ absurd (panic≢done (rw e at h))
]

-- Every section ends within `n` bytes.
abbrev pub Within : ℕ → ℕ → List Section → Type 0
Within n end [] = Unit {0}
Within n end (s ∷ ss) = (pad_up end + s.len ≤ n) × Within n (pad_up end + s.len) ss

pub Readable→Within :
    (file : List ℕ) (ss : List Section) (end : ℕ)
    → Readable file end ss
    → Within (length file) end ss
Readable→Within file [] end r = tt
Readable→Within file (s ∷ ss) end r = (
  slice_end file (pad_up end) (pad_up end + s.len) r.0,
  Readable→Within file ss (pad_up end + s.len) r.1,
)
