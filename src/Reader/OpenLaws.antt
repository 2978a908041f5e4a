-- ===== src/Reader/OpenLaws.antt =====
-- An index that opens can be read in every section, and a sound file is opened.
use scry.Prelude.{
  ℕ, ◌+◌, ◌-◌, ◌*◌, ◌<◌, ◌≤◌, ◌≡◌, refl, arith, List, [], ◌∷◌, Bool, true, false, ltb, ◌||◌, not,
  length, take, drop, none, All, ap, length-take, length-drop, Bool-cases, Option-cases, inl, inr,
}
use mathlib.Core.Path.{subst}
use scry.Bytes.{slice, u64_mod, cmp}
use scry.Sorted.{is_eq}
use scry.Sorted.Compare.{cmp_refl}
use scry.Format.{
  Header, magic, version, min_version, header_len, xref_len, sym_len, name_len, file_len, inh_len,
  call_len, type_len, trigram_len,
}
use scry.Run.{Run, done}
use scry.Reader.{
  Index, section, xrefs_slice, inh_slice, calls_slice, crev_slice, inhrev_slice, childrev_slice,
}
use scry.Reader.Lookup.{blob, syms_slice, typed_slice, sig_slice, files_slice}
use scry.Reader.Names.{names_slice}
use scry.Reader.Trigram.{trigram_dict_slice, trigram_post_slice}
use scry.Reader.Open.{
  OpenError, ok, err, Extent, extent, read_header, extents, check_extents, open',
}

err≢ok : {e : OpenError} {ix : Index} → err e ≡ ok ix → ⊥
err≢ok h = cc

-- An extent lies in the file: its slice can be taken and has its bytes.
abbrev IsInside : List ℕ → Extent → Type 0
IsInside bs e =
    (s : List ℕ) × (slice bs e.off (e.off + e.n * e.stride) ≡ done s) × (length s ≡ e.n * e.stride)

slice_fits :
    (bs : List ℕ) (off len : ℕ)
    → off + len ≤ length bs
    → (s : List ℕ) × (slice bs off (off + len) ≡ done s) × (length s ≡ len)
unfolding slice
slice_fits bs off len h = (
  take (off + len - off) (drop off bs),
  ground arith,
  omega (arith, length-take (off + len - off) (drop off bs), length-drop off bs),
)

check_extents-IsInside :
    (bs : List ℕ) (es : List Extent) → check_extents (length bs) es ≡ none → All (IsInside bs) es
unfolding check_extents
check_extents-IsInside bs [] h = tt
check_extents-IsInside bs (e ∷ es) h = (
  slice_fits bs e.off (e.n * e.stride) (ground arith),
  check_extents-IsInside bs es (ground arith),
)

-- A section that can be taken, with as many bytes as the header gives it.
abbrev pub Takes : Run (List ℕ) → ℕ → Type 0
Takes r n = (s : List ℕ) × (r ≡ done s) × (length s ≡ n)

-- Every section of reader.rs can be taken.
pub record IsReadable (ix : Index) : Type 0 where
  pub xrefs : Takes (xrefs_slice ix) (ix.hdr.xrefs_n * xref_len)
  pub syms : Takes (syms_slice ix) (ix.hdr.syms_n * sym_len)
  pub names : Takes (names_slice ix) (ix.hdr.names_n * name_len)
  pub files : Takes (files_slice ix) (ix.hdr.files_n * file_len)
  pub inh : Takes (inh_slice ix) (ix.hdr.inh_n * inh_len)
  pub calls : Takes (calls_slice ix) (ix.hdr.calls_n * call_len)
  pub crev : Takes (crev_slice ix) (ix.hdr.crev_n * call_len)
  pub typed : Takes (typed_slice ix) (ix.hdr.typed_n * type_len)
  pub childrev : Takes (childrev_slice ix) (ix.hdr.childrev_n * inh_len)
  pub inhrev : Takes (inhrev_slice ix) (ix.hdr.inhrev_n * inh_len)
  pub sig : Takes (sig_slice ix) (ix.hdr.sig_n * type_len)
  pub trigram_dict : Takes (trigram_dict_slice ix) (ix.hdr.trigram_dict_n * trigram_len)
  pub trigram_post : Takes (trigram_post_slice ix) ix.hdr.trigram_post_len
  pub blob : Takes (blob ix) ix.hdr.blob_len

bytes_taken :
    (ix : Index) (off n : ℕ) → IsInside ix.bytes (extent off n 1) → Takes (section ix off n) n
bytes_taken ix off n h = let one : n * 1 ≡ n = omega arith in rw one at h

IsInside→IsReadable : (ix : Index) → All (IsInside ix.bytes) (extents ix.hdr) → IsReadable ix
unfolding extents xrefs_slice syms_slice names_slice files_slice inh_slice calls_slice crev_slice
    typed_slice childrev_slice inhrev_slice sig_slice trigram_dict_slice trigram_post_slice blob
IsInside→IsReadable ix h =
    let (xrefs, h) = h in
    let (syms, h) = h in
    let (names, h) = h in
    let (files, h) = h in
    let (inh, h) = h in
    let (calls, h) = h in
    let (crev, h) = h in
    let (typed, h) = h in
    let (childrev, h) = h in
    let (inhrev, h) = h in
    let (sig, h) = h in
    let (dict, h) = h in
    let (post, h) = h in
    record {
      xrefs = xrefs;
      syms = syms;
      names = names;
      files = files;
      inh = inh;
      calls = calls;
      crev = crev;
      typed = typed;
      childrev = childrev;
      inhrev = inhrev;
      sig = sig;
      trigram_dict = dict;
      trigram_post = bytes_taken ix ix.hdr.trigram_post_off ix.hdr.trigram_post_len post;
      blob = bytes_taken ix ix.hdr.blob_off ix.hdr.blob_len h.0;
    }

opened :
    (bs : List ℕ) (hdr : Header) (ix : Index)
    → record { bytes = bs; hdr = hdr } ≡ ix
    → All (IsInside bs) (extents hdr)
    → (ix.bytes ≡ bs) × (ix.hdr ≡ hdr) × IsReadable ix
opened bs hdr ix e h =
    subst (λ ix. (ix.bytes ≡ bs) × (ix.hdr ≡ hdr) × IsReadable ix) e
      (refl, refl, IsInside→IsReadable (record { bytes = bs; hdr = hdr }) h)

-- If `open` accepts a file, the index holds the file and its header, and each of the fourteen
-- sections that the queries take can be taken without a panic, with as many bytes as the header
-- gives it.
pub open-IsReadable :
    (bs : List ℕ) {ix : Index}
    → open' bs ≡ ok ix
    → (ix.bytes ≡ bs) × (ix.hdr ≡ read_header bs) × IsReadable ix
unfolding open'
open-IsReadable bs {ix} h = elim (Bool-cases (ltb (length bs) header_len)) [
  | inl small ↦ absurd (err≢ok (rw small at h))
  | inr large ↦ elim (Bool-cases (not (is_eq (cmp (read_header bs).magic magic)))) [
    | inl bad ↦ absurd (err≢ok (rw (large, bad) at h))
    | inr good ↦
        elim (Bool-cases
          (ltb (read_header bs).version min_version || ltb version (read_header bs).version)) [
            | inl old ↦ absurd (err≢ok (rw (large, good, old) at h))
            | inr new ↦ elim (Option-cases (check_extents (length bs) (extents (read_header bs)))) [
              | inl fine ↦
                  let e : ok (record { bytes = bs; hdr = read_header bs }) ≡ ok ix =
                    rw (large, good, new, fine) at h in
                  opened bs (read_header bs) ix (cc)
                    (check_extents-IsInside bs (extents (read_header bs)) fine)
              | inr (_, bad) ↦ absurd (err≢ok (rw (large, good, new, bad) at h))
            ]
          ]
  ]
]

-- What is checked is enough: extents within a file that is not too long are accepted.
pub check_extents-none :
    (map_len : ℕ) (es : List Extent)
    → map_len < u64_mod
    → All (λ e. e.off + e.n * e.stride ≤ map_len) es
    → check_extents map_len es ≡ none
unfolding check_extents
check_extents-none map_len [] h k = refl
check_extents-none map_len (e ∷ es) h k = ground (arith, check_extents-none map_len es h k.1)

-- A file whose header is right and whose extents lie within it is opened.
pub open-ok :
    (bs : List ℕ)
    → header_len ≤ length bs
    → length bs < u64_mod
    → (read_header bs).magic ≡ magic
    → (read_header bs).version ≡ version
    → All (λ e. e.off + e.n * e.stride ≤ length bs) (extents (read_header bs))
    → open' bs ≡ ok (record { bytes = bs; hdr = read_header bs })
unfolding open'
open-ok bs large small m v k =
    let same : is_eq (cmp (read_header bs).magic magic) ≡ true = rw (m, cmp_refl) refl in
    let len : ltb (length bs) header_len ≡ false = ground arith in
    let old : (ltb (read_header bs).version min_version || ltb version (read_header bs).version)
        ≡ false =
      let test : ℕ → Bool = λ x. ltb x min_version || ltb version x in ap test v in
    rw (len, same, old, check_extents-none (length bs) (extents (read_header bs)) small k) refl
