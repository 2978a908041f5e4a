-- ===== src/Roundtrip/Opened.antt =====
-- `IndexBuilder::finish` of writer.rs and `Index::open` of reader.rs: tables whose fields fit are
-- written to a file that opens, with every section at its place.
use scry.Prelude.{ℕ, ◌+◌, ◌*◌, ◌/◌, ◌<◌, ◌≤◌, ◌≡◌, refl, arith, length, All}
use scry.Bytes.{u64_mod}
use scry.Format.{trigram_len}
use scry.Format.HeaderBytes.{header_bytes}
use scry.Reader.Open.{ok, open', extents, read_header}
use scry.Reader.OpenLaws.{open-ok}
use scry.Reader.HeaderLaws.{IsRepresentable, read_header-header_bytes}
use scry.Writer.Layout.{offsets}
use scry.Writer.LayoutLaws.{image, file_of-image}
use scry.Writer.Finish.{Tables, sections_of, header_of}
use scry.Roundtrip.Sections.{
  IsPackable, IsSmall, sections_of-IsMeasured, file, fits, length-file, header_fits, within,
  header_magic, header_version,
}

dict_end : (off len n : ℕ) → off + len ≤ n → off + len / trigram_len * trigram_len ≤ n
dict_end off len n h = omega arith

bytes_end : (off len n : ℕ) → off + len ≤ n → off + len * 1 ≤ n
bytes_end off len n h = omega arith

start_small : (off len n : ℕ) → off + len ≤ n → n < u64_mod → off < u64_mod
start_small off len n h k = omega arith

len_small : (off len n : ℕ) → off + len ≤ n → n < u64_mod → len < u64_mod
len_small off len n h k = omega arith

dict_small : (off len n : ℕ) → off + len ≤ n → n < u64_mod → len / trigram_len < u64_mod
dict_small off len n h k = omega arith

count_small : (off m stride n : ℕ) → off + m * stride ≤ n → n < u64_mod → 1 ≤ stride → m < u64_mod
count_small off m stride n h k l = grind arith

module _ (t : Tables) (p : IsPackable t) (small : IsSmall t) where
  header_inside : All (λ e. e.off + e.n * e.stride ≤ length (file t)) (extents (header_of t))
  unfolding extents header_of sections_of offsets
  header_inside =
      let w = (within t p small) in
      (
        w.0,
        (
          w.1.0,
          (
            w.1.1.0,
            (
              w.1.1.1.0,
              (
                w.1.1.1.1.0,
                (
                  w.1.1.1.1.1.1.0,
                  (
                    w.1.1.1.1.1.1.1.0,
                    (
                      w.1.1.1.1.1.1.1.1.0,
                      (
                        w.1.1.1.1.1.1.1.1.1.0,
                        (
                          w.1.1.1.1.1.0,
                          (
                            w.1.1.1.1.1.1.1.1.1.1.0,
                            (
                              dict_end _ _ _ w.1.1.1.1.1.1.1.1.1.1.1.1.0,
                              (
                                bytes_end _ _ _ w.1.1.1.1.1.1.1.1.1.1.1.1.1.0,
                                (bytes_end _ _ _ w.1.1.1.1.1.1.1.1.1.1.1.0, tt),
                              ),
                            ),
                          ),
                        ),
                      ),
                    ),
                  ),
                ),
              ),
            ),
          ),
        ),
      )

  header-IsRepresentable : IsRepresentable (header_of t)
  unfolding header_of sections_of offsets
  header-IsRepresentable =
      let w = (within t p small) in
      (
        refl,
        omega arith,
        (
          start_small _ _ _ w.0 (length-file t p small),
          (
            count_small _ _ _ _ w.0 (length-file t p small) (omega arith),
            (
              start_small _ _ _ w.1.0 (length-file t p small),
              (
                count_small _ _ _ _ w.1.0 (length-file t p small) (omega arith),
                (
                  start_small _ _ _ w.1.1.0 (length-file t p small),
                  (
                    count_small _ _ _ _ w.1.1.0 (length-file t p small) (omega arith),
                    (
                      start_small _ _ _ w.1.1.1.0 (length-file t p small),
                      (
                        count_small _ _ _ _ w.1.1.1.0 (length-file t p small) (omega arith),
                        (
                          start_small _ _ _ w.1.1.1.1.0 (length-file t p small),
                          (
                            count_small _ _ _ _ w.1.1.1.1.0 (length-file t p small) (omega arith),
                            (
                              start_small _ _ _ w.1.1.1.1.1.1.0 (length-file t p small),
                              (
                                count_small _ _ _ _ w.1.1.1.1.1.1.0 (length-file t p small)
                                    (omega arith),
                                (
                                  start_small _ _ _ w.1.1.1.1.1.1.1.0 (length-file t p small),
                                  (
                                    count_small _ _ _ _ w.1.1.1.1.1.1.1.0 (length-file t p small)
                                        (omega arith),
                                    (
                                      start_small _ _ _ w.1.1.1.1.1.1.1.1.1.1.1.0
                                          (length-file t p small),
                                      (
                                        len_small _ _ _ w.1.1.1.1.1.1.1.1.1.1.1.0
                                            (length-file t p small),
                                        (
                                          start_small _ _ _ w.1.1.1.1.1.1.1.1.0
                                              (length-file t p small),
                                          (
                                            count_small _ _ _ _ w.1.1.1.1.1.1.1.1.0
                                                (length-file t p small) (omega arith),
                                            (
                                              start_small _ _ _ w.1.1.1.1.1.1.1.1.1.0
                                                  (length-file t p small),
                                              (
                                                count_small _ _ _ _ w.1.1.1.1.1.1.1.1.1.0
                                                    (length-file t p small) (omega arith),
                                                (
                                                  start_small _ _ _ w.1.1.1.1.1.0
                                                      (length-file t p small),
                                                  (
                                                    count_small _ _ _ _ w.1.1.1.1.1.0
                                                        (length-file t p small) (omega arith),
                                                    (
                                                      start_small _ _ _ w.1.1.1.1.1.1.1.1.1.1.0
                                                          (length-file t p small),
                                                      (
                                                        count_small _ _ _ _ w.1.1.1.1.1.1.1.1.1.1.0
                                                            (length-file t p small) (omega arith),
                                                        (
                                                          start_small _ _ _
                                                            w.1.1.1.1.1.1.1.1.1.1.1.1.0
                                                            (length-file t p small),
                                                          (
                                                            dict_small _ _ _
                                                            w.1.1.1.1.1.1.1.1.1.1.1.1.0
                                                            (length-file t p small),
                                                            (
                                                            start_small _ _ _
                                                            w.1.1.1.1.1.1.1.1.1.1.1.1.1.0
                                                            (length-file t p small),
                                                            (
                                                            len_small _ _ _
                                                            w.1.1.1.1.1.1.1.1.1.1.1.1.1.0
                                                            (length-file t p small),
                                                            tt,
                                                            ),
                                                            ),
                                                          ),
                                                        ),
                                                      ),
                                                    ),
                                                  ),
                                                ),
                                              ),
                                            ),
                                          ),
                                        ),
                                      ),
                                    ),
                                  ),
                                ),
                              ),
                            ),
                          ),
                        ),
                      ),
                    ),
                  ),
                ),
              ),
            ),
          ),
        ),
      )

  pub read_header-file : read_header (file t) ≡ header_of t
  read_header-file =
      rw
        (file_of-image (header_bytes (header_of t)) (sections_of t) (sections_of-IsMeasured t p)
          (fits t p small))
        (read_header-header_bytes (header_of t)
          (image (length (header_bytes (header_of t))) (sections_of t)) header-IsRepresentable)

  -- The file opens, and the index has its header.
  pub open-file : open' (file t) ≡ ok (record { bytes = file t; hdr = header_of t })
  open-file =
      let opened = open-ok (file t) (header_fits t p small) (length-file t p small) in
      rw read_header-file at opened (header_magic t p small) (header_version t p small)
        header_inside
