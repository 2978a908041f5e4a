-- ===== src/Format/HeaderBytes.antt =====
-- The 256 bytes of the header as `write_header` leaves them on a little-endian host.
use scry.Prelude.{ℕ, zero, suc, ◌/◌, ◌%◌, List, [], ◌∷◌, ◌++◌, replicate}
use scry.Format.{Header}

-- `n.to_le_bytes()` of a `w`-byte integer.
unfoldable pub to_le_bytes : ℕ → ℕ → List ℕ
to_le_bytes zero n = []
to_le_bytes (suc w) n = (n % 256) ∷ to_le_bytes w (n / 256)

-- The `u64` fields in the order of the struct.
abbrev pub words : Header → List ℕ
words h =
    h.xrefs_off ∷ h.xrefs_n ∷ h.syms_off ∷ h.syms_n ∷ h.names_off ∷ h.names_n ∷ h.files_off
    ∷ h.files_n ∷ h.inh_off ∷ h.inh_n ∷ h.calls_off ∷ h.calls_n ∷ h.crev_off ∷ h.crev_n ∷ h.blob_off
    ∷ h.blob_len ∷ h.typed_off ∷ h.typed_n ∷ h.childrev_off ∷ h.childrev_n ∷ h.inhrev_off
    ∷ h.inhrev_n ∷ h.sig_off ∷ h.sig_n ∷ h.trigram_dict_off ∷ h.trigram_dict_n ∷ h.trigram_post_off
    ∷ h.trigram_post_len ∷ []

unfoldable pub le_words : List ℕ → List ℕ
le_words [] = []
le_words (x ∷ xs) = to_le_bytes 8 x ++ le_words xs

-- `_pad0` and `_reserved` are zeros.
unfoldable pub header_bytes : Header → List ℕ
header_bytes h =
    h.magic
    ++ (to_le_bytes 4 h.version ++ (to_le_bytes 4 0 ++ (le_words (words h) ++ replicate 16 0)))
