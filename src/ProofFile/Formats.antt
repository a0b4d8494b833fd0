-- ===== src/ProofFile/Formats.antt =====
-- What a sniffed format says of the bytes.
use Prim.Native.String.{String}
use werefa.Prelude.{zero, suc, ℕ, Bool, true, false, List, [], ◌∷◌, ◌==◌, ◌&&◌, leb, length, suc}
use werefa.ProofFile.{
  ProofMimeType, bmp, gif, jpeg, png, webp, pdf, is_gif, is_bmp, is_webp, is_pdf, has, magic_png,
  magic_jpeg,
}

-- The sniffer's test of one format, with no regard to the order of the tests.
abbrev tested : ProofMimeType → List ℕ → Bool
tested bmp bytes = is_bmp bytes
tested gif bytes = is_gif bytes
tested jpeg bytes = has bytes magic_jpeg
tested png bytes = has bytes magic_png
tested webp bytes = is_webp bytes
tested pdf bytes = is_pdf bytes

abbrev first_byte : ProofMimeType → ℕ
first_byte bmp = 0x42
first_byte gif = 0x47
first_byte jpeg = 0xff
first_byte png = 0x89
first_byte webp = 0x52
first_byte pdf = 0x25

abbrev pub begins_with : List ℕ → List ℕ → Bool
begins_with [] bytes = true
begins_with (p ∷ ps) [] = false
begins_with (p ∷ ps) (b ∷ bytes) = b == p && begins_with ps bytes

abbrev pub drop {ℓ} : {A : Type ℓ} → ℕ → List A → List A
drop zero xs = xs
drop (suc k) [] = []
drop (suc k) (x ∷ xs) = drop k xs

-- The published signature of each format: 'BM', 'GIF8' of a header of six bytes, the JPEG and PNG
-- marks, 'RIFF' with 'WEBP' after the size, '%PDF'.
abbrev pub has_signature : ProofMimeType → List ℕ → Bool
has_signature bmp bytes = begins_with (66 ∷ 77 ∷ []) bytes
has_signature gif bytes = begins_with (71 ∷ 73 ∷ 70 ∷ 56 ∷ []) bytes && leb 6 (length bytes)
has_signature jpeg bytes = begins_with (255 ∷ 216 ∷ 255 ∷ []) bytes
has_signature png bytes = begins_with (137 ∷ 80 ∷ 78 ∷ 71 ∷ 13 ∷ 10 ∷ 26 ∷ 10 ∷ []) bytes
has_signature webp bytes =
    begins_with (82 ∷ 73 ∷ 70 ∷ 70 ∷ []) bytes
    && begins_with (87 ∷ 69 ∷ 66 ∷ 80 ∷ []) (drop 8 bytes)
has_signature pdf bytes = begins_with (37 ∷ 80 ∷ 68 ∷ 70 ∷ []) bytes

-- The name and the extension by which each format is registered.
abbrev pub registered_as : ProofMimeType → String × String
registered_as bmp = ("image/bmp", "bmp")
registered_as gif = ("image/gif", "gif")
registered_as jpeg = ("image/jpeg", "jpg")
registered_as png = ("image/png", "png")
registered_as webp = ("image/webp", "webp")
registered_as pdf = ("application/pdf", "pdf")
