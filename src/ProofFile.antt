-- ===== src/ProofFile.antt =====
-- backend/src/domain/lib/proof-file.ts: the format of an uploaded payment proof, found from its
-- first bytes alone. A `Uint8Array` is the list of its bytes.
pub mod Formats
use Prim.Native.String.{String}
use text.Mathlib.Text.{◌==◌ as str_eq}
use werefa.Prelude.{
  ℕ, zero, suc, ◌+◌, ◌*◌, Bool, true, false, ◌&&◌, Option, none, some, List, [], ◌∷◌, leb, ltb,
  ◌==◌, if◌then◌else◌, length, get_elem?, any,
}

pub data ProofMimeType : Type 0 where
  bmp gif jpeg png webp pdf : ProofMimeType

abbrev pub mime_text : ProofMimeType → String
mime_text bmp = "image/bmp"
mime_text gif = "image/gif"
mime_text jpeg = "image/jpeg"
mime_text png = "image/png"
mime_text webp = "image/webp"
mime_text pdf = "application/pdf"

abbrev proof_allowed_mime_types : List String
proof_allowed_mime_types =
    "image/bmp" ∷ "image/gif" ∷ "image/jpeg" ∷ "image/png" ∷ "image/webp" ∷ "application/pdf" ∷ []

abbrev extension : ProofMimeType → String
extension bmp = "bmp"
extension gif = "gif"
extension jpeg = "jpg"
extension png = "png"
extension webp = "webp"
extension pdf = "pdf"

-- 5 * 1024 * 1024
abbrev pub proof_max_bytes : ℕ
proof_max_bytes = 5242880

unfoldable pub is_allowed_proof_mime_type : String → Bool
is_allowed_proof_mime_type value = any (λ m. str_eq m value) proof_allowed_mime_types

pub record SniffedProof : Type 0 where
  pub mime_type : ProofMimeType
  pub extension : String

-- `bytes[i] === v`, false out of range
abbrev byte_is : List ℕ → ℕ → ℕ → Bool
byte_is [] i v = false
byte_is (b ∷ bs) zero v = b == v
byte_is (b ∷ bs) (suc i) v = byte_is bs i v

-- The loop of `has`, at offset 0, which every call uses.
unfoldable pub has : List ℕ → List ℕ → Bool
has bytes [] = true
has [] (p ∷ ps) = false
has (b ∷ bs) (p ∷ ps) = b == p && has bs ps

abbrev pub magic_png : List ℕ
magic_png = 0x89 ∷ 0x50 ∷ 0x4e ∷ 0x47 ∷ 0x0d ∷ 0x0a ∷ 0x1a ∷ 0x0a ∷ []

abbrev pub magic_jpeg : List ℕ
magic_jpeg = 0xff ∷ 0xd8 ∷ 0xff ∷ []

unfoldable pub is_gif : List ℕ → Bool
is_gif bytes =
    leb 6 (length bytes)
    && (byte_is bytes 0 0x47
        && (byte_is bytes 1 0x49 && (byte_is bytes 2 0x46 && byte_is bytes 3 0x38)))

unfoldable pub is_bmp : List ℕ → Bool
is_bmp bytes = leb 2 (length bytes) && (byte_is bytes 0 0x42 && byte_is bytes 1 0x4d)

abbrev is_webp_mark : List ℕ → Bool
is_webp_mark bytes =
    byte_is bytes 8 0x57
    && (byte_is bytes 9 0x45 && (byte_is bytes 10 0x42 && byte_is bytes 11 0x50))

unfoldable pub is_webp : List ℕ → Bool
is_webp bytes =
    leb 12 (length bytes)
    && (byte_is bytes 0 0x52
        && (byte_is bytes 1 0x49
            && (byte_is bytes 2 0x46 && (byte_is bytes 3 0x46 && is_webp_mark bytes))))

unfoldable pub is_pdf : List ℕ → Bool
is_pdf bytes =
    leb 4 (length bytes)
    && (byte_is bytes 0 0x25
        && (byte_is bytes 1 0x50 && (byte_is bytes 2 0x44 && byte_is bytes 3 0x46)))

abbrev pub sniffed : ProofMimeType → SniffedProof
sniffed m = record { mime_type = m; extension = extension m }

unfoldable pub sniff_proof : List ℕ → Option SniffedProof
sniff_proof bytes =
    if has bytes magic_png
    then some (sniffed png)
    else if has bytes magic_jpeg
    then some (sniffed jpeg)
    else if is_gif bytes
    then some (sniffed gif)
    else if is_bmp bytes
    then some (sniffed bmp)
    else if is_webp bytes
    then some (sniffed webp)
    else if is_pdf bytes
    then some (sniffed pdf)
    else none
