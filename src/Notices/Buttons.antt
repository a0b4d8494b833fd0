-- ===== src/Notices/Buttons.antt =====
-- backend/src/domain/notifications/notification-catalog.ts: the data of an inline button, and its parser.
use werefa.Prelude.{
  ℕ, zero, suc, ◌+◌, ◌≡◌, refl, ap, ◌∙◌, Bool, true, false, not, ◌&&◌, ◌||◌, Option, none, some,
  List, [], ◌∷◌, ◌++◌, ◌==◌, leb, arith, if◌then◌else◌, all, length,
}
use werefa.Store.{Text}
use werefa.Texts.{code_points, trim, trim_start, trim_end, is_space}

pub data ButtonAction : Type 0 where
  accept reject : ButtonAction

-- `acceptCallbackData` and `rejectCallbackData`
unfoldable pub accept_callback_data : Text → Text
accept_callback_data token = code_points "accept:" ++ token

unfoldable pub reject_callback_data : Text → Text
reject_callback_data token = code_points "reject:" ++ token

-- The flag `i` of the pattern.
lower_ascii : ℕ → ℕ
lower_ascii c = if leb b'A' c && leb c b'Z' then c + 32 else c

is_hex : ℕ → Bool
is_hex c = (leb b'0' c && leb c b'9') || ((leb b'a' c && leb c b'f') || (leb b'A' c && leb c b'F'))

-- What is left of a text after a prefix, in upper or lower case.
strip_prefix : Text → Text → Option Text
unfolding lower_ascii
strip_prefix [] t = some t
strip_prefix (p ∷ ps) [] = none
strip_prefix (p ∷ ps) (c ∷ cs) =
    let rest = strip_prefix ps cs in if lower_ascii c == p then rest else none

-- Hexadecimal digits in groups, with a dash between two groups.
hex_groups : ℕ → List ℕ → Text → Bool
unfolding is_hex
hex_groups zero [] [] = true
hex_groups zero [] (c ∷ cs) = false
hex_groups zero (n ∷ ns) [] = false
hex_groups zero (n ∷ ns) (c ∷ cs) = c == b'-' && hex_groups n ns cs
hex_groups (suc k) ns [] = false
hex_groups (suc k) ns (c ∷ cs) = is_hex c && hex_groups k ns cs

unfoldable pub is_uuid : Text → Bool
unfolding hex_groups
is_uuid t = hex_groups 8 (4 ∷ 4 ∷ 4 ∷ 12 ∷ []) t

with_token : ButtonAction → Option Text → Option (ButtonAction × Text)
with_token a none = none
with_token a (some token) = if is_uuid token then some (a, token) else none

abbrev or_else :
    Option (ButtonAction × Text) → Option (ButtonAction × Text) → Option (ButtonAction × Text)
or_else none o = o
or_else (some x) o = some x

match_data : Text → Option (ButtonAction × Text)
unfolding strip_prefix with_token is_uuid
match_data t =
    or_else (with_token accept (strip_prefix (code_points "accept:") t))
      (with_token reject (strip_prefix (code_points "reject:") t))

-- `parseCallbackData`
unfoldable pub parse_callback_data : Text → Option (ButtonAction × Text)
unfolding match_data trim
parse_callback_data raw = match_data (trim raw)

abbrev IsPlain : Text → Type 0
IsPlain t = all (λ c. not (is_space c)) t ≡ true

-- The two halves of a test, and back.
dark_head : (space rest : Bool) → (not space && rest) ≡ true → (space ≡ false) × (rest ≡ true)
dark_head true rest h = cc
dark_head false rest h = (refl, h)

dark_tail : (space rest : Bool) → space ≡ false → rest ≡ true → (not space && rest) ≡ true
dark_tail space rest e h = rw (e, h) refl

both_true : (a b : Bool) → (a && b) ≡ true → (a ≡ true) × (b ≡ true)
both_true true b h = (refl, h)
both_true false b h = cc

trim_end-plain : (t : Text) → IsPlain t → trim_end t ≡ t
unfolding trim_end
trim_end-plain [] h = refl
trim_end-plain (c ∷ cs) h =
    let (dark, rest) = dark_head (is_space c) (all (λ c. not (is_space c)) cs) h in
    rw dark (ap (λ (t : Text). c ∷ t) (trim_end-plain cs rest))

trim-plain : (t : Text) → IsPlain t → trim t ≡ t
unfolding trim trim_start
trim-plain [] h = refl
trim-plain (c ∷ cs) h =
    let (dark, rest) = dark_head (is_space c) (all (λ c. not (is_space c)) cs) h in
    rw dark (trim_end-plain (c ∷ cs) h)

is_hex-plain : (c : ℕ) → is_hex c ≡ true → is_space c ≡ false
unfolding is_hex
is_hex-plain c h = ground (arith, h)

hex_groups-IsPlain : (k : ℕ) (ns : List ℕ) (t : Text) → hex_groups k ns t ≡ true → IsPlain t
unfolding hex_groups
hex_groups-IsPlain zero [] [] h = refl
hex_groups-IsPlain zero [] (c ∷ cs) h = cc
hex_groups-IsPlain zero (n ∷ ns) [] h = cc
hex_groups-IsPlain zero (n ∷ ns) (c ∷ cs) h =
    let (dash, rest) = both_true (c == b'-') (hex_groups n ns cs) h in
    let same : c ≡ b'-' = ground arith in
    dark_tail (is_space c) (all (λ c. not (is_space c)) cs) (rw same refl)
      (hex_groups-IsPlain n ns cs rest)
hex_groups-IsPlain (suc k) ns [] h = cc
hex_groups-IsPlain (suc k) ns (c ∷ cs) h =
    let (hex, rest) = both_true (is_hex c) (hex_groups k ns cs) h in
    dark_tail (is_space c) (all (λ c. not (is_space c)) cs) (is_hex-plain c hex)
      (hex_groups-IsPlain k ns cs rest)

-- How long the groups are, with their dashes.
abbrev groups_length : List ℕ → ℕ
groups_length [] = 0
groups_length (n ∷ ns) = suc (n + groups_length ns)

hex_groups-length :
    (k : ℕ) (ns : List ℕ) (t : Text) → hex_groups k ns t ≡ true → length t ≡ k + groups_length ns
unfolding hex_groups
hex_groups-length zero [] [] h = refl
hex_groups-length zero [] (c ∷ cs) h = cc
hex_groups-length zero (n ∷ ns) [] h = cc
hex_groups-length zero (n ∷ ns) (c ∷ cs) h =
    omega (arith, hex_groups-length n ns cs (both_true (c == b'-') (hex_groups n ns cs) h).1)
hex_groups-length (suc k) ns [] h = cc
hex_groups-length (suc k) ns (c ∷ cs) h =
    omega (arith, hex_groups-length k ns cs (both_true (is_hex c) (hex_groups k ns cs) h).1)

is_uuid-IsPlain : (t : Text) → is_uuid t ≡ true → IsPlain t
unfolding is_uuid
is_uuid-IsPlain t h = hex_groups-IsPlain 8 (4 ∷ 4 ∷ 4 ∷ 12 ∷ []) t h

is_uuid-length : (t : Text) → is_uuid t ≡ true → length t ≡ 36
unfolding is_uuid
is_uuid-length t h = hex_groups-length 8 (4 ∷ 4 ∷ 4 ∷ 12 ∷ []) t h

match_accept :
    (token : Text)
    → is_uuid token ≡ true
    → match_data (accept_callback_data token) ≡ some (accept, token)
unfolding match_data accept_callback_data with_token
match_accept token h = rw h refl

match_reject :
    (token : Text)
    → is_uuid token ≡ true
    → match_data (reject_callback_data token) ≡ some (reject, token)
unfolding match_data reject_callback_data with_token
match_reject token h = rw h refl

-- A button's data that is made of a uuid names its action and the uuid when it is parsed, and takes 43
-- of the 64 bytes that are allowed.
pub parse_callback_data-made :
    (token : Text)
    → is_uuid token ≡ true
    → (parse_callback_data (accept_callback_data token) ≡ some (accept, token))
      × (parse_callback_data (reject_callback_data token) ≡ some (reject, token))
      × (length (accept_callback_data token) ≡ 43)
unfolding parse_callback_data accept_callback_data
parse_callback_data-made token h =
    let plain = is_uuid-IsPlain token h in
    (
      ap match_data (trim-plain (accept_callback_data token) (unfold accept_callback_data in plain))
          ∙ match_accept token h,
      ap match_data (trim-plain (reject_callback_data token) (unfold reject_callback_data in plain))
          ∙ match_reject token h,
      omega (arith, is_uuid-length token h),
    )
