-- ===== src/Codec/Amr.antt =====
-- The parser of octet-aligned AMR payloads (internal/codec/amr.go). `(entry >> 3) & 0x0F` is the
-- quotient by 8 modulo 16, and a test of one bit the parity of the quotient by its power of 2.
use media_ai.Prelude.{
  ℕ, zero, suc, ◌+◌, ◌-◌, ◌*◌, ◌/◌, ◌%◌, ◌≤◌, ◌<◌, ◌≡◌, refl, Bool, true, false, List, [], ◌∷◌,
  ◌++◌, Option, none, some, ltb, ◌==◌, length, get_or, take, drop, if◌then◌else◌,
}
pub mod Frames

pub data AmrVariant : Type 0 where
  amr_nb amr_wb : AmrVariant

pub data AmrError : Type 0 where
  amr_not_available : AmrError

abbrev pub amr_nb_frame_bytes : List ℕ
amr_nb_frame_bytes = 12 ∷ 13 ∷ 15 ∷ 17 ∷ 19 ∷ 20 ∷ 26 ∷ 31 ∷ 5 ∷ 0 ∷ 0 ∷ 0 ∷ 0 ∷ 0 ∷ 0 ∷ 0 ∷ []

abbrev pub amr_wb_frame_bytes : List ℕ
amr_wb_frame_bytes = 17 ∷ 23 ∷ 32 ∷ 36 ∷ 40 ∷ 46 ∷ 50 ∷ 58 ∷ 60 ∷ 5 ∷ 0 ∷ 0 ∷ 0 ∷ 0 ∷ 0 ∷ 0 ∷ []

pub record AmrFrameInfo : Type 0 where
  pub ft : ℕ
  pub quality : Bool
  pub payload : List ℕ

abbrev pub frame_table : AmrVariant → List ℕ
frame_table amr_nb = amr_nb_frame_bytes
frame_table amr_wb = amr_wb_frame_bytes

-- The first loop: the entries of the table of contents, and the bytes after them.
pub read_toc : List ℕ → List AmrFrameInfo × List ℕ
read_toc [] = ([], [])
read_toc (entry ∷ bytes) =
    let rest = read_toc bytes in
    let frame : AmrFrameInfo = record {
      ft = entry / 8 % 16;
      quality = entry / 4 % 2 == 1;
      payload = [];
    } in
    if entry / 128 % 2 == 0 then (frame ∷ [], bytes) else (frame ∷ rest.0, rest.1)

-- The second loop: each frame takes its bytes, and the first that is cut short ends the parse.
pub fill : List ℕ → List AmrFrameInfo → List ℕ → List AmrFrameInfo × Option AmrError
fill sizes [] bytes = ([], none)
fill sizes (frame ∷ toc) bytes =
    let size = get_or sizes frame.ft 0 in
    let rest = fill sizes toc (drop size bytes) in
    if ltb (length bytes) size
    then ([], some amr_not_available)
    else (record frame { payload = take size bytes } ∷ rest.0, rest.1)

unfoldable pub parse_amr_frames : List ℕ → AmrVariant → List AmrFrameInfo × Option AmrError
unfolding read_toc fill
parse_amr_frames payload variant =
    if ltb (length payload) 2
    then ([], some amr_not_available)
    else fill (frame_table variant) (read_toc (drop 1 payload)).0 (read_toc (drop 1 payload)).1
